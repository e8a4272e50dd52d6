-- ===== src/Autonomous/Scan.antt =====
-- The gate of scripts/run_autonomous.py: the record of a coin's paper trades, its Sharpe ratio among
-- those of the whole scan, and the answer of the deployment gate and the committee.
use treasuryforge.Base.{
  ℕ, Bool, false, not, Option, none, some, List, [], ◌∷◌, map, if◌then◌else◌, ltb, ◌==◌, length,
}
use treasuryforge.Base.Float.{Float, ◌-◌ as ◌⊟◌, ◌*◌ as ◌⊠◌, ◌/◌ as ◌⊘◌, lt, whole, sum}
use treasuryforge.Capital.Gate.{DeploymentGate, GateVerdict, TrackRecord}
use treasuryforge.Capital.Gate

-- A completed paper trade in a coin's journal, whose `ts` may be missing or zero.
pub record ScalpEvent (A : Type 0) : Type 0 where
  pub ts : Option ℕ
  pub r : A

abbrev pub is_zero : ℕ → Bool
is_zero n = n == 0

abbrev pub stamps : {A : Type 0} → List (ScalpEvent A) → List ℕ
stamps [] = []
stamps (e ∷ es) =
    let rest = stamps es in
    elim e.ts [ none ↦ rest | some t ↦ if is_zero t then rest else t ∷ rest ]

abbrev pub return_of : {A : Type 0} → ScalpEvent A → A
return_of e = e.r

module _ {A : Type 0} ⦃F : Float A⦄ where
  -- `_interval_sharpe`
  abbrev pub interval_sharpe : (A → A) → List A → Option A
  interval_sharpe sqrt rs =
      let n = whole (length rs) in
      let mean = sum rs ⊘ n in
      let var = sum (map (λ r. (r ⊟ mean) ⊠ (r ⊟ mean)) rs) ⊘ n in
      if ltb (length rs) 2 then none else if lt (whole 0) var then some (mean ⊘ sqrt var) else none

  -- `_trial_sharpes`, over the journals of all coins.
  unfoldable pub trial_sharpes : (A → A) → List (List (ScalpEvent A)) → List A
  trial_sharpes sqrt [] = []
  trial_sharpes sqrt (j ∷ js) =
      let rest = trial_sharpes sqrt js in
      elim (interval_sharpe sqrt (map return_of j)) [ none ↦ rest | some s ↦ s ∷ rest ]

  -- `_gate_open`: the deployment gate, then the committee.
  unfoldable pub gate_open :
      (List A → Option (List A) → A)
      → (List A → List ℕ → Bool)
      → DeploymentGate A
      → List (ScalpEvent A)
      → Option (List A)
      → Bool
  gate_open deflated_sharpe_ratio committee gate journal trials =
      let rs = map return_of journal in
      let verdict =
        Gate.evaluate deflated_sharpe_ratio gate (record { returns = rs; ts = stamps journal })
          trials in
      if not verdict.deploy then false else committee rs (stamps journal)
