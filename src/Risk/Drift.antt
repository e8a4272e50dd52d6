-- ===== src/Risk/Drift.antt =====
-- treasuryforge/risk/drift.py: the Page-Hinkley detectors and the drift kill-switch.
use treasuryforge.Base.{
  ℕ, zero, suc, ◌≡◌, refl, sym, ◌∙◌, ◌⊎◌, inl, inr, Bool, true, false, Option, none, some, List, [],
  ◌∷◌, ◌++◌, arith, if◌then◌else◌, Option-cases, length,
}
use treasuryforge.Base.Float.{Float, ◌+◌ as ◌⊞◌, ◌-◌ as ◌⊟◌, ◌/◌ as ◌⊘◌, lt, max, min, whole}

pub data Direction : Type 0 where
  decrease : Direction
  increase : Direction

pub record PageHinkley (A : Type 0) : Type 0 where
  pub delta : A
  pub lam : A
  pub direction : Direction
  pub n : ℕ
  pub mean : A
  pub m : A
  pub extreme : A
  pub alarm : Bool

-- The verdicts: the text of `reason`, with the drawdown and the band that it prints.
pub data KillReason (A : Type 0) : Type 0 where
  dd_exceeds_stress_band : A → A → KillReason A
  edge_drift_detected : KillReason A
  execution_degraded : KillReason A

-- `killed` and `reason`: `none` is a switch that is not killed, with the empty reason.
pub record DriftKillSwitch (A : Type 0) : Type 0 where
  pub expectancy : PageHinkley A
  pub slippage : PageHinkley A
  pub stress_dd_band : A
  pub killed : Option (KillReason A)

-- The keyword arguments of `observe`.
pub record Observation (A : Type 0) : Type 0 where
  pub ret : Option A
  pub slippage : Option A
  pub drawdown : Option A

-- n copies of one entry.
abbrev pub replicate {ℓ} : {B : Type ℓ} → ℕ → B → List B
replicate zero b = []
replicate (suc n) b = b ∷ replicate n b

module _ {A : Type 0} ⦃F : Float A⦄ where
  abbrev pub make_detector : A → A → Direction → PageHinkley A
  make_detector delta lam direction = record {
    delta = delta;
    lam = lam;
    direction = direction;
    n = 0;
    mean = whole 0;
    m = whole 0;
    extreme = whole 0;
    alarm = false;
  }

  abbrev moved : Direction → A → A → A → PageHinkley A → A × PageHinkley A
  moved Direction.decrease x mean delta d =
      let m = d.m ⊞ ((x ⊟ mean) ⊞ delta) in
      let extreme = max d.extreme m in
      (extreme ⊟ m, record d { n = suc d.n; mean = mean; m = m; extreme = extreme })
  moved Direction.increase x mean delta d =
      let m = d.m ⊞ ((x ⊟ mean) ⊟ delta) in
      let extreme = min d.extreme m in
      (m ⊟ extreme, record d { n = suc d.n; mean = mean; m = m; extreme = extreme })

  -- `update`: the statistic, and the detector with its alarm raised when the statistic is beyond
  -- the threshold.
  unfoldable pub update : A → PageHinkley A → A × PageHinkley A
  update x d =
      let mean = d.mean ⊞ ((x ⊟ d.mean) ⊘ whole (suc d.n)) in
      let (ph, d') = moved d.direction x mean d.delta d in
      (ph, record d' { alarm = if lt d.lam ph then true else d.alarm })

  unfoldable pub reset : PageHinkley A → PageHinkley A
  reset d = record d { n = 0; mean = whole 0; m = whole 0; extreme = whole 0; alarm = false }

  -- `_kill`
  abbrev kill : KillReason A → Option (KillReason A) → Option (KillReason A)
  kill reason none = some reason
  kill reason (some before) = some before

  abbrev observe_drawdown : Option A → DriftKillSwitch A → DriftKillSwitch A
  observe_drawdown none s = s
  observe_drawdown (some dd) s =
      if lt s.stress_dd_band dd
      then record s {
        killed = kill (KillReason.dd_exceeds_stress_band dd s.stress_dd_band) s.killed;
      }
      else s

  abbrev observe_ret : Option A → DriftKillSwitch A → DriftKillSwitch A
  observe_ret none s = s
  observe_ret (some x) s =
      let d = (update x s.expectancy).1 in
      record s {
        expectancy = d;
        killed = if d.alarm then kill KillReason.edge_drift_detected s.killed else s.killed;
      }

  abbrev observe_slippage : Option A → DriftKillSwitch A → DriftKillSwitch A
  observe_slippage none s = s
  observe_slippage (some x) s =
      let d = (update x s.slippage).1 in
      record s {
        slippage = d;
        killed = if d.alarm then kill KillReason.execution_degraded s.killed else s.killed;
      }

  abbrev observe_live : Observation A → DriftKillSwitch A → DriftKillSwitch A
  observe_live o s = observe_slippage o.slippage (observe_ret o.ret (observe_drawdown o.drawdown s))

  -- `observe`: a killed switch answers its reason and reads nothing.
  unfoldable pub observe :
      Observation A → DriftKillSwitch A → Option (KillReason A) × DriftKillSwitch A
  observe o s =
      let s' = observe_live o s in
      elim s.killed [ some reason ↦ (some reason, s) | none ↦ (s'.killed, s') ]

  abbrev pub observe_all :
      List (Observation A) → DriftKillSwitch A → List (Option (KillReason A)) × DriftKillSwitch A
  observe_all [] s = ([], s)
  observe_all (o ∷ os) s =
      let (v, s1) = observe o s in let (vs, s2) = observe_all os s1 in (v ∷ vs, s2)

  unfoldable pub make_kill_switch : A → A → A → A → A → DriftKillSwitch A
  make_kill_switch expectancy_delta expectancy_lambda slippage_delta slippage_lambda band = record {
    expectancy = make_detector expectancy_delta expectancy_lambda Direction.decrease;
    slippage = make_detector slippage_delta slippage_lambda Direction.increase;
    stress_dd_band = band;
    killed = none;
  }

  observe-answer :
      (o : Observation A) (s : DriftKillSwitch A) → (observe o s).0 ≡ (observe o s).1.killed
  unfolding observe
  observe-answer o s = ground arith

  observe-killed :
      (o : Observation A) (s : DriftKillSwitch A) (r : KillReason A)
      → s.killed ≡ some r
      → observe o s ≡ (some r, s)
  unfolding observe
  observe-killed o s r k = rw k refl

  observe_all-killed :
      (os : List (Observation A)) (s : DriftKillSwitch A) (r : KillReason A)
      → s.killed ≡ some r
      → observe_all os s ≡ (replicate (length os) (some r), s)
  observe_all-killed [] s r k = refl
  observe_all-killed (o ∷ os) s r k =
      let step = observe-killed o s r k in let rest = observe_all-killed os s r k in cc

  -- The verdicts of a switch that is not killed are silence until the first kill, and from then on
  -- the reason of that kill, whatever is observed later.
  pub observe_all-verdicts :
      (os : List (Observation A)) (s : DriftKillSwitch A)
      → s.killed ≡ none
      → ((observe_all os s).0 ≡ replicate (length os) none)
        ⊎ ((n : ℕ) × (m : ℕ) × (r : KillReason A) × ((observe_all os s).0
              ≡ replicate n none ++ replicate (suc m) (some r))
            × ((observe_all os s).1.killed ≡ some r))
  unfolding observe
  observe_all-verdicts [] s k = inl refl
  observe_all-verdicts (o ∷ os) s k = elim (Option-cases (observe o s).0) [
    | inl silent ↦
        elim (observe_all-verdicts os (observe o s).1 (sym (observe-answer o s) ∙ silent)) [
          | inl quiet ↦ inl (cc)
          | inr (n, m, r, e, e') ↦ inr (suc n, m, r, cc, e')
        ]
    | inr (r, verdict) ↦
        let after = observe_all-killed os (observe o s).1 r (sym (observe-answer o s) ∙ verdict) in
        inr (0, length os, r, cc, cc)
  ]
