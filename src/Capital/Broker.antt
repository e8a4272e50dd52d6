-- ===== src/Capital/Broker.antt =====
-- treasuryforge/broker.py: one decision for each strategy. The committee of treasuryforge/consultants.py
-- and the deflated Sharpe ratio of the gate are parameters.
use treasuryforge.Base.{
  ℕ, ◌+◌, ◌≡◌, Bool, true, false, not, ◌&&◌, Option, none, List, [], ◌∷◌, map, String,
  if◌then◌else◌, length, keep,
}
use mathlib.Core.List.{foldl, Mem}
use treasuryforge.Base.Float.{Float, ◌+◌ as ◌⊞◌, lt, le, whole}
use treasuryforge.Base.Dict.{Dict}
use treasuryforge.Wallet.{tolerance}
use treasuryforge.Capital.Gate.{DeploymentGate, GateVerdict, TrackRecord, evaluate}

pub data BrokerAction : Type 0 where
  deploy : BrokerAction
  hold : BrokerAction

pub data BrokerReason : Type 0 where
  vetoed : BrokerReason
  cleared : BrokerReason
  cap_full : BrokerReason
  gate_closed : BrokerReason

pub record BrokerDecision (A : Type 0) : Type 0 where
  pub strategy : String
  pub action : BrokerAction
  pub tier_fraction : A
  pub verdict : GateVerdict A
  pub reason : BrokerReason

pub record BrokerReport (A : Type 0) : Type 0 where
  pub decisions : List (BrokerDecision A)
  pub total_deployed : A
  pub n_deployed : ℕ

-- A strategy's record with the verdict of the gate.
pub record Graded (A : Type 0) : Type 0 where
  pub strategy : String
  pub track_record : TrackRecord A
  pub verdict : GateVerdict A

abbrev pub is_deploy : BrokerAction → Bool
is_deploy BrokerAction.deploy = true
is_deploy BrokerAction.hold = false

abbrev pub is_deployed : {A : Type 0} → BrokerDecision A → Bool
is_deployed d = is_deploy d.action

module _ {A : Type 0} ⦃F : Float A⦄ where
  -- `portfolio_cap`'s default
  abbrev pub portfolio_cap : A
  portfolio_cap = F.lit 25 2

  -- `sorted`, by the negated ratio: an entry goes behind those with an equal key.
  abbrev ranked : Graded A → List (Graded A) → List (Graded A)
  ranked x [] = x ∷ []
  ranked x (y ∷ ys) =
      let rest = ranked x ys in
      if lt (F.negate x.verdict.dsr) (F.negate y.verdict.dsr) then x ∷ y ∷ ys else y ∷ rest

  abbrev pub by_dsr : List (Graded A) → List (Graded A)
  by_dsr = foldl (λ sorted x. ranked x sorted) []

  abbrev decided : Graded A → BrokerAction → A → BrokerReason → BrokerDecision A
  decided x action fraction reason = record {
    strategy = x.strategy;
    action = action;
    tier_fraction = fraction;
    verdict = x.verdict;
    reason = reason;
  }

  module _ (approves : TrackRecord A → Bool) where
    -- One round of the loop, with what is deployed so far.
    abbrev pub decide_one : A → A → Graded A → BrokerDecision A
    decide_one cap deployed x =
        if x.verdict.deploy && not (approves x.track_record)
        then decided x BrokerAction.hold (whole 0) BrokerReason.vetoed
        else if x.verdict.deploy && le (deployed ⊞ x.verdict.tier_fraction) (cap ⊞ tolerance)
        then decided x BrokerAction.deploy x.verdict.tier_fraction BrokerReason.cleared
        else if x.verdict.deploy
        then decided x BrokerAction.hold (whole 0) BrokerReason.cap_full
        else decided x BrokerAction.hold (whole 0) BrokerReason.gate_closed

    abbrev pub spent_on : A → BrokerDecision A → A
    spent_on deployed d = if is_deployed d then deployed ⊞ d.tier_fraction else deployed

    unfoldable pub allocate : A → A → List (Graded A) → List (BrokerDecision A) × A
    allocate cap deployed [] = ([], deployed)
    allocate cap deployed (x ∷ xs) =
        let d = decide_one cap deployed x in
        let (ds, total) = allocate cap (spent_on deployed d) xs in (d ∷ ds, total)

    module _ (deflated_sharpe_ratio : List A → Option (List A) → A) where
      abbrev pub graded : DeploymentGate A → Dict (TrackRecord A) → List (Graded A)
      graded gate records =
          map
            (λ (s, t). record {
              strategy = s;
              track_record = t;
              verdict = evaluate deflated_sharpe_ratio gate t none;
            })
            records

      unfoldable pub decide : DeploymentGate A → A → Dict (TrackRecord A) → BrokerReport A
      decide gate cap records =
          let (ds, total) = allocate cap (whole 0) (by_dsr (graded gate records)) in
          record {
            decisions = ds;
            total_deployed = total;
            n_deployed = length (keep is_deployed ds);
          }

    -- A decision about a graded strategy: it has the grade's verdict; a strategy that deploys has
    -- cleared it and the committee, and gets the gate's fraction; one that holds gets none.
    abbrev pub Decides : Graded A → BrokerDecision A → Type 0
    Decides x d =
        (d.strategy ≡ x.strategy)
        × (d.verdict ≡ x.verdict)
        × (is_deployed d ≡ true
            → (x.verdict.deploy ≡ true)
              × (approves x.track_record ≡ true)
              × (d.tier_fraction ≡ x.verdict.tier_fraction))
        × (is_deployed d ≡ false → d.tier_fraction ≡ whole 0)

    abbrev fractions : List (BrokerDecision A) → List A
    fractions ds = map (λ d. d.tier_fraction) (keep is_deployed ds)

    module _ (Grade : Graded A → Type 0) where
      -- Each decision is about a graded strategy.
      abbrev pub Justified : BrokerDecision A → Type 0
      Justified d = (x : Graded A) × Grade x × Decides x d

    module _ (deflated_sharpe_ratio : List A → Option (List A) → A) (gate : DeploymentGate A) where
      -- A strategy of the records, with the gate's verdict on its own record.
      abbrev pub GradedFrom : Dict (TrackRecord A) → Graded A → Type 0
      GradedFrom records x =
          Mem (x.strategy, x.track_record) records
          × (x.verdict ≡ evaluate deflated_sharpe_ratio gate x.track_record none)
