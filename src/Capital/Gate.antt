-- ===== src/Capital/Gate.antt =====
-- treasuryforge/deployment_gate.py: the gate that a strategy's track record has to clear, and the
-- strategy behind it. The deflated Sharpe ratio of treasuryforge/backtest/metrics.py and the text
-- that notes a capped intent are parameters.
use treasuryforge.Base.{
  ℕ, ◌-◌, ◌≤◌, ◌≡◌, ◌≢◌, subst, ◌↔◌, inl, inr, Bool, true, false, not, ◌&&◌, ◌||◌, Option, none,
  some, List, [], ◌∷◌, ◌++◌, String, arith, if◌then◌else◌, ltb, Bool-cases, length, any,
}
use mathlib.Core.List.{foldl}
use treasuryforge.Base.Float.{
  Float, IsOrdered, ◌≼◌, ◌+◌ as ◌⊞◌, ◌-◌ as ◌⊟◌, ◌*◌ as ◌⊠◌, ◌/◌ as ◌⊘◌, lt, le, whole,
}
use treasuryforge.Types.{Intent, MarketTick}
use treasuryforge.Wallet.{SimWallet, equity}
use treasuryforge.Live.{Strategy}
use treasuryforge.Risk.Stages.{Stage, stage_capital}

-- The criteria that the reason prints.
pub data GateReason : Type 0 where
  insufficient : GateReason
  low_dsr : GateReason
  low_apr : GateReason
  few_days : GateReason
  cleared : GateReason

pub record GateVerdict (A : Type 0) : Type 0 where
  pub deploy : Bool
  pub dsr : A
  pub apr : A
  pub n : ℕ
  pub days : A
  pub tier_fraction : A
  pub reason : List GateReason

pub record DeploymentGate (A : Type 0) : Type 0 where
  pub min_dsr : A
  pub min_net_apr : A
  pub min_intervals : ℕ
  pub min_days : A
  pub tier : Stage

-- The per-interval returns and the times of a live record.
pub record TrackRecord (A : Type 0) : Type 0 where
  pub returns : List A
  pub ts : List ℕ

abbrev latest : ℕ → List ℕ → ℕ
latest m [] = m
latest m (t ∷ ts) = latest (if ltb m t then t else m) ts

abbrev earliest : ℕ → List ℕ → ℕ
earliest m [] = m
earliest m (t ∷ ts) = earliest (if ltb t m then t else m) ts

abbrev reason_if : Bool → GateReason → List GateReason
reason_if b r = if b then r ∷ [] else []

abbrev is_empty {ℓ} : {B : Type ℓ} → List B → Bool
is_empty [] = true
is_empty (_ ∷ _) = false

module _ {A : Type 0} ⦃F : Float A⦄ where
  -- `(max(ts) - min(ts)) / 86400.0`, of at least two times
  abbrev pub days_of : List ℕ → A
  days_of [] = whole 0
  days_of (t ∷ []) = whole 0
  days_of (t ∷ u ∷ ts) = whole (latest t (u ∷ ts) - earliest t (u ∷ ts)) ⊘ whole 86400

  -- `r != 0`
  abbrev pub moves : A → Bool
  moves r = not (le r (whole 0) && le (whole 0) r)

  abbrev pub growth : List A → A
  growth returns = foldl (λ eq r. eq ⊠ (whole 1 ⊞ r)) (whole 1) returns

  abbrev pub apr_of : TrackRecord A → A
  apr_of t =
      if lt (whole 0) (days_of t.ts)
      then (growth t.returns ⊟ whole 1) ⊘ (days_of t.ts ⊘ whole 365)
      else whole 0

  module _ (deflated_sharpe_ratio : List A → Option (List A) → A) where
    abbrev fails : DeploymentGate A → A → A → A → List GateReason
    fails g dsr apr days =
        reason_if (lt dsr g.min_dsr) GateReason.low_dsr
        ++ reason_if (lt apr g.min_net_apr) GateReason.low_apr
        ++ reason_if (lt days g.min_days) GateReason.few_days

    -- `DeploymentGate.evaluate`
    unfoldable pub evaluate : DeploymentGate A → TrackRecord A → Option (List A) → GateVerdict A
    evaluate g t trials =
        let n = length t.returns in
        let days = days_of t.ts in
        let dsr = deflated_sharpe_ratio t.returns trials in
        let apr = apr_of t in
        let failed = fails g dsr apr days in
        if ltb n g.min_intervals || not (any moves t.returns)
        then record {
          deploy = false;
          dsr = whole 0;
          apr = whole 0;
          n = n;
          days = days;
          tier_fraction = whole 0;
          reason = GateReason.insufficient ∷ [];
        }
        else if not (is_empty failed)
        then record {
          deploy = false;
          dsr = dsr;
          apr = apr;
          n = n;
          days = days;
          tier_fraction = whole 0;
          reason = failed;
        }
        else record {
          deploy = true;
          dsr = dsr;
          apr = apr;
          n = n;
          days = days;
          tier_fraction = stage_capital g.tier;
          reason = GateReason.cleared ∷ [];
        }

    -- What a record has to show.
    pub record HasEarned (g : DeploymentGate A) (t : TrackRecord A) (trials : Option (List A))
        : Type 0 where
      pub long_enough : g.min_intervals ≤ length t.returns
      pub traded : any moves t.returns ≡ true
      pub edge : lt (deflated_sharpe_ratio t.returns trials) g.min_dsr ≡ false
      pub pays : lt (apr_of t) g.min_net_apr ≡ false
      pub lasts : lt (days_of t.ts) g.min_days ≡ false

    -- The gate deploys exactly the records that meet every criterion, with the capital of the gate's
    -- stage; a record that it holds back gets none.
    pub evaluate-HasEarned :
        (g : DeploymentGate A) (t : TrackRecord A) (trials : Option (List A))
        → (((evaluate g t trials).deploy ≡ true) ↔ HasEarned g t trials)
          × ((evaluate g t trials).tier_fraction
              ≡ (if (evaluate g t trials).deploy then stage_capital g.tier else whole 0))
    unfolding evaluate
    evaluate-HasEarned g t trials = ground arith

    module _ (note : String → A → String) where
      abbrev capped_quote : Intent A → A → A → Option A → Intent A
      capped_quote i fraction budget none = i
      capped_quote i fraction budget (some q) =
          if le q budget
          then i
          else record i { quote_amount = some budget; reason = note i.reason fraction }

      abbrev pub max_base : MarketTick A → A → A
      max_base t budget = if lt (whole 0) t.price then budget ⊘ t.price else whole 0

      abbrev pub budget_of : MarketTick A → SimWallet A → A → A
      budget_of t w fraction = fraction ⊠ equity w ((t.symbol, t.price) ∷ [])

      -- `_cap_to_tier`
      unfoldable pub cap_to_tier : Intent A → MarketTick A → SimWallet A → A → Intent A
      cap_to_tier i t w fraction =
          let budget = budget_of t w fraction in
          elim i.quote_amount [
            | some q ↦ capped_quote i fraction budget (some q)
            | none ↦
                if le i.base_amount (max_base t budget)
                then i
                else record i { base_amount = max_base t budget; reason = note i.reason fraction }
          ]

      abbrev pub cap_proposal :
          MarketTick A → SimWallet A → A → Option (Intent A) → Option (Intent A)
      cap_proposal t w fraction none = none
      cap_proposal t w fraction (some i) = some (cap_to_tier i t w fraction)

      -- `GatedStrategy`, with the record as the strategy reads it and the verdict that it keeps.
      unfoldable pub gated :
          {S : Type 0}
          → DeploymentGate A
          → Strategy A S
          → (S → TrackRecord A)
          → Strategy A (S × Option (GateVerdict A))
      gated g inner track_record = record {
        decide = λ t w s.
            let v = evaluate g (track_record s.0) none in
            let (proposal, s') = inner.decide t w s.0 in
            if v.deploy
            then (cap_proposal t w v.tier_fraction proposal, (s', some v))
            else (none, (s.0, some v));
      }

      -- Within the stage's share of the equity.
      abbrev pub WithinTier : MarketTick A → SimWallet A → A → Intent A → Type 0
      WithinTier t w fraction i = elim i.quote_amount [
        | some q ↦ q ≼ budget_of t w fraction
        | none ↦ i.base_amount ≼ max_base t (budget_of t w fraction)
      ]

      cap_to_tier-WithinTier :
          IsOrdered A
          → (i : Intent A) (t : MarketTick A) (w : SimWallet A) (fraction : A)
          → WithinTier t w fraction (cap_to_tier i t w fraction)
      unfolding cap_to_tier
      cap_to_tier-WithinTier laws i t w fraction = ground (
        arith,
        laws.le_refl (budget_of t w fraction),
        laws.le_refl (max_base t (budget_of t w fraction)),
      )

      cap_proposal-WithinTier :
          IsOrdered A
          → (t : MarketTick A) (w : SimWallet A) (fraction : A) (o : Option (Intent A))
            {i : Intent A}
          → cap_proposal t w fraction o ≡ some i
          → WithinTier t w fraction i × (o ≢ none)
      cap_proposal-WithinTier laws t w fraction none e = cc
      cap_proposal-WithinTier laws t w fraction (some j) {i} e =
          let same : cap_to_tier j t w fraction ≡ i = cc in
          (
            subst (λ k. WithinTier t w fraction k) same
                (cap_to_tier-WithinTier laws j t w fraction),
            λ h. cc,
          )

      -- A gated strategy proposes only when its record has earned capital and the strategy within
      -- proposes, and then no more than the stage's share of the equity, where the numbers are
      -- ordered.
      pub gated-WithinTier :
          IsOrdered A
          → {S : Type 0} (g : DeploymentGate A) (inner : Strategy A S) (track : S → TrackRecord A)
            (t : MarketTick A) (w : SimWallet A) (s : S) (last : Option (GateVerdict A))
            {i : Intent A}
          → ((gated g inner track).decide t w (s, last)).0 ≡ some i
          → HasEarned g (track s) none
            × WithinTier t w (stage_capital g.tier) i
            × ((inner.decide t w s).0 ≢ none)
      unfolding gated
      gated-WithinTier laws g inner track t w s last {i} e =
          elim (Bool-cases (evaluate g (track s) none).deploy) [
            | inl d ↦
                let (earned, fraction) = evaluate-HasEarned g (track s) none in
                let stage : (evaluate g (track s) none).tier_fraction ≡ stage_capital g.tier =
                  rw d at fraction in
                let (within, proposed) =
                  cap_proposal-WithinTier laws t w (evaluate g (track s) none).tier_fraction
                    (inner.decide t w s).0 (rw d at e) in
                (earned.0 d, subst (λ x. WithinTier t w x i) stage within, proposed)
            | inr d ↦ cc (rw d at e)
          ]
