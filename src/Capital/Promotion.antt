-- ===== src/Capital/Promotion.antt =====
-- treasuryforge/promotion_gate.py: the thresholds that move a strategy up the funnel.
use treasuryforge.Base.{
  ℕ, ◌≤◌, ◌≡◌, ◌↔◌, Bool, true, false, not, ◌&&◌, List, [], ◌∷◌, map, String, arith, leb, all, keep,
}
use treasuryforge.Base.Float.{Float, ◌≼◌, ◌-◌ as ◌⊟◌, ◌*◌ as ◌⊠◌, le}

pub record PromotionCriteria (A : Type 0) : Type 0 where
  pub min_dsr : A
  pub min_net_apr : A
  pub min_events : ℕ
  pub min_days : A
  pub min_duty_cycle : A
  pub max_slippage_ratio : A
  pub max_live_shadow_dev : A

pub record StrategyStats (A : Type 0) : Type 0 where
  pub dsr : A
  pub net_apr : A
  pub n_events : ℕ
  pub n_days : A
  pub duty_cycle : A
  pub realized_slippage : A
  pub modeled_slippage : A
  pub live_pnl : A
  pub shadow_pnl : A
  pub shadow_pnl_std : A

pub record GateCheck : Type 0 where
  pub name : String
  pub passed : Bool

abbrev check : String → Bool → GateCheck
check name passed = record { name = name; passed = passed }

abbrev is_empty {ℓ} : {B : Type ℓ} → List B → Bool
is_empty [] = true
is_empty (_ ∷ _) = false

-- `promoted` and `failures` of a decision, which is its checks.
abbrev pub promoted : List GateCheck → Bool
promoted cs = not (is_empty cs) && all (λ c. c.passed) cs

abbrev pub failures : List GateCheck → List String
failures cs = map (λ c. c.name) (keep (λ c. not c.passed) cs)

module _ {A : Type 0} ⦃F : Float A⦄ where
  abbrev pub default_criteria : PromotionCriteria A
  default_criteria = record {
    min_dsr = F.lit 60 2;
    min_net_apr = F.lit 5 2;
    min_events = 30;
    min_days = F.lit 140 1;
    min_duty_cycle = F.lit 0 1;
    max_slippage_ratio = F.lit 15 1;
    max_live_shadow_dev = F.lit 20 1;
  }

  unfoldable pub evaluate_promotion : StrategyStats A → PromotionCriteria A → List GateCheck
  evaluate_promotion s crit =
      let slip_ceiling = s.modeled_slippage ⊠ crit.max_slippage_ratio in
      let shadow_floor = s.shadow_pnl ⊟ crit.max_live_shadow_dev ⊠ s.shadow_pnl_std in
      check "dsr" (le crit.min_dsr s.dsr)
      ∷ check "net_apr" (le crit.min_net_apr s.net_apr)
      ∷ check "events" (leb crit.min_events s.n_events)
      ∷ check "days" (le crit.min_days s.n_days)
      ∷ check "duty_cycle" (le crit.min_duty_cycle s.duty_cycle)
      ∷ check "slippage" (le s.realized_slippage slip_ceiling)
      ∷ check "live_vs_shadow" (le shadow_floor s.live_pnl)
      ∷ []

  -- What a promotion asks of the live statistics.
  pub record Meets (s : StrategyStats A) (crit : PromotionCriteria A) : Type 0 where
    pub edge : crit.min_dsr ≼ s.dsr
    pub pays : crit.min_net_apr ≼ s.net_apr
    pub sampled : crit.min_events ≤ s.n_events
    pub lasted : crit.min_days ≼ s.n_days
    pub present : crit.min_duty_cycle ≼ s.duty_cycle
    pub honest : s.realized_slippage ≼ (s.modeled_slippage ⊠ crit.max_slippage_ratio)
    pub tracks : (s.shadow_pnl ⊟ crit.max_live_shadow_dev ⊠ s.shadow_pnl_std) ≼ s.live_pnl

  -- A strategy is promoted exactly when its statistics meet every criterion, and exactly when no
  -- check is reported as failed.
  pub evaluate_promotion-Meets :
      (s : StrategyStats A) (crit : PromotionCriteria A)
      → ((promoted (evaluate_promotion s crit) ≡ true) ↔ Meets s crit)
        × ((promoted (evaluate_promotion s crit) ≡ true)
            ↔ (failures (evaluate_promotion s crit) ≡ []))
  unfolding evaluate_promotion
  evaluate_promotion-Meets s crit = ground arith
