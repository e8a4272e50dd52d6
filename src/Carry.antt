-- ===== src/Carry.antt =====
-- The cross-venue carry: treasuryforge/cross_venue_economics.py, economic_gate.py,
-- cross_venue_legger.py and opportunity_duty_cycle.py. Parameters of costs are above zero where the
-- source divides by them.
pub mod Spreads
pub mod Duty
use treasuryforge.Base.{
  ℕ, zero, suc, ◌+◌, ◌-◌, ◌*◌, ◌≤◌, ◌<◌, ◌≡◌, ◌≢◌, refl, sym, subst, ap, ◌∙◌, ◌↔◌, ◌⊎◌, inl, inr,
  Bool, true, false, not, ◌&&◌, ◌||◌, Option, none, some, List, [], ◌∷◌, ◌++◌, map, String, str_eq,
  eq_iff, eq_refl, arith, if◌then◌else◌, ltb, leb, ◌==◌, Bool-cases, Option-cases, is_some, length,
  length-append, all, any, keep, All, All-append, contains, take,
}
use treasuryforge.Base.Float.{
  Float, ◌+◌ as ◌⊞◌, ◌-◌ as ◌⊟◌, ◌*◌ as ◌⊠◌, ◌/◌ as ◌⊘◌, le, lt, whole, sum, min, max,
}

pub record CrossVenueParams (A : Type 0) : Type 0 where
  pub fee_per_leg : A
  pub slippage_per_leg : A
  pub legs : ℕ
  pub hedge_rebalance_apr : A
  pub transfer_friction : A
  pub orphan_leg_premium_apr : A
  pub leverage : A
  pub liq_buffer_frac : A
  pub funding_settlement_drag_apr : A
  pub downtime_haircut_apr : A
  pub opportunity_cost_apr : A
  pub exchange_risk_apr : A
  pub transfer_delay_days : A

pub record CrossVenueEconomics (A : Type 0) : Type 0 where
  pub gross_spread_apr : A
  pub amortised_trade_cost_apr : A
  pub notional_drag_apr : A
  pub capital_drag_apr : A
  pub net_funding_apr_on_notional : A
  pub total_locked_ratio : A
  pub net_apr_on_total_capital : A
  pub breakeven_hold_hours : A

pub data GateResult : Type 0 where
  corpse reject pass : GateResult

pub record GateVerdict (A : Type 0) : Type 0 where
  pub result : GateResult
  pub cost_gross_ratio : A
  pub effective_apr : A

pub data ExecVerdict : Type 0 where
  safe residual orphan both_failed : ExecVerdict

pub record LegFillParams (A : Type 0) : Type 0 where
  pub max_residual_delta : A
  pub unwind_slippage : A
  pub price_drift : A

pub record ExecResult (A : Type 0) : Type 0 where
  pub hedged_fraction : A
  pub residual_delta : A
  pub unwind_cost : A
  pub verdict : ExecVerdict

-- `infinity` is `float("inf")`.
module _ {A : Type 0} ⦃F : Float A⦄ (infinity : A) where
  abbrev pub hours_per_year : A
  hours_per_year = whole 8760

  -- `_amortised`
  unfoldable pub amortised : A → CrossVenueParams A → A × A
  amortised hold_hours p =
      let round_trip = whole p.legs ⊠ (p.fee_per_leg ⊞ p.slippage_per_leg) in
      let transit_opp = (p.transfer_delay_days ⊘ whole 365) ⊠ p.opportunity_cost_apr in
      let one_time = (round_trip ⊞ p.transfer_friction) ⊞ transit_opp in
      let hold_years = hold_hours ⊘ hours_per_year in
      (one_time, if lt (whole 0) hold_years then one_time ⊘ hold_years else infinity)

  abbrev pub notional_drag : CrossVenueParams A → A
  notional_drag p =
      ((p.hedge_rebalance_apr ⊞ p.orphan_leg_premium_apr) ⊞ p.funding_settlement_drag_apr)
      ⊞ p.downtime_haircut_apr

  abbrev pub locked_ratio : CrossVenueParams A → A
  locked_ratio p = (whole 2 ⊘ p.leverage) ⊠ (whole 1 ⊞ p.liq_buffer_frac)

  abbrev pub capital_drag : CrossVenueParams A → A
  capital_drag p = (p.opportunity_cost_apr ⊞ p.exchange_risk_apr) ⊠ locked_ratio p

  unfoldable pub breakeven_spread_apr : A → CrossVenueParams A → A
  breakeven_spread_apr hold_hours p =
      ((amortised hold_hours p).1 ⊞ notional_drag p) ⊞ (capital_drag p ⊠ locked_ratio p)

  unfoldable pub cross_venue_economics : A → A → CrossVenueParams A → CrossVenueEconomics A
  cross_venue_economics spread_apr hold_hours p =
      let (one_time, cost) = amortised hold_hours p in
      let net_funding = (spread_apr ⊟ cost) ⊟ notional_drag p in
      record {
        gross_spread_apr = spread_apr;
        amortised_trade_cost_apr = cost;
        notional_drag_apr = notional_drag p;
        capital_drag_apr = capital_drag p;
        net_funding_apr_on_notional = net_funding;
        total_locked_ratio = locked_ratio p;
        net_apr_on_total_capital = (net_funding ⊘ locked_ratio p) ⊟ capital_drag p;
        breakeven_hold_hours =
            if lt (whole 0) spread_apr then one_time ⊘ (spread_apr ⊘ hours_per_year) else infinity;
      }

  abbrev pub effective_apr : CrossVenueEconomics A → A → A
  effective_apr e duty_cycle = e.net_apr_on_total_capital ⊠ duty_cycle

  abbrev pub is_deployable : CrossVenueEconomics A → Bool
  is_deployable e = lt (whole 0) e.net_apr_on_total_capital

  -- `economic_gate`, without the text of its reason.
  unfoldable pub economic_gate : CrossVenueEconomics A → A → A → A → GateVerdict A
  economic_gate e duty_cycle max_cost_gross min_effective_apr =
      let gross = e.gross_spread_apr in
      let ratio = (gross ⊟ e.net_funding_apr_on_notional) ⊘ gross in
      let eff = effective_apr e duty_cycle in
      if le gross (whole 0)
      then record { result = corpse; cost_gross_ratio = infinity; effective_apr = whole 0 }
      else if le (whole 1) ratio || le eff (whole 0)
      then record { result = corpse; cost_gross_ratio = ratio; effective_apr = eff }
      else if lt max_cost_gross ratio || lt eff min_effective_apr
      then record { result = reject; cost_gross_ratio = ratio; effective_apr = eff }
      else record { result = pass; cost_gross_ratio = ratio; effective_apr = eff }

module _ {A : Type 0} ⦃F : Float A⦄ where
  unfoldable pub simulate_cross_legs : A → A → LegFillParams A → ExecResult A
  simulate_cross_legs long_filled short_filled p =
      let gap = F.magnitude (long_filled ⊟ short_filled) in
      record {
        hedged_fraction = min long_filled short_filled;
        residual_delta = gap;
        unwind_cost = gap ⊠ (p.unwind_slippage ⊞ F.magnitude p.price_drift);
        verdict =
            if le long_filled (whole 0) && le short_filled (whole 0)
            then both_failed
            else if le long_filled (whole 0) || le short_filled (whole 0)
            then orphan
            else if lt p.max_residual_delta gap
            then residual
            else safe;
      }
