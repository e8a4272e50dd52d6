-- ===== src/Research/Screen.antt =====
-- treasuryforge/carry_screener.py and risk/live_gap.py: which carry is worth a paper book, and whether
-- a strategy on paper has kept the edge of its backtest.
pub mod Ranked
use treasuryforge.Base.{
  ℕ, ◌*◌, Bool, true, false, ◌&&◌, ◌||◌, Option, none, some, List, [], ◌∷◌, map, String,
  if◌then◌else◌, ltb, leb, length,
}
use treasuryforge.Base.Float.{
  Float, ◌+◌ as ◌⊞◌, ◌-◌ as ◌⊟◌, ◌*◌ as ◌⊠◌, ◌/◌ as ◌⊘◌, le, lt, whole, max, sum,
}
use treasuryforge.Research.Fills.{FillModelParams, round_trip_cost}

pub data Verdict : Type 0 where
  no_trade watch paper micro_eligible live_eligible : Verdict

pub record ScreenParams (A : Type 0) : Type 0 where
  pub hold_hours : ℕ
  pub margin_bps : A
  pub liq_buffer : A
  pub max_cost_ratio : A
  pub legs : ℕ
  pub fill : FillModelParams A

pub record CarryOpportunity (A : Type 0) : Type 0 where
  pub coin : String
  pub funding_apr : A
  pub expected_funding : A
  pub expected_convergence : A
  pub round_trip_cost : A
  pub net_edge : A
  pub verdict : Verdict

-- What `screen` reads of a candidate.
pub record Candidate (A : Type 0) : Type 0 where
  pub coin : String
  pub funding : A
  pub premium : Option A
  pub spread : A
  pub vol : A
  pub funding_pred : Option A
  pub dsr : Option A
  pub shadow_days : Option A

pub data GapVerdict : Type 0 where
  no_backtest_edge edge_decayed backtest_live_gap execution_edge_leak approved : GapVerdict
  insufficient_live_data : ℕ → ℕ → GapVerdict

pub record GapLimits (A : Type 0) : Type 0 where
  pub min_live_trades : ℕ
  pub min_degradation : A
  pub max_slippage_ratio : A

module _ {A : Type 0} ⦃F : Float A⦄ where
  abbrev pub gross : CarryOpportunity A → A
  gross o = o.expected_funding ⊞ o.expected_convergence

  -- Costs above their share of the gross; with no gross the ratio is infinite, and above any.
  abbrev pub costs_too_much : A → A → A → Bool
  costs_too_much limit gross_edge net =
      if lt (F.lit 1 12) gross_edge then lt limit ((gross_edge ⊟ net) ⊘ gross_edge) else true

  abbrev pub by_evidence : Option A → Option A → Verdict
  by_evidence none days = Verdict.paper
  by_evidence (some dsr) none = Verdict.paper
  by_evidence (some dsr) (some days) =
      if le (F.lit 6 1) dsr && le (whole 30) days
      then Verdict.live_eligible
      else if le (F.lit 6 1) dsr && le (whole 7) days
      then Verdict.micro_eligible
      else Verdict.paper

  -- `_classify`
  unfoldable pub classify : A → A → ScreenParams A → Option A → Option A → Verdict
  classify net gross_edge p dsr days =
      if le net (whole 0)
      then Verdict.no_trade
      else if lt net p.margin_bps || costs_too_much p.max_cost_ratio gross_edge net
      then Verdict.watch
      else by_evidence dsr days

  abbrev pub or_else : A → Option A → A
  or_else default none = default
  or_else default (some a) = a

  unfoldable pub screen_coin : ScreenParams A → Candidate A → CarryOpportunity A
  unfolding classify
  screen_coin p c =
      let expected_funding = or_else c.funding c.funding_pred ⊠ whole p.hold_hours in
      let expected_conv = max (or_else (whole 0) c.premium) (whole 0) in
      let gross_edge = expected_funding ⊞ expected_conv in
      let rtc = round_trip_cost p.fill c.spread c.vol p.legs in
      let net = (gross_edge ⊟ rtc) ⊟ p.liq_buffer in
      record {
        coin = c.coin;
        funding_apr = c.funding ⊠ whole (24 * 365);
        expected_funding = expected_funding;
        expected_convergence = expected_conv;
        round_trip_cost = rtc;
        net_edge = net;
        verdict = classify net gross_edge p c.dsr c.shadow_days;
      }

  -- `sorted(out, key=..., reverse=True)`, which keeps equal edges in their order.
  unfoldable pub insert_edge :
      CarryOpportunity A → List (CarryOpportunity A) → List (CarryOpportunity A)
  insert_edge o [] = o ∷ []
  insert_edge o (x ∷ xs) =
      let rest = insert_edge o xs in if lt o.net_edge x.net_edge then x ∷ rest else o ∷ x ∷ xs

  unfoldable pub sort_edges : List (CarryOpportunity A) → List (CarryOpportunity A)
  unfolding insert_edge
  sort_edges [] = []
  sort_edges (o ∷ os) = insert_edge o (sort_edges os)

  unfoldable pub screen : List (Candidate A) → ScreenParams A → List (CarryOpportunity A)
  unfolding screen_coin sort_edges
  screen candidates p = sort_edges (map (screen_coin p) candidates)

  -- `_mean` of risk/live_gap.py
  abbrev pub mean_or_zero : List A → A
  mean_or_zero [] = whole 0
  mean_or_zero (x ∷ xs) = sum (x ∷ xs) ⊘ whole (length (x ∷ xs))

  -- The slippage against the model; with none modelled the ratio is infinite, and above any limit.
  abbrev pub leaks : A → A → A → Bool
  leaks limit realized modeled =
      if lt (whole 0) modeled then lt limit (realized ⊘ modeled) else true

  -- The verdict of `assess_backtest_live_gap`, on the two series and the two slippages.
  unfoldable pub assess_backtest_live_gap : GapLimits A → List A → List A → A → A → GapVerdict
  assess_backtest_live_gap limits backtest live modeled realized =
      let eb = mean_or_zero backtest in
      let el = mean_or_zero live in
      if le eb (whole 0)
      then no_backtest_edge
      else if ltb (length live) limits.min_live_trades
      then insufficient_live_data (length live) limits.min_live_trades
      else if le el (whole 0)
      then edge_decayed
      else if lt (el ⊘ eb) limits.min_degradation
      then backtest_live_gap
      else if leaks limits.max_slippage_ratio realized modeled
      then execution_edge_leak
      else approved
