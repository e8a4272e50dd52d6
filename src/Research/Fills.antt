-- ===== src/Research/Fills.antt =====
-- treasuryforge/marketlab/fills.py, fill_model.py and backtest/costmodel.py: what an order costs, from
-- the depth of a book, from the chance of a passive fill, and from spread and impact. `math.sqrt` and
-- `erf` are parameters; a book is its levels, whatever format it came in.
use treasuryforge.Base.{ℕ, Bool, ◌&&◌, Option, none, some, List, [], ◌∷◌, if◌then◌else◌, ltb}
use treasuryforge.Base.Float.{
  Float, ◌+◌ as ◌⊞◌, ◌-◌ as ◌⊟◌, ◌*◌ as ◌⊠◌, ◌/◌ as ◌⊘◌, le, lt, whole, min, max,
}
use treasuryforge.Base.Result.{Result, ok, err}
use treasuryforge.Types.{Side}

pub record Level (A : Type 0) : Type 0 where
  pub px : A
  pub sz : A

pub record FillResult (A : Type 0) : Type 0 where
  pub vwap : A
  pub filled : A
  pub requested : A
  pub mid : A
  pub slippage : A
  pub partial : Bool

-- The ValueError.
pub data BookError : Type 0 where
  empty_side : BookError

-- The variables of the loop of `walk_book`.
pub record Walk (A : Type 0) : Type 0 where
  pub remaining : A
  pub cost : A
  pub filled : A

abbrev pub side_of : {B : Type 0} → Side → B → B → B
side_of Side.buy bid ask = ask
side_of Side.sell bid ask = bid

module _ {A : Type 0} ⦃F : Float A⦄ where
  -- A stable insertion, before the first level that comes strictly after it.
  abbrev pub insert_by : (A → A → Bool) → Level A → List (Level A) → List (Level A)
  insert_by before x [] = x ∷ []
  insert_by before x (y ∷ ys) =
      let rest = insert_by before x ys in if before y.px x.px then y ∷ rest else x ∷ y ∷ ys

  -- `list.sort`, with equal keys in their order.
  abbrev pub sort_by : (A → A → Bool) → List (Level A) → List (Level A)
  sort_by before [] = []
  sort_by before (x ∷ xs) = insert_by before x (sort_by before xs)

  -- `parse_book`: bids from the highest, asks from the lowest.
  abbrev pub parse_book : List (Level A) → List (Level A) → List (Level A) × List (Level A)
  parse_book bids asks = (sort_by (λ a b. lt b a) bids, sort_by lt asks)

  abbrev pub tolerance : A
  tolerance = F.lit 1 12

  abbrev pub taken : Level A → Walk A → Walk A
  taken lvl w =
      let take = min w.remaining lvl.sz in
      record {
        remaining = w.remaining ⊟ take;
        cost = w.cost ⊞ (take ⊠ lvl.px);
        filled = w.filled ⊞ take;
      }

  -- The loop, which breaks when next to nothing remains.
  unfoldable pub walk_levels : List (Level A) → Walk A → Walk A
  walk_levels [] w = w
  walk_levels (lvl ∷ rest) w =
      let w' = taken lvl w in
      let more = walk_levels rest w' in if le w'.remaining tolerance then w' else more

  abbrev pub new_walk : A → Walk A
  new_walk size = record { remaining = size; cost = whole 0; filled = whole 0 }

  -- The volume-weighted price, and what was filled.
  unfoldable pub walk_book : List (Level A) → A → A × A
  unfolding walk_levels
  walk_book levels size =
      let w = walk_levels levels (new_walk size) in
      (if lt (whole 0) w.filled then w.cost ⊘ w.filled else whole 0, w.filled)

  abbrev pub slip_of : Side → A → A → A
  slip_of Side.buy vwap mid = (vwap ⊟ mid) ⊘ mid
  slip_of Side.sell vwap mid = (mid ⊟ vwap) ⊘ mid

  abbrev pub fill_at : Side → A → List (Level A) × List (Level A) → Result BookError (FillResult A)
  fill_at side size ([], asks) = err empty_side
  fill_at side size (b ∷ bids, []) = err empty_side
  fill_at side size (b ∷ bids, a ∷ asks) =
      let mid = (b.px ⊞ a.px) ⊘ whole 2 in
      let (vwap, filled) = walk_book (side_of side (b ∷ bids) (a ∷ asks)) size in
      ok (record {
        vwap = vwap;
        filled = filled;
        requested = size;
        mid = mid;
        slippage = max (slip_of side vwap mid) (whole 0);
        partial = lt filled (size ⊟ tolerance);
      })

  -- `MatchingFillModel.fill`
  unfoldable pub fill : List (Level A) → List (Level A) → Side → A → Result BookError (FillResult A)
  unfolding walk_book
  fill bids asks side size = fill_at side size (parse_book bids asks)

pub record FillModelParams (A : Type 0) : Type 0 where
  pub maker_fee : A
  pub taker_fee : A
  pub max_maker_wait : ℕ
  pub adverse_bps : A
  -- `math.sqrt` and `math.erf`
  pub sqrt : A → A
  pub erf : A → A

pub record FillEstimate (A : Type 0) : Type 0 where
  pub expected_cost : A
  pub maker_fill_prob : A
  pub adverse_selection : A
  pub taker_fallback_prob : A

pub record CostModel (A : Type 0) : Type 0 where
  pub fee_rate : A
  pub half_spread : A
  pub impact_eta : A
  pub sqrt : A → A

module _ {A : Type 0} ⦃F : Float A⦄ where
  abbrev pub is_fill_dependent : FillEstimate A → A → A → Bool
  is_fill_dependent e perfect_cost margin = lt (perfect_cost ⊠ margin) e.expected_cost

  -- `_phi`
  abbrev pub phi : FillModelParams A → A → A
  phi p x = F.lit 5 1 ⊠ (whole 1 ⊞ p.erf (x ⊘ p.sqrt (whole 2)))

  unfoldable pub maker_fill_probability : FillModelParams A → A → A → A
  maker_fill_probability p half_spread sigma_window =
      if le sigma_window (F.lit 1 12)
      then whole 0
      else if le half_spread (whole 0)
      then whole 1
      else min (whole 1) (whole 2 ⊠ (whole 1 ⊟ phi p (half_spread ⊘ sigma_window)))

  unfoldable pub estimate_leg_cost : FillModelParams A → A → A → FillEstimate A
  unfolding maker_fill_probability
  estimate_leg_cost p spread vol =
      let half = spread ⊘ whole 2 in
      let wait : ℕ = if ltb p.max_maker_wait 1 then 1 else p.max_maker_wait in
      let prob = maker_fill_probability p half (vol ⊠ p.sqrt (whole wait)) in
      record {
        expected_cost = (prob ⊠ (p.maker_fee ⊞ p.adverse_bps)) ⊞ ((whole 1 ⊟ prob) ⊠ p.taker_fee);
        maker_fill_prob = prob;
        adverse_selection = prob ⊠ p.adverse_bps;
        taker_fallback_prob = whole 1 ⊟ prob;
      }

  unfoldable pub round_trip_cost : FillModelParams A → A → A → ℕ → A
  unfolding estimate_leg_cost
  round_trip_cost p spread vol legs = whole legs ⊠ (estimate_leg_cost p spread vol).expected_cost

  abbrev pub perfect_round_trip_cost : FillModelParams A → ℕ → A
  perfect_round_trip_cost p legs = whole legs ⊠ p.maker_fee

  -- The impact term: only with a volume that is neither none nor zero, and some volatility.
  abbrev pub impact : CostModel A → A → A → Option A → A
  impact c notional sigma none = whole 0
  impact c notional sigma (some adv) =
      if lt (whole 0) adv && lt (whole 0) sigma
      then ((c.impact_eta ⊠ sigma) ⊠ c.sqrt (notional ⊘ adv)) ⊠ notional
      else whole 0

  -- `CostModel.cost`
  unfoldable pub cost : CostModel A → A → A → Option A → A
  cost c notional sigma adv =
      let n = F.magnitude notional in
      ((c.half_spread ⊠ n) ⊞ (c.fee_rate ⊠ n)) ⊞ impact c n sigma adv

  unfoldable pub cost_bps : CostModel A → A → A → Option A → A
  unfolding cost
  cost_bps c notional sigma adv =
      if le notional (whole 0)
      then whole 0
      else (whole 10000 ⊠ cost c notional sigma adv) ⊘ notional
