-- ===== src/Research/Trend.antt =====
-- treasuryforge/signals/tsmom.py and tsmom_backtest.py: the volatility-scaled trend position and its
-- backtest. `math.sqrt` is a parameter. The closes of a series that is divided by are above zero where
-- the code tests it.
pub mod Causal
use treasuryforge.Base.{
  ℕ, zero, suc, ◌+◌, ◌-◌, Bool, true, false, not, ◌&&◌, ◌||◌, Option, none, some, List, [], ◌∷◌,
  map, String, if◌then◌else◌, ltb, leb, ◌==◌, length, keep, take, larger, drop,
}
use treasuryforge.Base.Float.{
  Float, ◌+◌ as ◌⊞◌, ◌-◌ as ◌⊟◌, ◌*◌ as ◌⊠◌, ◌/◌ as ◌⊘◌, le, lt, whole, min, sum, is_zero, mean_of,
}
use treasuryforge.Base.Dict.{Dict}

pub record TsmomParams (A : Type 0) : Type 0 where
  pub lookback : ℕ
  pub vol_window : ℕ
  pub target_vol : A
  pub max_leverage : A
  pub cost : A
  pub long_short : Bool
  -- `math.sqrt`
  pub sqrt : A → A

pub record TsmomResult (A : Type 0) : Type 0 where
  pub returns : List A
  pub positions : List A

module _ {A : Type 0} where
  -- `xs[-n:]`, which is all of them for n = 0.
  abbrev pub last : ℕ → List A → List A
  last n xs = if n == 0 then xs else drop (length xs - n) xs

  -- `xs[i]` with a default out of range, where the source does not index.
  abbrev pub at : A → List A → ℕ → A
  at d [] i = d
  at d (x ∷ xs) zero = x
  at d (x ∷ xs) (suc i) = at d xs i

module _ {A : Type 0} ⦃F : Float A⦄ where
  abbrev pub square : A → A
  square x = x ⊠ x

  unfoldable pub realized_vol : TsmomParams A → List A → ℕ → A
  realized_vol p returns window =
      let w = last window returns in
      let n = length w in
      let mean = sum w ⊘ whole n in
      if ltb n 2 then whole 0 else p.sqrt (sum (map (λ r. square (r ⊟ mean)) w) ⊘ whole n)

  -- The close `lookback` before the last one, and the last one.
  unfoldable pub momentum_sign : List A → ℕ → A
  momentum_sign closes lookback =
      let base = at (whole 0) closes (length closes - 1 - lookback) in
      let final = at (whole 0) closes (length closes - 1) in
      let r = (final ⊘ base) ⊟ whole 1 in
      if leb (length closes) lookback || le base (whole 0)
      then whole 0
      else if lt (whole 0) r
      then whole 1
      else if lt r (whole 0)
      then F.negate (whole 1)
      else whole 0

  unfoldable pub target_position : List A → List A → TsmomParams A → A
  unfolding momentum_sign realized_vol
  target_position closes returns p =
      let sign = momentum_sign closes p.lookback in
      let vol = realized_vol p returns p.vol_window in
      if is_zero sign || (not p.long_short && lt sign (whole 0))
      then whole 0
      else if le vol (whole 0)
      then whole 0
      else sign ⊠ min (p.target_vol ⊘ vol) p.max_leverage

  -- The return of each close over the one before; the first has none.
  abbrev pub returns_after : A → List A → List A
  returns_after prev [] = []
  returns_after prev (c ∷ cs) =
      (if lt (whole 0) prev then (c ⊘ prev) ⊟ whole 1 else whole 0) ∷ returns_after c cs

  abbrev pub returns_of : List A → List A
  returns_of [] = []
  returns_of (c ∷ cs) = returns_after c cs

  -- `max(lookback, vol_window) + 1`
  abbrev pub warmup : TsmomParams A → ℕ
  warmup p = suc (larger p.lookback p.vol_window)

  -- A round at time t: the position from the closes and the returns up to t, and what it earns over
  -- the next interval after the cost of its turnover.
  abbrev pub position_at : TsmomParams A → List A → ℕ → A
  position_at p closes t = target_position (take (suc t) closes) (take t (returns_of closes)) p

  unfoldable pub rounds : TsmomParams A → List A → ℕ → ℕ → A → TsmomResult A
  unfolding target_position
  rounds p closes t zero prev_pos = record { returns = []; positions = [] }
  rounds p closes t (suc n) prev_pos =
      let pos = position_at p closes t in
      let rest = rounds p closes (suc t) n pos in
      record {
        returns =
            ((pos ⊠ at (whole 0) (returns_of closes) t) ⊟ (p.cost ⊠ F.magnitude (pos ⊟ prev_pos)))
            ∷ rest.returns;
        positions = pos ∷ rest.positions;
      }

  -- The loop over `range(warmup, n - 1)`.
  unfoldable pub backtest_tsmom : List A → TsmomParams A → TsmomResult A
  unfolding rounds
  backtest_tsmom closes p = rounds p closes (warmup p) (length closes - 1 - warmup p) (whole 0)

  -- The fewest periods of the results, the first being at hand.
  abbrev pub fewest : ℕ → List (TsmomResult A) → ℕ
  fewest n [] = n
  fewest n (r ∷ rs) = fewest (if ltb (length r.returns) n then length r.returns else n) rs

  abbrev pub traded : TsmomResult A → Bool
  traded r = ltb 0 (length r.returns)

  -- Period `i` of the book, aligned on the last periods of each coin.
  abbrev pub book_rounds : List (TsmomResult A) → ℕ → ℕ → ℕ → TsmomResult A
  book_rounds rs size i zero = record { returns = []; positions = [] }
  book_rounds rs size i (suc n) =
      let rest = book_rounds rs size (suc i) n in
      record {
        returns =
            mean_of (map (λ r. at (whole 0) r.returns (length r.returns - size + i)) rs)
            ∷ rest.returns;
        positions =
            mean_of (map (λ r. at (whole 0) r.positions (length r.positions - size + i)) rs)
            ∷ rest.positions;
      }

  abbrev pub book_of : List (TsmomResult A) → TsmomResult A
  book_of [] = record { returns = []; positions = [] }
  book_of (r ∷ rs) = let size = fewest (length r.returns) rs in book_rounds (r ∷ rs) size 0 size

  -- The coins in the order of the dict.
  unfoldable pub backtest_tsmom_many : Dict (List A) → TsmomParams A → TsmomResult A
  backtest_tsmom_many series p = book_of (keep traded (map (λ e. backtest_tsmom e.1 p) series))
