-- ===== src/Examples/Research.antt =====
-- Runs of the research code: folds, backtests, fills, the screen, a breakdown, and the risk of ruin.
use treasuryforge.Base.{
  ℕ, ◌+◌, ◌-◌, ◌*◌, ◌≤◌, ◌≡◌, refl, true, none, some, List, [], ◌∷◌, arith, map, length, All,
  if◌then◌else◌, leb, larger,
}
use mathlib.Core.List.{Perm}
use treasuryforge.Base.Int.{ℤ, pos, negsuc}
use treasuryforge.Base.Float.{◌*◌ as ◌⊠◌, whole}
use treasuryforge.Base.Result.{ok}
use treasuryforge.Examples.Fixed.{fixed, fixed-IsOrdered}
use treasuryforge.Research.Folds.{purged_kfold, Split, range}
use treasuryforge.Research.Folds.Partition.{joined, Purged, purged_kfold-Purged}
use treasuryforge.Research.Episodes.{backtest_carry, funding_persistence, PersistenceStats}
use treasuryforge.Research.Episodes.Booked.{held_after, backtest_carry-booked}
use treasuryforge.Research.Trend.{TsmomParams}
use treasuryforge.Shadow.Scalp.{MomentumParams, Bar}
use treasuryforge.Research.Momentum.{backtest_momentum}
use treasuryforge.Research.Momentum.Fits.{Booked, backtest_momentum-Booked}
use treasuryforge.Research.Screen.{ScreenParams, Candidate, screen, screen_coin}
use treasuryforge.Research.Screen.Ranked.{IsRanked, may_go_live, Justified, screen-IsRanked}
use treasuryforge.Risk.Ruin.{
  block_bootstrap, Generator, RuinParams, Tally, monte_carlo_ruin, reported,
}
use treasuryforge.Risk.Ruin.Bootstrap.{InRange, Drawn, block_bootstrap-Drawn}
use treasuryforge.Risk.Ruin.Counts.{monte_carlo_ruin-Counted}

-- n / 100
abbrev percent : ℕ → ℤ
percent n = pos (n * 10000000)

seven_in_three :
    (splits : List Split) × (purged_kfold 7 3 1 ≡ ok splits)
    × (length splits ≡ 3)
    × (joined (map (λ s. s.test) splits) ≡ range 0 7)
    × All (Purged 7 1) splits
seven_in_three = purged_kfold-Purged 7 3 1 (omega arith) (omega arith)

-- An episode of three intervals, one of one that ends at once, and one that is still open.
abbrev funding_history : List ℤ
funding_history =
    percent 1
    ∷ percent 3
    ∷ percent 4
    ∷ percent 2
    ∷ percent 1
    ∷ percent 5
    ∷ percent 1
    ∷ percent 3
    ∷ percent 3
    ∷ []

two_positions :
    let r = backtest_carry funding_history (percent 3) (percent 2) (percent 1) 2 in
    (p : PersistenceStats) × (funding_persistence funding_history (percent 3) (percent 2) 2 ≡ ok p)
    × (r.holds ≡ held_after (larger 2 1) p.durations)
    × (r.n_positions ≡ length r.holds)
    × (r.total_cost ≡ whole (length r.holds) ⊠ percent 1)
two_positions = backtest_carry-booked funding_history (percent 3) (percent 2) (percent 1) 2 2 refl

abbrev trend : TsmomParams ℤ
trend = record {
  lookback = 1;
  vol_window = 2;
  target_vol = percent 1;
  max_leverage = percent 300;
  cost = pos 600000;
  long_short = true;
  sqrt = λ x. x;
}

abbrev prices : List ℤ
prices = map percent (100 ∷ 104 ∷ 103 ∷ 110 ∷ 125 ∷ 121 ∷ [])

abbrev bar : ℕ → Bar ℤ
bar n = record { high = percent (n + 1); low = percent (n - 1); close = percent n }

abbrev pumps : MomentumParams ℤ
pumps = record {
  enter_1m = percent 1;
  confirm_1m = pos 0;
  trail_frac = percent 4;
  stop_frac = percent 5;
  max_hold = 3;
  cost = pos 1300000;
}

-- Two ignitions, the second one while the first position is held.
abbrev bars : List (Bar ℤ)
bars = map bar (100 ∷ 101 ∷ 103 ∷ 106 ∷ 110 ∷ 90 ∷ 91 ∷ 93 ∷ 80 ∷ [])

two_pumps : Booked pumps bars (backtest_momentum bars pumps)
two_pumps = backtest_momentum-Booked pumps bars

abbrev screened : ScreenParams ℤ
screened = record {
  hold_hours = 100;
  margin_bps = pos 100000;
  liq_buffer = pos 50000;
  max_cost_ratio = percent 35;
  legs = 4;
  fill = record {
    maker_fee = pos 150000;
    taker_fee = pos 450000;
    max_maker_wait = 3;
    adverse_bps = pos 100000;
    sqrt = λ x. x;
    erf = λ x. pos 0;
  };
}

abbrev candidate : ℕ → Candidate ℤ
candidate rate = record {
  coin = "BTC";
  funding = pos (rate * 100000);
  premium = none;
  spread = pos 200000;
  vol = percent 1;
  funding_pred = none;
  dsr = some (percent 70);
  shadow_days = some (whole 10);
}

three_candidates :
    Perm
      (screen (map candidate (1 ∷ 9 ∷ 4 ∷ [])) screened)
      (map (screen_coin screened) (map candidate (1 ∷ 9 ∷ 4 ∷ [])))
    × IsRanked (screen (map candidate (1 ∷ 9 ∷ 4 ∷ [])) screened)
    × ((c : Candidate ℤ)
        → may_go_live (screen_coin screened c).verdict ≡ true
        → Justified screened c (screen_coin screened c))
three_candidates = screen-IsRanked fixed-IsOrdered screened (map candidate (1 ∷ 9 ∷ 4 ∷ []))

-- A generator that counts up, within the range it is asked for.
abbrev counting : Generator ℤ ℕ
counting = record {
  randint = λ a b n. (if leb n b then n else b, n + 1);
  random = λ n. (pos n, n + 1);
}

abbrev ruin_params : RuinParams ℤ
ruin_params = record {
  leverage = whole 20;
  n_steps = none;
  paths = 3;
  ruin_drawdown = percent 50;
  block_len = 2;
  adverse_shift = pos 0;
  tail_shock_prob = pos 0;
  tail_shock_mult = whole 3;
  dd_thresholds = percent 20 ∷ percent 30 ∷ [];
}

abbrev samples : List ℤ
samples = percent 1 ∷ negsuc 29999999 ∷ percent 2 ∷ negsuc 59999999 ∷ percent 3 ∷ []

counting-InRange : InRange counting
counting-InRange = record { in_range = λ n rng. ground arith }

three_paths :
    (t : Tally ℤ) × (monte_carlo_ruin counting ruin_params samples 0
      ≡ ok (reported counting ruin_params t))
    × (t.liq ≤ t.ruin)
    × (t.ruin ≤ ruin_params.paths)
    × (length t.finals ≡ ruin_params.paths)
    × (length t.dds ≡ ruin_params.paths)
three_paths =
    monte_carlo_ruin-Counted counting ruin_params counting-InRange refl samples (omega arith)
      (omega arith) (omega arith) 0

-- Seven returns in blocks of two.
seven_returns : Drawn counting counting-InRange samples 7 (block_bootstrap counting samples 7 2 0)
seven_returns =
    block_bootstrap-Drawn counting counting-InRange samples 7 2 0 (omega arith) (omega arith)
