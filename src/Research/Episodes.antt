-- ===== src/Research/Episodes.antt =====
-- treasuryforge/funding_persistence.py and carry_backtest.py: how long funding stays high, and what a
-- carry that is held meanwhile earns. Both walk the same series with the same hysteresis.
pub mod Booked
use treasuryforge.Base.{
  ℕ, suc, ◌+◌, ◌-◌, ◌*◌, ◌/◌, ◌%◌, Bool, true, false, not, ◌&&◌, Option, none, some, List, [], ◌∷◌,
  ◌++◌, if◌then◌else◌, ltb, leb, ◌==◌, length, keep, larger,
}
use treasuryforge.Base.Float.{
  Float, ◌+◌ as ◌⊞◌, ◌-◌ as ◌⊟◌, ◌*◌ as ◌⊠◌, ◌/◌ as ◌⊘◌, le, lt, whole, sum,
}
use treasuryforge.Base.Result.{Result, ok, err}

pub record PersistenceStats : Type 0 where
  pub n_episodes : ℕ
  pub durations : List ℕ
  pub breakeven_intervals : ℕ
  pub last_censored : Bool

-- The ValueError.
pub data RateError : Type 0 where
  exit_above_enter : RateError

-- The variables of the loop of `funding_persistence`.
pub record Regime : Type 0 where
  pub durations : List ℕ
  pub in_regime : Bool
  pub dur : ℕ

abbrev pub no_regime : Regime
no_regime = record { durations = []; in_regime = false; dur = 0 }

-- The durations, with that of an episode that is still open.
abbrev pub all_durations : Regime → List ℕ
all_durations s = if s.in_regime then s.durations ++ s.dur ∷ [] else s.durations

module _ {A : Type 0} ⦃F : Float A⦄ where
  abbrev pub regime_step : A → A → A → Regime → Regime
  regime_step enter exit f s =
      if not s.in_regime
      then (if le enter f then record s { in_regime = true; dur = 1 } else s)
      else if lt f exit
      then record s { durations = s.durations ++ s.dur ∷ []; in_regime = false }
      else record s { dur = suc s.dur }

  unfoldable pub regime_loop : A → A → List A → Regime → Regime
  regime_loop enter exit [] s = s
  regime_loop enter exit (f ∷ fs) s = regime_loop enter exit fs (regime_step enter exit f s)

  unfoldable pub funding_persistence : List A → A → A → ℕ → Result RateError PersistenceStats
  funding_persistence history enter exit breakeven =
      if lt enter exit
      then err exit_above_enter
      else let s = regime_loop enter exit history no_regime in
        ok (record {
          n_episodes = length (all_durations s);
          durations = all_durations s;
          breakeven_intervals = breakeven;
          last_censored = s.in_regime;
        })

  -- `pct_reach_breakeven`
  abbrev pub pct_reach_breakeven : PersistenceStats → A
  pct_reach_breakeven s =
      if length s.durations == 0
      then whole 0
      else whole (length (keep (λ d. leb s.breakeven_intervals d) s.durations))
        ⊘ whole (length s.durations)

pub record CarryBtResult (A : Type 0) : Type 0 where
  pub n_positions : ℕ
  pub total_funding : A
  pub total_cost : A
  pub returns : List A
  pub holds : List ℕ

-- The variables of `backtest_carry`.
pub record CarryState (A : Type 0) : Type 0 where
  pub in_episode : Bool
  pub age : ℕ
  pub in_pos : Bool
  pub collected : A
  pub hold : ℕ
  pub returns : List A
  pub holds : List ℕ
  pub total_funding : A
  pub n_cost : ℕ

module _ {A : Type 0} ⦃F : Float A⦄ where
  abbrev pub no_carry : CarryState A
  no_carry = record {
    in_episode = false;
    age = 0;
    in_pos = false;
    collected = whole 0;
    hold = 0;
    returns = [];
    holds = [];
    total_funding = whole 0;
    n_cost = 0;
  }

  -- `_close`
  abbrev pub close : A → CarryState A → CarryState A
  close round_trip s = record s {
    in_pos = false;
    collected = whole 0;
    hold = 0;
    returns = s.returns ++ (s.collected ⊟ round_trip) ∷ [];
    holds = s.holds ++ s.hold ∷ [];
    total_funding = s.total_funding ⊞ s.collected;
    n_cost = suc s.n_cost;
  }

  abbrev pub close_open : A → CarryState A → CarryState A
  close_open round_trip s = if s.in_pos then close round_trip s else s

  -- Where the episode starts, ends or grows older.
  abbrev pub aged : A → A → A → A → CarryState A → CarryState A
  aged enter exit round_trip f s =
      if not s.in_episode
      then (if le enter f then record s { in_episode = true; age = 1 } else s)
      else if lt f exit
      then record (close_open round_trip s) { in_episode = false; age = 0 }
      else record s { age = suc s.age }

  abbrev pub entered : ℕ → CarryState A → CarryState A
  entered min_age s =
      if s.in_episode && not s.in_pos && leb (larger min_age 1) s.age
      then record s { in_pos = true }
      else s

  abbrev pub collecting : A → CarryState A → CarryState A
  collecting f s =
      if s.in_pos then record s { collected = s.collected ⊞ f; hold = suc s.hold } else s

  abbrev pub carry_step : A → A → A → ℕ → A → CarryState A → CarryState A
  carry_step enter exit round_trip min_age f s =
      collecting f (entered min_age (aged enter exit round_trip f s))

  unfoldable pub carry_loop : A → A → A → ℕ → List A → CarryState A → CarryState A
  carry_loop enter exit round_trip min_age [] s = s
  carry_loop enter exit round_trip min_age (f ∷ fs) s =
      carry_loop enter exit round_trip min_age fs (carry_step enter exit round_trip min_age f s)

  unfoldable pub backtest_carry : List A → A → A → A → ℕ → CarryBtResult A
  backtest_carry history enter exit round_trip min_age =
      let s = close_open round_trip (carry_loop enter exit round_trip min_age history no_carry) in
      record {
        n_positions = length s.returns;
        total_funding = s.total_funding;
        total_cost = whole s.n_cost ⊠ round_trip;
        returns = s.returns;
        holds = s.holds;
      }
