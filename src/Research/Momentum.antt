-- ===== src/Research/Momentum.antt =====
-- treasuryforge/momentum_backtest.py and the exit of signals/momentum.py: the event-driven backtest of
-- the momentum rule, on fuel for its `while` loop. Prices that the code divides by are not zero.
pub mod Fits
use treasuryforge.Base.{
  ℕ, zero, suc, ◌+◌, ◌-◌, Bool, true, false, ◌&&◌, Option, none, some, List, [], ◌∷◌, ◌++◌, map,
  if◌then◌else◌, ltb, ◌==◌, length, keep, smaller, drop,
}
use mathlib.Core.Option
use treasuryforge.Base.Float.{
  Float, ◌+◌ as ◌⊞◌, ◌-◌ as ◌⊟◌, ◌*◌ as ◌⊠◌, ◌/◌ as ◌⊘◌, le, lt, whole, max, sum,
}
use treasuryforge.Base.Dict.{Dict}
use treasuryforge.Shadow.Scalp.{MomentumParams, Bar, entry_ok}

pub record MomentumResult (A : Type 0) : Type 0 where
  pub returns : List A
  pub holds : List ℕ

module _ {A : Type 0} ⦃F : Float A⦄ where
  -- The loop over the bars left, `j` of them gone; the last close counts where none triggers.
  unfoldable pub exit_from : MomentumParams A → A → A → A → ℕ → ℕ → List (Bar A) → ℕ × A
  exit_from p entry peak final j zero bars =
      (j, if j == 0 then whole 0 else (final ⊘ entry) ⊟ whole 1)
  exit_from p entry peak final j (suc n) [] =
      (j, if j == 0 then whole 0 else (final ⊘ entry) ⊟ whole 1)
  exit_from p entry peak final j (suc n) (b ∷ bs) =
      let trail_level = peak ⊠ (whole 1 ⊟ p.trail_frac) in
      let stop_level = entry ⊠ (whole 1 ⊟ p.stop_frac) in
      let rest = exit_from p entry (max peak b.high) b.close (suc j) n bs in
      if le b.low stop_level && le stop_level trail_level
      then (suc j, F.negate p.stop_frac)
      else if le b.low trail_level
      then (suc j, (trail_level ⊘ entry) ⊟ whole 1)
      else rest

  -- The bars held and the gross return, over the bars after the entry.
  unfoldable pub simulate_exit : A → List (Bar A) → MomentumParams A → ℕ × A
  unfolding exit_from
  simulate_exit entry bars p =
      exit_from p entry entry entry 0 (smaller p.max_hold (length bars)) bars

  -- A round at bar `i` sees the bars from `i - 2` on.
  abbrev pub ignites : MomentumParams A → List (Bar A) → Option (A × List (Bar A))
  ignites p (b0 ∷ b1 ∷ b2 ∷ later) =
      if entry_ok b0.close b1.close b2.close p then some (b2.close, later) else none
  ignites p _ = none

  abbrev pub with_trade : A → ℕ → MomentumResult A → MomentumResult A
  with_trade r held rest = record { returns = r ∷ rest.returns; holds = held ∷ rest.holds }

  -- `while i < n - 1`, where `bars` are those from `i - 2` on; `none` means that the fuel ran out.
  unfoldable pub scan : ℕ → MomentumParams A → List (Bar A) → Option (MomentumResult A)
  unfolding simulate_exit
  scan zero p bars =
      if ltb 3 (length bars) then none else some (record { returns = []; holds = [] })
  scan (suc fuel) p bars =
      if ltb 3 (length bars)
      then elim (ignites p bars) [
        | none ↦ scan fuel p (drop 1 bars)
        | some (entry, later) ↦
            let (held, gross) = simulate_exit entry later p in
            Option.map (with_trade (gross ⊟ p.cost) held) (scan fuel p (drop (suc held) bars))
      ]
      else some (record { returns = []; holds = [] })

  -- Every round moves on by a bar, so the bars are fuel enough.
  unfoldable pub backtest_momentum : List (Bar A) → MomentumParams A → Option (MomentumResult A)
  unfolding scan
  backtest_momentum bars p = scan (length bars) p bars

  abbrev pub pooled :
      Option (MomentumResult A) → Option (MomentumResult A) → Option (MomentumResult A)
  pooled (some a) (some b) =
      some (record { returns = a.returns ++ b.returns; holds = a.holds ++ b.holds })
  pooled _ _ = none

  unfoldable pub backtest_many : Dict (List (Bar A)) → MomentumParams A → Option (MomentumResult A)
  unfolding backtest_momentum
  backtest_many [] p = some (record { returns = []; holds = [] })
  backtest_many ((coin, bars) ∷ rest) p = pooled (backtest_momentum bars p) (backtest_many rest p)

  -- `win_rate` and `expectancy`
  abbrev pub win_rate : MomentumResult A → A
  win_rate r =
      if length r.returns == 0
      then whole 0
      else whole (length (keep (λ x. lt (whole 0) x) r.returns)) ⊘ whole (length r.returns)

  abbrev pub expectancy : MomentumResult A → A
  expectancy r = if length r.returns == 0 then whole 0 else sum r.returns ⊘ whole (length r.returns)

  -- `equity_curve`
  abbrev pub equity_from : A → List A → List A
  equity_from acc [] = []
  equity_from acc (r ∷ rs) = let acc' = acc ⊠ (whole 1 ⊞ r) in acc' ∷ equity_from acc' rs

  abbrev pub equity_curve : MomentumResult A → List A
  equity_curve r = equity_from (whole 1) r.returns
