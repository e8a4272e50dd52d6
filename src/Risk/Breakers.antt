-- ===== src/Risk/Breakers.antt =====
-- treasuryforge/loss_limits.py: the time-boxed loss circuit breakers. A reason is the criterion that
-- its text prints.
use treasuryforge.Base.{
  ℕ, ◌<◌, ◌≡◌, ◌↔◌, Bool, true, false, List, [], ◌∷◌, ◌++◌, arith, if◌then◌else◌, leb,
}
use treasuryforge.Base.Float.{Float, le, lt}

pub record LossLimits (A : Type 0) : Type 0 where
  pub max_daily_loss : A
  pub max_weekly_loss : A
  pub max_monthly_loss : A
  pub kill_cooldown_days : A
  pub max_op_errors : ℕ
  pub max_live_gap : A

pub record BreakerInput (A : Type 0) : Type 0 where
  pub pnl_1d : A
  pub pnl_7d : A
  pub pnl_30d : A
  pub days_since_kill : A
  pub op_errors : ℕ
  pub live_gap : A

pub data BreakerReason : Type 0 where
  daily_loss : BreakerReason
  weekly_loss : BreakerReason
  monthly_loss : BreakerReason
  kill_cooldown : BreakerReason
  operational_errors : BreakerReason
  live_gap : BreakerReason

-- `halted`
abbrev pub halted : List BreakerReason → Bool
halted [] = false
halted (_ ∷ _) = true

abbrev reason_if : Bool → BreakerReason → List BreakerReason
reason_if b r = if b then r ∷ [] else []

module _ {A : Type 0} ⦃F : Float A⦄ where
  abbrev pub default_limits : LossLimits A
  default_limits = record {
    max_daily_loss = F.lit 2 2;
    max_weekly_loss = F.lit 5 2;
    max_monthly_loss = F.lit 10 2;
    kill_cooldown_days = F.lit 70 1;
    max_op_errors = 3;
    max_live_gap = F.lit 30 2;
  }

  unfoldable pub check_breakers : BreakerInput A → LossLimits A → List BreakerReason
  check_breakers i lim =
      reason_if (le i.pnl_1d (F.negate lim.max_daily_loss)) BreakerReason.daily_loss
      ++ reason_if (le i.pnl_7d (F.negate lim.max_weekly_loss)) BreakerReason.weekly_loss
      ++ reason_if (le i.pnl_30d (F.negate lim.max_monthly_loss)) BreakerReason.monthly_loss
      ++ reason_if (lt i.days_since_kill lim.kill_cooldown_days) BreakerReason.kill_cooldown
      ++ reason_if (leb lim.max_op_errors i.op_errors) BreakerReason.operational_errors
      ++ reason_if (lt lim.max_live_gap i.live_gap) BreakerReason.live_gap

  -- What the limits promise of a book that may trade.
  pub record WithinLimits (i : BreakerInput A) (lim : LossLimits A) : Type 0 where
    pub day_held : le i.pnl_1d (F.negate lim.max_daily_loss) ≡ false
    pub week_held : le i.pnl_7d (F.negate lim.max_weekly_loss) ≡ false
    pub month_held : le i.pnl_30d (F.negate lim.max_monthly_loss) ≡ false
    pub cooled : lt i.days_since_kill lim.kill_cooldown_days ≡ false
    pub few_errors : i.op_errors < lim.max_op_errors
    pub tracks_shadow : lt lim.max_live_gap i.live_gap ≡ false

  -- The breakers let the book trade exactly when every one of the six limits holds.
  pub check_breakers-WithinLimits :
      (i : BreakerInput A) (lim : LossLimits A)
      → (halted (check_breakers i lim) ≡ false) ↔ WithinLimits i lim
  unfolding check_breakers
  check_breakers-WithinLimits i lim = ground arith
