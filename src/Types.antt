-- ===== src/Types.antt =====
-- treasuryforge/types.py: the value objects that every other part passes around. `A` is the type of
-- the code's floats, and a text that a formatted number goes into is kept as the parts it prints.
use treasuryforge.Base.{ℕ, Bool, Option, none, some, String, str_eq, if◌then◌else◌}
use treasuryforge.Base.Int.{ℤ}
use treasuryforge.Base.Float.{Float, ◌+◌, ◌-◌, ◌*◌, whole}

pub data Side : Type 0 where
  buy sell : Side

pub data OrderType : Type 0 where
  market limit : OrderType

pub record MarketTick (A : Type 0) : Type 0 where
  pub symbol : String
  pub price : A
  pub ts : ℕ

pub record Intent (A : Type 0) : Type 0 where
  pub symbol : String
  pub side : Side
  pub base_amount : A
  pub reason : String
  pub order_type : OrderType
  pub limit_price : Option A
  pub quote_amount : Option A

-- The reasons of `PolicyEngine.evaluate`, with the values that each message prints.
pub data Reason (A : Type 0) : Type 0 where
  allow kill_switch : Reason A
  circuit_breaker : A → A → Reason A
  stale_data : ℤ → ℤ → Reason A
  symbol : String → Reason A
  notional_cap min_notional : A → A → Reason A
  rate_limit : ℕ → ℕ → Reason A
  spend_budget : A → A → ℕ → Reason A
  insufficient_quote insufficient_base : A → A → Reason A
  -- `DENY:fill_aborted price_moved`, of the runner
  fill_aborted : Reason A

pub record Verdict (A : Type 0) : Type 0 where
  pub allowed : Bool
  pub reason : Reason A

pub record Fill (A : Type 0) : Type 0 where
  pub symbol : String
  pub side : Side
  pub base_amount : A
  pub price : A
  pub fee : A
  pub ts : ℕ
  pub fee_currency : String

module _ {A : Type 0} ⦃F : Float A⦄ where
  abbrev pub notional_of : Option A → A → A → A
  notional_of (some q) base price = F.magnitude q
  notional_of none base price = F.magnitude base * price

  -- `Intent.notional`
  unfoldable pub notional : Intent A → A → A
  notional i price = notional_of i.quote_amount i.base_amount price

  abbrev pub quote_delta_of : Side → A → A → A
  quote_delta_of Side.buy gross fee = F.negate (gross + fee)
  quote_delta_of Side.sell gross fee = gross - fee

  -- `Fill.quote_delta`
  unfoldable pub quote_delta : Fill A → A
  quote_delta f =
      quote_delta_of f.side (f.base_amount * f.price)
        (if str_eq f.fee_currency "quote" then f.fee else whole 0)

  abbrev pub base_delta_of : Side → A → A → A
  base_delta_of Side.buy amount fee = amount - fee
  base_delta_of Side.sell amount fee = F.negate amount

  -- `Fill.base_delta`
  unfoldable pub base_delta : Fill A → A
  base_delta f =
      base_delta_of f.side f.base_amount (if str_eq f.fee_currency "base" then f.fee else whole 0)
