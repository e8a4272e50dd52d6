-- ===== src/Autonomous.antt =====
-- scripts/run_autonomous.py: the unattended trader, which composes the paper book, the deployment
-- gate, the committee, the policy engine, the order manager and the Hyperliquid executor. What it
-- prints and its alerts are left out; clock readings are arguments.
pub mod Scan
pub mod Discipline
pub mod Forgetting
use treasuryforge.Base.{
  ◌/◌, ℕ, zero, suc, ◌+◌, ◌-◌, ◌*◌, ◌≤◌, ◌<◌, ◌≡◌, ◌≢◌, refl, sym, subst, ap, ◌∙◌, ◌↔◌, ◌⊎◌, inl,
  inr, Bool, true, false, not, ◌&&◌, ◌||◌, Option, none, some, List, [], ◌∷◌, ◌++◌, map, String,
  str_eq, eq_iff, eq_refl, arith, if◌then◌else◌, ltb, leb, ◌==◌, Bool-cases, Option-cases, is_some,
  length, length-append, all, any, keep, All, All-append, contains, take,
}
use Prim.Native.String.{◌++◌ as ◌⊕◌}
use mathlib.Core.Option
use treasuryforge.Base.Float.{
  Float, ◌+◌ as ◌⊞◌, ◌-◌ as ◌⊟◌, ◌*◌ as ◌⊠◌, ◌/◌ as ◌⊘◌, le, lt, whole, sum,
}
use treasuryforge.Base.Result.{Result, ok, err}
use treasuryforge.Types.{Intent, MarketTick, Side, OrderType}
use treasuryforge.Wallet.{SimWallet}
use treasuryforge.Autonomous.Scan.{ScalpEvent}
use treasuryforge.Policy.{
  PolicyConfig, PolicyEngine, PolicySnapshot, evaluate, register_fill, snapshot, restore,
  fresh_engine,
}
use treasuryforge.Journal.{Journal}
use treasuryforge.Orders.{
  Raised, TwoPhaseExecutor, OrderState, state_value, Orders, OrderEvent, Manager, Outcome, submit,
  post_init,
}
use treasuryforge.Hyperliquid.{HlTwoPhaseExecutor, hl_executor}
use treasuryforge.Shadow.Scalp.{
  ScalpAction, enter, exit_stop, exit_trail, exit_time, hold, flat, ScalpBook, Bar, observe,
}

-- The options of the command line that the policy and the size of a trade come from.
pub record Arguments (A : Type 0) : Type 0 where
  pub tier : A
  pub max_notional_pct : A
  pub max_spend_pct : A
  pub max_dd : A
  pub max_tx : ℕ
  pub policy_window : ℕ

-- What the trader reads of its account: the collateral, and the coins and signed sizes that it holds.
pub record Account (A W : Type 0) : Type 0 where
  pub available_collateral : W → Result Raised A × W
  pub open_positions : W → Result Raised (List (String × A)) × W

-- The dict `live` and the journals behind it.
pub record LiveTrader (A W : Type 0) : Type 0 where
  pub policy : PolicyEngine A
  pub policy_journal : List (PolicySnapshot A)
  pub orders_journal : Journal (OrderEvent A) (Orders A)
  pub venue : W

-- What the clock says at the three places that read it.
pub record Clock : Type 0 where
  pub tick_at : ℕ
  pub origin_at : ℕ
  pub fill_at : ℕ

-- `out.state.value in ("FILLED", "OPEN")`
abbrev pub hit_book : OrderState → Bool
hit_book st = str_eq (state_value st) "FILLED" || str_eq (state_value st) "OPEN"

abbrev pub last_of {ℓ} : {B : Type ℓ} → List B → Option B
last_of [] = none
last_of (x ∷ xs) = elim (last_of xs) [ none ↦ some x | some y ↦ some y ]

module _ {A : Type 0} ⦃F : Float A⦄ where
  abbrev pub hl_min : A
  hl_min = whole 10

  abbrev pub policy_config : Arguments A → List String → A → PolicyConfig A
  policy_config args coins col0 = record {
    allowed_symbols = coins;
    max_notional_per_tx = args.max_notional_pct ⊠ col0;
    max_tx_per_window = args.max_tx;
    window_steps = args.policy_window;
    max_drawdown_pct = args.max_dd;
    fee_rate = F.lit 1 3;
    kill_switch = false;
    min_notional_per_tx = some hl_min;
    max_notional_per_window = some (args.max_spend_pct ⊠ col0);
    spend_window_steps = some args.policy_window;
    max_staleness_ns = none;
  }

  -- `_build_policy`, with the collateral read and the snapshots of the journal.
  unfoldable pub build_policy :
      Arguments A → List String → A → List (PolicySnapshot A) → PolicyEngine A
  build_policy args coins col0 snaps =
      let fresh = fresh_engine (policy_config args coins col0) in
      elim (last_of snaps) [ none ↦ fresh | some s ↦ restore s fresh ]

  abbrev pub enter_intent : String → A → Intent A
  enter_intent coin notional = record {
    symbol = coin;
    side = Side.buy;
    base_amount = whole 0;
    reason = "autonomous scalp";
    order_type = OrderType.market;
    limit_price = none;
    quote_amount = some notional;
  }

  abbrev pub close_intent : String → A → Intent A
  close_intent coin size = record {
    symbol = coin;
    side = if lt (whole 0) size then Side.sell else Side.buy;
    base_amount = F.magnitude size;
    reason = "autonomous close";
    order_type = OrderType.market;
    limit_price = none;
    quote_amount = none;
  }

  -- The first open position of a coin.
  abbrev pub position_of : String → List (String × A) → Option A
  position_of coin [] = none
  position_of coin ((c, size) ∷ rest) =
      if str_eq c coin && lt (whole 0) (F.magnitude size) then some size else position_of coin rest

module _ {A W : Type 0} ⦃F : Float A⦄ (hl : HlTwoPhaseExecutor A W) (account : Account A W)
    (decimal : ℕ → String) where
  abbrev pub executor_for : A → Bool → TwoPhaseExecutor A W
  executor_for cap reduce_only =
      hl_executor (record hl { max_notional_usd = some cap; reduce_only = reduce_only })

  -- A new order manager over the journal of orders, and one submission.
  unfoldable pub submit_fresh :
      TwoPhaseExecutor A W
      → Intent A
      → String
      → LiveTrader A W
      → Result Raised (Outcome A) × LiveTrader A W
  submit_fresh ex i origin_id l =
      let m : Manager A W = record {
        orders = post_init l.orders_journal;
        journal = l.orders_journal;
        venue = l.venue;
      } in
      let (r, m') = submit ex i origin_id i.symbol 3 m in
      (r, record l { orders_journal = m'.journal; venue = m'.venue })

  -- What is to count an order that hit the book, and to journal the policy's state then.
  abbrev pub counted : ℕ → A → Result Raised (Outcome A) → LiveTrader A W → LiveTrader A W
  counted now notional (err e) l = l
  counted now notional (ok out) l =
      let p = register_fill now notional l.policy in
      if hit_book out.state
      then record l { policy = p; policy_journal = l.policy_journal ++ snapshot p ∷ [] }
      else l

  abbrev pub finished : Result Raised (Outcome A) → Result Raised (Unit {0})
  finished (ok out) = ok tt
  finished (err e) = err e

  abbrev pub ruling : Clock → String → A → A → A → LiveTrader A W → Bool × PolicyEngine A
  ruling c coin price collateral notional l =
      let tick : MarketTick A = record { symbol = coin; price = price; ts = c.tick_at } in
      let wallet : SimWallet A = record { quote = collateral; positions = [] } in
      let (v, p) = evaluate l.policy (enter_intent coin notional) tick wallet none in (v.allowed, p)

  -- From the ruling on.
  abbrev pub ruled :
      Clock → String → A → Bool → LiveTrader A W → Result Raised (Unit {0}) × LiveTrader A W
  ruled c coin notional false l = (ok tt, l)
  ruled c coin notional true l =
      let (r, l') =
        submit_fresh (executor_for (notional ⊠ F.lit 12 1) false) (enter_intent coin notional)
          ("auto:" ⊕ coin ⊕ ":" ⊕ decimal c.origin_at) l in
      (finished r, counted c.fill_at notional r l')

  unfoldable pub open_position :
      Clock → String → A → A → A → LiveTrader A W → Result Raised (Unit {0}) × LiveTrader A W
  open_position c coin price collateral notional l =
      if lt notional hl_min
      then (ok tt, l)
      else (let (allowed, p) = ruling c coin price collateral notional l in
          ruled c coin notional allowed (record l { policy = p }))

  abbrev pub closed_by :
      Clock
      → String
      → Result Raised (List (String × A))
      → LiveTrader A W
      → Result Raised (Unit {0}) × LiveTrader A W
  closed_by c coin (err e) l = (err e, l)
  closed_by c coin (ok positions) l = elim (position_of coin positions) [
    | none ↦ (ok tt, l)
    | some size ↦
        let (r, l') =
          submit_fresh (executor_for (whole 1_000_000_000) true) (close_intent coin size)
            ("auto:close:" ⊕ coin ⊕ ":" ⊕ decimal c.origin_at) l in
        (finished r, l')
  ]

  unfoldable pub close_position :
      Clock → String → LiveTrader A W → Result Raised (Unit {0}) × LiveTrader A W
  close_position c coin l =
      let (positions, w) = account.open_positions l.venue in
      closed_by c coin positions (record l { venue = w })

  abbrev pub sized_by :
      ScalpAction
      → Clock
      → String
      → A
      → A
      → Result Raised A
      → LiveTrader A W
      → Result Raised (Unit {0}) × LiveTrader A W
  sized_by action c coin price tier (err e) l = (err e, l)
  sized_by enter c coin price tier (ok collateral) l =
      open_position c coin price collateral (tier ⊠ collateral) l
  sized_by _ c coin price tier (ok collateral) l = close_position c coin l

  -- `_maybe_execute`, with the gate's answer.
  unfoldable pub maybe_execute :
      Bool
      → ScalpAction
      → Clock
      → String
      → A
      → A
      → LiveTrader A W
      → Result Raised (Unit {0}) × LiveTrader A W
  maybe_execute open_gate action c coin price tier l =
      let (collateral, w) = account.available_collateral l.venue in
      if open_gate
      then sized_by action c coin price tier collateral (record l { venue = w })
      else (ok tt, l)

-- A coin of the scan: its paper book, the journal of its completed trades, the last bar that it has
-- stepped, and the growth of the trade that is open.
pub record Coin (A : Type 0) : Type 0 where
  pub name : String
  pub book : ScalpBook A
  pub journal : List (ScalpEvent A)
  pub last_bar : Option ℕ
  pub trade_eq : A

abbrev pub is_exit : ScalpAction → Bool
is_exit exit_stop = true
is_exit exit_trail = true
is_exit exit_time = true
is_exit _ = false

abbrev pub is_enter : ScalpAction → Bool
is_enter enter = true
is_enter _ = false

abbrev pub is_bar : Option ℕ → ℕ → Bool
is_bar none t = false
is_bar (some u) t = u == t

module _ {A : Type 0} ⦃F : Float A⦄ where
  -- The paper part of a round of `main`, at a bar that opened at `t` milliseconds.
  unfoldable pub step_paper : ℕ → Bar A → Coin A → ScalpAction × Coin A
  step_paper t bar coin =
      let ((action, r), book) = observe bar coin.book in
      let eq = coin.trade_eq ⊠ (whole 1 ⊞ r) in
      let event : ScalpEvent A = record { ts = some (t / 1000); r = eq ⊟ whole 1 } in
      (
        action,
        record coin {
          book = book;
          last_bar = some t;
          trade_eq = if is_exit action then whole 1 else eq;
          journal = if is_exit action then coin.journal ++ event ∷ [] else coin.journal;
        },
      )

module _ {A W : Type 0} ⦃F : Float A⦄ (hl : HlTwoPhaseExecutor A W) (account : Account A W)
    (decimal : ℕ → String) (opens : List (ScalpEvent A) → Bool) where
  -- The live part, which the unarmed mode skips.
  abbrev pub step_live :
      Bool → ScalpAction → Clock → A → A → Coin A → LiveTrader A W → LiveTrader A W
  step_live armed action c price tier coin l =
      if armed && (is_enter action || is_exit action)
      then (maybe_execute hl account decimal (opens coin.journal) action c coin.name price tier l).1
      else l

  -- A round of `main` for one coin and its last closed bar, if there is one. An exception is printed,
  -- and what was written stays.
  unfoldable pub round_of :
      Bool → Clock → A → Option (ℕ × Bar A) → Coin A × LiveTrader A W → Coin A × LiveTrader A W
  round_of armed c tier none (coin, l) = (coin, l)
  round_of armed c tier (some (t, bar)) (coin, l) =
      let (action, after) = step_paper t bar coin in
      if is_bar coin.last_bar t
      then (coin, l)
      else (after, step_live armed action c bar.close tier after l)
