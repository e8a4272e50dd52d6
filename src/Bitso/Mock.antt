-- ===== src/Bitso/Mock.antt =====
-- treasuryforge/exchanges/bitso/mock.py: the emulated exchange, as the transport of the client and of
-- the executor. The decimal texts of numbers are the numbers; the text of an exchange id is a
-- parameter of the state.
pub mod AtMostOnce
pub mod Refusals
use treasuryforge.Base.{
  ℕ, zero, suc, ◌-◌, Bool, true, false, not, ◌&&◌, Option, none, some, List, [], ◌∷◌, map, String,
  str_eq, if◌then◌else◌, ltb, is_some, ◌==◌,
}
use Prim.Native.String
use Prim.Native.Char.{code}
use mathlib.Core.Option
use treasuryforge.Base.Float.{Float, ◌+◌ as ◌⊞◌, ◌-◌ as ◌⊟◌, ◌*◌ as ◌⊠◌, ◌/◌ as ◌⊘◌, lt, whole}
use treasuryforge.Base.Dict.{Dict, lookup, get_or, insert}
use treasuryforge.Types.{Side, OrderType}
use treasuryforge.Bitso.Executor.{BitsoExecutor, Params, Request, Trade}
use treasuryforge.Bitso.Client.{
  Endpoint, Book, Payload, Response, BitsoClient, available_books, balance, fees, account_status,
  cancel_all, withdrawals, open_orders, trading, executor_transport,
}

-- `resting` is the status "open".
pub data OrderStatus : Type 0 where
  resting completed cancelled : OrderStatus

pub record MockOrder (A : Type 0) : Type 0 where
  pub book : String
  pub side : Side
  pub order_type : OrderType
  pub status : OrderStatus
  pub origin_id : String
  pub price : Option A
  pub original_amount : Option A

pub record MockTrade (A : Type 0) : Type 0 where
  pub book : String
  pub side : Side
  pub major : A
  pub minor : A
  pub price : A
  pub fees_amount : A
  pub fees_currency : String
  pub tid : ℕ

pub record MockBitsoApi (A : Type 0) : Type 0 where
  pub balances : Dict A
  pub fee_taker : A
  pub fee_maker : A
  pub prices : Dict A
  pub withdrawals_allowed : Bool
  pub books : Dict (Book A)
  pub tid : ℕ
  pub oid : ℕ
  pub orders : Dict (MockOrder A)
  pub trades : Dict (List (MockTrade A))
  pub calls : List (Endpoint A)
  pub rate_limits : ℕ
  -- `f"oid{n}"`
  pub oid_text : ℕ → String

-- `book.split("_")`, at the first underscore.
abbrev pub before_underscore : String → String
before_underscore String.[] = String.[]
before_underscore (String.◌∷◌ c s) =
    if code c == b'_' then String.[] else String.◌∷◌ c (before_underscore s)

abbrev pub after_underscore : String → String
after_underscore String.[] = String.[]
after_underscore (String.◌∷◌ c s) = if code c == b'_' then s else after_underscore s

abbrev pub is_open : OrderStatus → Bool
is_open OrderStatus.resting = true
is_open _ = false

module _ {A : Type 0} where
  -- `_ok`
  abbrev pub okay : Payload A → Response A
  okay p = record { status = 200; success = true; payload = p; code = none; message = "" }

  -- `_err`
  abbrev pub error : ℕ → String → String → Response A
  error status code message = record {
    status = status;
    success = false;
    payload = Payload.nothing;
    code = some code;
    message = message;
  }

  -- The open orders, of one book if one is asked for.
  abbrev pub listed : Option String → MockOrder A → Bool
  listed none o = is_open o.status
  listed (some book) o = is_open o.status && str_eq o.book book

  abbrev pub oids_where : (MockOrder A → Bool) → Dict (MockOrder A) → List String
  oids_where p [] = []
  oids_where p ((k, o) ∷ rest) =
      let others = oids_where p rest in if p o then k ∷ others else others

  abbrev pub cancelled_order : MockOrder A → MockOrder A
  cancelled_order o = if is_open o.status then record o { status = OrderStatus.cancelled } else o

  -- The loop of the cancellation over the open orders.
  abbrev pub cancel_open : Dict (MockOrder A) → Dict (MockOrder A)
  cancel_open [] = []
  cancel_open ((k, o) ∷ rest) = (k, cancelled_order o) ∷ cancel_open rest

  -- `next(k for k, o in self.orders.items() if o.get("origin_id") == ...)`
  abbrev pub oid_of_origin : String → Dict (MockOrder A) → Option String
  oid_of_origin origin [] = none
  oid_of_origin origin ((k, o) ∷ rest) =
      if str_eq o.origin_id origin then some k else oid_of_origin origin rest

  -- The order that a query means; `parse_qs` drops an empty value.
  abbrev pub asked_oid : String → String → Dict (MockOrder A) → Option String
  asked_oid qualifier key orders =
      if str_eq key ""
      then none
      else if str_eq qualifier "oid"
      then some key
      else if str_eq qualifier "origin_id"
      then oid_of_origin key orders
      else none

  abbrev pub shown : MockTrade A → Trade A
  shown t = record {
    major = t.major;
    price = t.price;
    fees_amount = some t.fees_amount;
    tid = t.tid;
  }

  abbrev pub trades_of : Option String → MockBitsoApi A → List (MockTrade A)
  trades_of none m = []
  trades_of (some oid) m = if str_eq oid "" then [] else get_or oid [] m.trades

  abbrev pub book_list : Dict (Book A) → List (Book A)
  book_list books = map (λ e. e.1) books

module _ {A : Type 0} ⦃F : Float A⦄ where
  -- A market order that its amounts and the balances allow: what it buys or sells, and the fee.
  abbrev pub completed_order :
      Side → String → String → A → A → A → String → A → String → MockBitsoApi A → MockBitsoApi A
  completed_order side origin_id book base_gross quote_amt fee fee_ccy price oid m = record m {
    tid = suc m.tid;
    trades =
        insert oid
          (record {
            book = book;
            side = side;
            major = base_gross;
            minor = quote_amt;
            price = price;
            fees_amount = fee;
            fees_currency = fee_ccy;
            tid = suc m.tid;
          }
            ∷ [])
          m.trades;
    orders =
        insert oid
          (record {
            book = book;
            side = side;
            order_type = OrderType.market;
            status = OrderStatus.completed;
            origin_id = origin_id;
            price = none;
            original_amount = none;
          })
          m.orders;
  }

  abbrev pub minimum_value : A
  minimum_value = whole 10 ⊟ F.lit 1 9

  -- The sides of a market order, after the minimum.
  unfoldable pub match_side :
      Side → String → String → A → A → A → String → MockBitsoApi A → Response A × MockBitsoApi A
  match_side Side.buy origin_id book base_gross quote_amt price oid m =
      let base_ccy = before_underscore book in
      let quote_ccy = after_underscore book in
      if lt (get_or quote_ccy (whole 0) m.balances) (quote_amt ⊟ F.lit 1 9)
      then (error 400 "0379" "insufficient funds", m)
      else let fee = base_gross ⊠ m.fee_taker in
        let paid =
          insert quote_ccy (get_or quote_ccy (whole 0) m.balances ⊟ quote_amt) m.balances in
        let received = insert base_ccy ((get_or base_ccy (whole 0) paid ⊞ base_gross) ⊟ fee) paid in
        (
          okay (Payload.placed (some oid)),
          completed_order Side.buy origin_id book base_gross quote_amt fee base_ccy price oid
              (record m { balances = received }),
        )
  match_side Side.sell origin_id book base_gross quote_amt price oid m =
      let base_ccy = before_underscore book in
      let quote_ccy = after_underscore book in
      if lt (get_or base_ccy (whole 0) m.balances) (base_gross ⊟ F.lit 1 9)
      then (error 400 "0379" "insufficient funds", m)
      else let fee = quote_amt ⊠ m.fee_taker in
        let paid = insert base_ccy (get_or base_ccy (whole 0) m.balances ⊟ base_gross) m.balances in
        let received =
          insert quote_ccy ((get_or quote_ccy (whole 0) paid ⊞ quote_amt) ⊟ fee) paid in
        (
          okay (Payload.placed (some oid)),
          completed_order Side.sell origin_id book base_gross quote_amt fee quote_ccy price oid
              (record m { balances = received }),
        )

  -- The base and the quote of a market order. An order that names neither amount, at which the source
  -- raises a KeyError and which the executor does not send, has none.
  abbrev pub market_amounts : Params A → A → Option (A × A)
  market_amounts p price = elim p.minor [
    | some minor ↦ some (minor ⊘ price, minor)
    | none ↦ Option.map (λ major. (major, major ⊠ price)) p.major
  ]

  abbrev pub market_order :
      Params A → String → A → String → Option (A × A) → MockBitsoApi A → Response A × MockBitsoApi A
  market_order p origin_id price oid none m = (error 400 "0310" "unknown order type", m)
  market_order p origin_id price oid (some (base_gross, quote_amt)) m =
      if lt quote_amt minimum_value
      then (error 400 "0309" "below minimum_value", m)
      else match_side p.side origin_id p.book base_gross quote_amt price oid m

  abbrev pub resting_order : Params A → String → String → MockBitsoApi A → MockBitsoApi A
  resting_order p origin_id oid m = record m {
    orders =
        insert oid
          (record {
            book = p.book;
            side = p.side;
            order_type = OrderType.limit;
            status = OrderStatus.resting;
            origin_id = origin_id;
            price = p.price;
            original_amount = p.major;
          })
          m.orders;
  }

  abbrev pub by_type :
      OrderType → Params A → String → A → String → MockBitsoApi A → Response A × MockBitsoApi A
  by_type OrderType.market p origin_id price oid m =
      market_order p origin_id price oid (market_amounts p price) m
  by_type OrderType.limit p origin_id price oid m =
      (okay (Payload.placed (some oid)), resting_order p origin_id oid m)

  -- `_place`. The exchange has a price for each of its books.
  unfoldable pub place : Params A → String → MockBitsoApi A → Response A × MockBitsoApi A
  place p origin_id m =
      if not (is_some (lookup p.book m.books))
      then (error 400 "0308" "unknown book", m)
      else by_type p.order_type p origin_id (get_or p.book (whole 0) m.prices) (m.oid_text m.oid)
          (record m { oid = suc m.oid })

  -- The private endpoints.
  abbrev pub respond : Endpoint A → MockBitsoApi A → Response A × MockBitsoApi A
  respond available_books m = (okay (Payload.books (book_list m.books)), m)
  respond balance m = (okay (Payload.balances m.balances), m)
  respond fees m = (okay (Payload.fee_rows (map (λ e. (e.0, m.fee_taker, m.fee_maker)) m.books)), m)
  respond account_status m = (okay Payload.account, m)
  respond (open_orders book) m = (okay (Payload.opened (oids_where (listed book) m.orders)), m)
  respond cancel_all m = (
    okay (Payload.cancelled (oids_where (listed none) m.orders)),
    record m { orders = cancel_open m.orders },
  )
  respond withdrawals m = (
    if m.withdrawals_allowed
        then error 400 "0300" "withdrawal probe (allowed key) — invalid params"
        else error 401 "0202" "API key is not authorized to execute the requested method",
    m,
  )
  respond (trading (Request.orders p origin_id)) m = place p origin_id m
  respond (trading (Request.user_trades qualifier key)) m =
      (okay (Payload.trades (map shown (trades_of (asked_oid qualifier key m.orders) m))), m)

  abbrev pub is_public : Endpoint A → Bool
  is_public available_books = true
  is_public _ = false

  abbrev pub logged : Endpoint A → MockBitsoApi A → MockBitsoApi A
  logged e m = record m { calls = e ∷ m.calls }

  -- `__call__`; the log of the calls has the last one first.
  unfoldable pub call_mock : Endpoint A → Bool → MockBitsoApi A → Response A × MockBitsoApi A
  call_mock e authed m =
      if ltb 0 m.rate_limits
      then (
        error 420 "0301" "rate limited",
        record (logged e m) { rate_limits = m.rate_limits - 1 },
      )
      else if not (is_public e) && not authed
      then (error 401 "0201" "invalid signature / missing auth", logged e m)
      else respond e (logged e m)

  unfoldable pub mock_client : BitsoClient A (MockBitsoApi A)
  mock_client = record { transport = call_mock }

  -- The executor over the emulated exchange.
  unfoldable pub mock_executor : Dict String → (String → String) → BitsoExecutor A (MockBitsoApi A)
  unfolding mock_client
  mock_executor book_map lower = record {
    transport = executor_transport mock_client;
    book_map = book_map;
    lower = lower;
  }
