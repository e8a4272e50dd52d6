-- ===== src/Bitso/Executor.antt =====
-- treasuryforge/exchanges/bitso/executor.py: the two phases of an order at Bitso. The transport is a
-- parameter, over a state of its own; a request and a reply are what is in their bodies, and signing
-- is the transport's. The decimal texts of numbers are the numbers.
use treasuryforge.Base.{
  ℕ, ◌<◌, ◌≡◌, ◌≢◌, refl, inl, inr, Bool, true, false, not, ◌||◌, Option, none, some, List, [], ◌∷◌,
  map, String, str_eq, arith, if◌then◌else◌, ltb, Bool-cases,
}
use treasuryforge.Base.Float.{Float, ◌*◌ as ◌⊠◌, ◌/◌ as ◌⊘◌, le, whole, sum}
use treasuryforge.Base.Dict.{Dict, get_or}
use treasuryforge.Base.Result.{Result, ok, err}
use mathlib.Core.Option
use treasuryforge.Types.{Intent, Fill, Side, OrderType}
use treasuryforge.Bitso.Errors.{Category, classify, definitely_not_landed, classify_landed}
use treasuryforge.Orders.{
  OrderHandle, Raised, bitso_error, value_error, Reconciled, filled, unfilled, TwoPhaseExecutor,
}

-- The parameters of an order: how much quote to spend, or how much base, and at which price.
pub record Params (A : Type 0) : Type 0 where
  pub book : String
  pub side : Side
  pub order_type : OrderType
  pub minor : Option A
  pub major : Option A
  pub price : Option A

-- An entry of `user_trades`; `none` is a trade with no `fees_amount`.
pub record Trade (A : Type 0) : Type 0 where
  pub major : A
  pub price : A
  pub fees_amount : Option A
  pub tid : ℕ

-- The parameters with the origin id, or the qualifier and the key of a query for trades.
pub data Request (A : Type 0) : Type 0 where
  orders : Params A → String → Request A
  user_trades : String → String → Request A

-- A status and what the code reads of the payload.
pub record Reply (A : Type 0) : Type 0 where
  pub status : ℕ
  pub success : Bool
  pub oid : Option String
  pub trades : List (Trade A)
  pub code : Option String
  pub message : String

pub record BitsoExecutor (A W : Type 0) : Type 0 where
  pub transport : Request A → W → Reply A × W
  pub book_map : Dict String
  -- Python's `str.lower`
  pub lower : String → String

-- `_book`
abbrev pub book : {A W : Type 0} → BitsoExecutor A W → String → String
book x symbol = get_or symbol (x.lower symbol) x.book_map

-- `_error`
abbrev pub reply_error : {A : Type 0} → Reply A → Raised
reply_error r = bitso_error (classify r.status r.code) r.message

abbrev is_submitted : Category → Bool
is_submitted Category.submitted = true
is_submitted _ = false

-- The amounts of an order by its type, its side, its quote amount and its limit price; `none` is the
-- ValueError.
abbrev sized :
    {A : Type 0}
    → OrderType
    → Side
    → Option A
    → Option A
    → A
    → Option (Option A × Option A × Option A)
sized OrderType.market Side.buy (some quote) price base = some (some quote, none, none)
sized OrderType.market Side.sell (some quote) price base = none
sized OrderType.market side none price base = some (none, some base, none)
sized OrderType.limit side (some quote) price base = none
sized OrderType.limit side none none base = none
sized OrderType.limit side none (some price) base = some (none, some base, some price)

-- What `place_order` makes of a reply.
abbrev pub placed_by : {A : Type 0} → Params A → String → Reply A → Result Raised OrderHandle
placed_by p origin_id r =
    if r.success
    then ok (record { origin_id = origin_id; oid = r.oid; book = p.book; side = p.side })
    else if is_submitted (classify r.status r.code)
    then ok (record { origin_id = origin_id; oid = none; book = p.book; side = p.side })
    else err (reply_error r)

placed_by_rejected :
    {A : Type 0} (p : Params A) (o : String) (r : Reply A) {c : Category} {text : String}
    → placed_by p o r ≡ err (bitso_error c text)
    → definitely_not_landed c ≡ true
    → (r.success ≡ false) × (r.status ≢ 420) × (r.status ≢ 0) × (r.status < 500)
placed_by_rejected p o r {c} {text} e final = elim (Bool-cases r.success) [
  | inl s ↦ cc (rw s at e)
  | inr s ↦ elim (Bool-cases (is_submitted (classify r.status r.code))) [
    | inl k ↦ cc (rw (s, k) at e)
    | inr k ↦
        let same : definitely_not_landed (classify r.status r.code) ≡ true = cc (rw (s, k) at e) in
        let (limited, silent, failed) = classify_landed r.status r.code same in
        (s, limited, silent, failed)
  ]
]

module _ {A W : Type 0} where
  -- `_to_params`
  unfoldable pub to_params : BitsoExecutor A W → Intent A → Option (Params A)
  to_params x i =
      Option.map
        (λ (minor, major, price). record {
          book = book x i.symbol;
          side = i.side;
          order_type = i.order_type;
          minor = minor;
          major = major;
          price = price;
        })
        (sized i.order_type i.side i.quote_amount i.limit_price i.base_amount)

  abbrev pub sent :
      BitsoExecutor A W → String → W → Option (Params A) → Result Raised OrderHandle × W
  sent x origin_id w none = (err value_error, w)
  sent x origin_id w (some p) =
      let (r, w') = x.transport (orders p origin_id) w in (placed_by p origin_id r, w')

  unfoldable pub place_order :
      BitsoExecutor A W → Intent A → String → W → Result Raised OrderHandle × W
  place_order x i origin_id w = sent x origin_id w (to_params x i)

  sent_rejected :
      (x : BitsoExecutor A W) (o : String) (w : W) (q : Option (Params A)) {c : Category}
      {text : String}
      → (sent x o w q).0 ≡ err (bitso_error c text)
      → definitely_not_landed c ≡ true
      → (p : Params A) × (q ≡ some p)
        × (let r = (x.transport (orders p o) w).0 in
            (r.success ≡ false) × (r.status ≢ 420) × (r.status ≢ 0) × (r.status < 500))
  sent_rejected x o w none e final = cc
  sent_rejected x o w (some p) e final =
      (p, refl, placed_by_rejected p o (x.transport (orders p o) w).0 e final)

-- `handle.oid`, which counts only when it is not empty
abbrev real_oid : Option String → Bool
real_oid none = false
real_oid (some oid) = not (str_eq oid "")

abbrev key_of : Option String → String → String
key_of none origin_id = origin_id
key_of (some oid) origin_id = if str_eq oid "" then origin_id else oid

-- The query for an order's trades, by its exchange id where it has one.
abbrev pub query : {A : Type 0} → OrderHandle → Request A
query h = user_trades (if real_oid h.oid then "oid" else "origin_id") (key_of h.oid h.origin_id)

abbrev received : Side → String
received Side.buy = "base"
received Side.sell = "quote"

-- `max((int(t.get("tid", 0)) for t in trades), default=0)`
abbrev last_tid : {A : Type 0} → List (Trade A) → ℕ
last_tid [] = 0
last_tid (t ∷ ts) = let rest = last_tid ts in if ltb rest t.tid then t.tid else rest

module _ {A : Type 0} ⦃F : Float A⦄ where
  abbrev pub total_base : List (Trade A) → A
  total_base ts = sum (map (λ t. F.magnitude t.major) ts)

  abbrev fee_of : Option A → A
  fee_of none = whole 0
  fee_of (some fee) = fee

  -- The fill at the volume-weighted price of the trades.
  abbrev pub fill_of : OrderHandle → String → List (Trade A) → Fill A
  fill_of h symbol ts = record {
    symbol = symbol;
    side = h.side;
    base_amount = total_base ts;
    price = sum (map (λ t. F.magnitude t.major ⊠ t.price) ts) ⊘ total_base ts;
    fee = sum (map (λ t. fee_of t.fees_amount) ts);
    ts = last_tid ts;
    fee_currency = received h.side;
  }

  abbrev no_trades : List (Trade A) → Bool
  no_trades [] = true
  no_trades (_ ∷ _) = false

  -- What `reconcile` makes of a reply.
  abbrev pub reconciled_by : OrderHandle → String → Reply A → Result Raised (Reconciled A)
  reconciled_by h symbol r =
      if not r.success
      then (if definitely_not_landed (classify r.status r.code)
          then err (reply_error r)
          else ok unfilled)
      else if no_trades r.trades || le (total_base r.trades) (whole 0)
      then ok unfilled
      else ok (filled (fill_of h symbol r.trades))

  reconciled_by_filled :
      (h : OrderHandle) (symbol : String) (r : Reply A) {f : Fill A}
      → reconciled_by h symbol r ≡ ok (filled f)
      → (r.success ≡ true)
        × (r.trades ≢ [])
        × (le (total_base r.trades) (whole 0) ≡ false)
        × (f ≡ fill_of h symbol r.trades)
  reconciled_by_filled h symbol r {f} e = ground arith

module _ {A W : Type 0} ⦃F : Float A⦄ where
  unfoldable pub reconcile :
      BitsoExecutor A W → OrderHandle → String → W → Result Raised (Reconciled A) × W
  reconcile x h symbol w = let (r, w') = x.transport (query h) w in (reconciled_by h symbol r, w')

  unfoldable pub bitso_executor : BitsoExecutor A W → TwoPhaseExecutor A W
  bitso_executor x = record { place_order = place_order x; reconcile = reconcile x }

  -- If placing an order raises an error by which the order manager settles the order as rejected,
  -- then the exchange replied, without success, and with a status that is no rate limit, no timeout
  -- and no server error.
  pub place_order_rejected :
      (x : BitsoExecutor A W) (i : Intent A) (o : String) (w : W) {c : Category} {text : String}
      → ((bitso_executor x).place_order i o w).0 ≡ err (bitso_error c text)
      → definitely_not_landed c ≡ true
      → (p : Params A) × (to_params x i ≡ some p)
        × (let r = (x.transport (orders p o) w).0 in
            (r.success ≡ false) × (r.status ≢ 420) × (r.status ≢ 0) × (r.status < 500))
  unfolding bitso_executor place_order
  place_order_rejected x i o w e final = sent_rejected x o w (to_params x i) e final

  -- Reconciling gives a fill only of trades that the exchange reported for the order's id, of a base
  -- amount above zero: the fill has their total, their volume-weighted price, and the side of the
  -- order.
  pub reconcile_filled :
      (x : BitsoExecutor A W) (h : OrderHandle) (symbol : String) (w : W) {f : Fill A}
      → ((bitso_executor x).reconcile h symbol w).0 ≡ ok (filled f)
      → let r = (x.transport (query h) w).0 in
        (r.success ≡ true)
        × (r.trades ≢ [])
        × (le (total_base r.trades) (whole 0) ≡ false)
        × (f ≡ fill_of h symbol r.trades)
  unfolding bitso_executor reconcile
  reconcile_filled x h symbol w e = reconciled_by_filled h symbol (x.transport (query h) w).0 e
