-- ===== src/Hyperliquid/Direct.antt =====
-- treasuryforge/exchanges/hyperliquid/executor.py: `place_order` of the direct executor, without a
-- client order id. The SDK's exchange is a parameter over a state of its own.
use treasuryforge.Base.{
  ℕ, ◌≡◌, ◌⊎◌, refl, inl, inr, Bool, true, false, Option, none, some, String, List, [], ◌∷◌,
  Option-cases,
}
use treasuryforge.Base.Float.{Float, ◌*◌ as ◌⊠◌}
use treasuryforge.Base.Dict.{Dict, lookup}
use treasuryforge.Base.Result.{Result, ok, err}
use treasuryforge.Types.{Intent, OrderType}
use treasuryforge.Orders.{Raised, value_error}
use treasuryforge.Hyperliquid.{guard, sized, is_buy_side, or_zero}
use treasuryforge.Hyperliquid.Wire.{Refusal}
use treasuryforge.Hyperliquid.Guarded.{Passes, guard-Passes}

-- A call of the SDK: `market_open`, or `order` with its limit price.
pub data Sending (A : Type 0) : Type 0 where
  market_open : String → Bool → A → A → Sending A
  limit_order : String → Bool → A → Option A → Sending A

-- The first status of the SDK's reply, with the fields that the parser reads.
pub data Raw (A : Type 0) : Type 0 where
  filled_raw : Option ℕ → Option A → Option A → Raw A
  resting_raw : Option ℕ → Raw A
  other_raw : Raw A

pub record HlOrderResult (A : Type 0) : Type 0 where
  pub accepted : Bool
  pub oid : Option ℕ
  pub filled_size : A
  pub avg_price : A

pub record HyperliquidExecutor (A W : Type 0) : Type 0 where
  pub send : Sending A → W → Result Raised (Raw A) × W
  pub all_mids : W → Result Raised (Dict A) × W
  pub max_notional_usd : Option A

pub data PlaceError (A : Type 0) : Type 0 where
  refused : Refusal A → PlaceError A
  raised : Raised → PlaceError A

abbrev pub size_of : {A : Type 0} → Sending A → A
size_of (market_open coin is_buy size slippage) = size
size_of (limit_order coin is_buy size price) = size

abbrev pub or_else : {A : Type 0} → Option A → Option A → Option A
or_else none b = b
or_else (some a) b = some a

module _ {A : Type 0} ⦃F : Float A⦄ where
  abbrev pub not_ok : HlOrderResult A
  not_ok = record { accepted = false; oid = none; filled_size = F.lit 0 0; avg_price = F.lit 0 0 }

  -- `_parse`: a fill that lacks a field is a KeyError, which counts as not placed.
  unfoldable pub parse : Raw A → HlOrderResult A
  parse (filled_raw oid (some size) (some price)) = record {
    accepted = true;
    oid = some (or_zero oid);
    filled_size = size;
    avg_price = price;
  }
  parse (filled_raw oid none price) = not_ok
  parse (filled_raw oid (some size) none) = not_ok
  parse (resting_raw oid) = record {
    accepted = true;
    oid = some (or_zero oid);
    filled_size = F.lit 0 0;
    avg_price = F.lit 0 0;
  }
  parse other_raw = not_ok

  abbrev pub sending : OrderType → Intent A → A → A → Sending A
  sending OrderType.market i size slippage = market_open i.symbol (is_buy_side i.side) size slippage
  sending OrderType.limit i size slippage =
      limit_order i.symbol (is_buy_side i.side) size i.limit_price

module _ {A W : Type 0} ⦃F : Float A⦄ (x : HyperliquidExecutor A W) where
  abbrev pub Out : Type 0
  Out = Result (PlaceError A) (HlOrderResult A) × W

  -- `_price`: a coin without a mid is a KeyError.
  abbrev pub price_of : String → Option A → W → Result Raised A × W
  price_of coin (some p) w = (ok p, w)
  price_of coin none w =
      let (mids, w') = x.all_mids w in
      (
        elim mids [
          | err e ↦ err e
          | ok ms ↦ elim (lookup coin ms) [ none ↦ err value_error | some p ↦ ok p ]
        ],
        w',
      )

  abbrev pub parsed : Result Raised (Raw A) → Result (PlaceError A) (HlOrderResult A)
  parsed (ok raw) = ok (parse raw)
  parsed (err e) = err (raised e)

  abbrev pub unless_refused : Option (Refusal A) → Sending A → W → Out
  unless_refused (some e) s w = (err (refused e), w)
  unless_refused none s w = let (raw, w') = x.send s w in (parsed raw, w')

  abbrev pub at_size : Intent A → A → A → Option A → W → Out
  at_size i slippage px none w = (err (raised value_error), w)
  at_size i slippage px (some size) w =
      unless_refused (guard x.max_notional_usd (size ⊠ px) false)
        (sending i.order_type i size slippage) w

  abbrev pub at_price : Intent A → A → Result Raised A → W → Out
  at_price i slippage (err e) w = (err (raised e), w)
  at_price i slippage (ok px) w = at_size i slippage px (sized i.quote_amount i.base_amount px) w

  -- `place_order`, with the price that the caller may give.
  unfoldable pub place_order : Intent A → Option A → A → W → Out
  place_order i price slippage w =
      let (px, w') = price_of i.symbol (or_else price i.limit_price) w in at_price i slippage px w'

-- The executor, with the orders that it sends, the last one first.
abbrev pub logging :
    {A W : Type 0} → HyperliquidExecutor A W → HyperliquidExecutor A (W × List (Sending A))
logging x = record {
  send = λ s v. let (raw, w) = x.send s v.0 in (raw, (w, s ∷ v.1));
  all_mids = λ v. let (mids, w) = x.all_mids v.0 in (mids, (w, v.1));
  max_notional_usd = x.max_notional_usd;
}

abbrev pub is_err : {E A : Type 0} → Result E A → Bool
is_err (ok a) = false
is_err (err e) = true

module _ {A W : Type 0} ⦃F : Float A⦄ (x : HyperliquidExecutor A W) where
  -- Nothing was sent and the call raised; or one order was, whose notional at `px` has passed.
  abbrev Sends : Result Raised A → Out (logging x) → Type 0
  Sends price (r, v) =
      ((v.1 ≡ []) × (is_err r ≡ true))
      ⊎ ((s : Sending A) × (px : A) × (v.1 ≡ s ∷ [])
          × (price ≡ ok px)
          × Passes x.max_notional_usd false (size_of s ⊠ px))

  size_of-sending :
      (t : OrderType) (i : Intent A) (size slippage : A)
      → size_of (sending t i size slippage) ≡ size
  size_of-sending OrderType.market i size slippage = refl
  size_of-sending OrderType.limit i size slippage = refl

  at_price-Sends :
      (i : Intent A) (slippage : A) (price : Result Raised A) (w : W)
      → Sends price (at_price (logging x) i slippage price (w, []))
  at_price-Sends i slippage (err e) w = inl (refl, refl)
  at_price-Sends i slippage (ok px) w =
      elim (Option-cases (sized i.quote_amount i.base_amount px)) [
        | inl undivided ↦ rw undivided (inl (refl, refl))
        | inr (size, e) ↦ rw e (elim (Option-cases (guard x.max_notional_usd (size ⊠ px) false)) [
          | inr (refusal, stopped) ↦ rw stopped (inl (refl, refl))
          | inl clear ↦
              let s = sending i.order_type i size slippage in
              rw clear (
                inr (
                  s,
                  px,
                  refl,
                  refl,
                  rw (size_of-sending i.order_type i size slippage)
                      (guard-Passes x.max_notional_usd (size ⊠ px) false clear),
                ))
        ])
      ]

  -- A direct placing at Hyperliquid sends at most one order: either none goes out and the call raises,
  -- or one does, whose notional at the price given, the limit price or the mid is within the cap and
  -- not below the minimum.
  pub place_order-Sends :
      (i : Intent A) (price : Option A) (slippage : A) (w : W)
      → Sends
          (price_of x i.symbol (or_else price i.limit_price) w).0
          (place_order (logging x) i price slippage (w, []))
  unfolding place_order
  place_order-Sends i price slippage w = go (or_else price i.limit_price)
    where
      go :
          (o : Option A)
          → Sends (price_of x i.symbol o w).0 (
              at_price
                (logging x)
                i
                slippage
                (price_of (logging x) i.symbol o (w, [])).0
                (price_of (logging x) i.symbol o (w, [])).1)
      go (some p) = at_price-Sends i slippage (ok p) w
      go none = at_price-Sends i slippage (price_of x i.symbol none w).0 (x.all_mids w).1
