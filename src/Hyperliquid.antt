-- ===== src/Hyperliquid.antt =====
-- treasuryforge/exchanges/hyperliquid/: the wire format, the guarded preview and the two phases of an
-- order. The SDK's exchange, the information endpoint, the digest of SHA-256 and Python's formats are
-- parameters; the decimal texts of numbers are the numbers.
pub mod Wire
pub mod Guarded
pub mod Direct
use treasuryforge.Base.{
  ℕ, zero, suc, ◌+◌, ◌-◌, ◌*◌, ◌≤◌, ◌<◌, ◌≡◌, ◌≢◌, refl, sym, subst, ap, ◌∙◌, ◌↔◌, ◌⊎◌, inl, inr,
  Bool, true, false, not, ◌&&◌, ◌||◌, Option, none, some, List, [], ◌∷◌, ◌++◌, map, String, str_eq,
  eq_iff, eq_refl, arith, if◌then◌else◌, ltb, leb, ◌==◌, Bool-cases, Option-cases, is_some, length,
  length-append, all, any, keep, All, All-append, contains, take,
}
use Prim.Native.String.{◌++◌ as ◌⊕◌}
use mathlib.Core.Option
use treasuryforge.Base.Float.{
  Float, ◌+◌ as ◌⊞◌, ◌-◌ as ◌⊟◌, ◌*◌ as ◌⊠◌, ◌/◌ as ◌⊘◌, le, lt, whole, sum,
}
use treasuryforge.Base.Dict.{Dict, lookup}
use treasuryforge.Base.Result.{Result, ok, err}
use treasuryforge.Types.{Intent, Fill, Side, OrderType}
use treasuryforge.Bitso.Errors.{Category}
use treasuryforge.Hyperliquid.Wire.{
  Rounding, Refusal, over_cap, below_minimum, cap_below_minimum, not_listed, unknown_tif,
  price_not_positive, rounds_to_zero, lossy, OrderAction, tifs, float_to_wire, rounded_to,
  round_price, both_wired, wired, build_order_action,
}
use treasuryforge.Orders.{
  OrderHandle, Raised, bitso_error, value_error, Reconciled, filled, unfilled, TwoPhaseExecutor,
}

pub record Asset : Type 0 where
  pub name : String
  pub sz_decimals : ℕ

pub record DryRunPreview (A : Type 0) : Type 0 where
  pub refusal : Option (Refusal A)
  pub coin : String
  pub is_buy : Bool
  pub size : A
  pub price : A
  pub notional : A
  pub action : Option (OrderAction A)

-- The arguments of the SDK's `Exchange.order`.
pub record SdkOrder (A : Type 0) : Type 0 where
  pub coin : String
  pub is_buy : Bool
  pub size : A
  pub price : A
  pub tif : String
  pub reduce_only : Bool
  pub cloid : String

-- The first status of a reply, with the id of an order; or a reply without one.
pub data Status : Type 0 where
  malformed error : String → Status
  filled_at resting_at : Option String → Status
  other : Status

-- What a call of the SDK raises.
pub data SendError : Type 0 where
  own : Category → String → SendError
  foreign : String → SendError

pub record UserFill (A : Type 0) : Type 0 where
  pub cloid : Option String
  pub size : A
  pub price : A
  pub fee : Option A
  pub time : Option ℕ

-- `HlTwoPhaseExecutor` with its exchange and its `HyperliquidInfo`, whose reads may raise.
pub record HlTwoPhaseExecutor (A W : Type 0) : Type 0 where
  pub order : SdkOrder A → W → Result SendError Status × W
  pub all_mids : W → Result Raised (Dict A) × W
  pub meta : W → Result Raised (List Asset) × W
  pub user_fills : W → Result Raised (List (UserFill A)) × W
  pub rounding : Rounding A
  pub sha256 : String → String
  -- `s[:n]`, `str.lower`, and `in` with the text looked for first
  pub first : ℕ → String → String
  pub lower : String → String
  pub in_text : String → String → Bool
  pub explain : Refusal A → String
  pub max_notional_usd : Option A
  pub slippage : A
  pub reduce_only : Bool

abbrev pub index_of : String → List Asset → Option (ℕ × ℕ)
index_of coin [] = none
index_of coin (a ∷ rest) =
    if str_eq a.name coin
    then some (0, a.sz_decimals)
    else Option.map (λ (n, d). (suc n, d)) (index_of coin rest)

module _ {A : Type 0} ⦃F : Float A⦄ where
  abbrev pub minimum : A
  minimum = whole 10

  abbrev pub exceeds : Option A → A → Bool
  exceeds none n = false
  exceeds (some cap) n = lt (cap ⊞ F.lit 1 9) n

  abbrev pub too_low : Option A → Bool
  too_low none = false
  too_low (some cap) = lt cap minimum

  -- `_guard`: none is an order that passes.
  unfoldable pub guard : Option A → A → Bool → Option (Refusal A)
  guard cap n reduce_only =
      if exceeds cap n
      then some (over_cap n (elim cap [ none ↦ n | some c ↦ c ]))
      else if reduce_only
      then none
      else if lt n (minimum ⊟ F.lit 1 9)
      then some (below_minimum n)
      else if too_low cap
      then some (cap_below_minimum (elim cap [ none ↦ n | some c ↦ c ]))
      else none

  -- The price and the time in force: a limit order's own, else a crossing one.
  abbrev pub priced : OrderType → Option A → Bool → A → A → A × String
  priced OrderType.limit (some p) is_buy mid slip = (p, "Gtc")
  priced _ _ is_buy mid slip = (mid ⊠ (if is_buy then whole 1 ⊞ slip else whole 1 ⊟ slip), "Ioc")

  -- The size, or `none` for the ZeroDivisionError.
  abbrev pub sized : Option A → A → A → Option A
  sized none base mid = some base
  sized (some q) base mid = if le mid (whole 0) && le (whole 0) mid then none else some (q ⊘ mid)

abbrev pub or_empty : Option String → String
or_empty none = ""
or_empty (some s) = s

abbrev pub or_zero : Option ℕ → ℕ
or_zero none = 0
or_zero (some n) = n

abbrev pub later : ℕ → ℕ → ℕ
later a b = if ltb a b then b else a

abbrev pub or_nothing : {A : Type 0} → ⦃F : Float A⦄ → Option A → A
or_nothing none = whole 0
or_nothing (some a) = a

abbrev pub nonempty : Option String → Option String
nonempty none = none
nonempty (some s) = if str_eq s "" then none else some s

abbrev pub is_buy_side : Side → Bool
is_buy_side Side.buy = true
is_buy_side Side.sell = false

module _ {A W : Type 0} ⦃F : Float A⦄ (x : HlTwoPhaseExecutor A W) where
  -- `_price` of a coin where no limit price stands in: a coin without a mid is a KeyError.
  abbrev pub mid_of : String → Option A → W → Result Raised A × W
  mid_of coin (some p) w = (ok p, w)
  mid_of coin none w =
      let (mids, w') = x.all_mids w in
      (
        elim mids [
          | err e ↦ err e
          | ok ms ↦ elim (lookup coin ms) [ none ↦ err value_error | some p ↦ ok p ]
        ],
        w',
      )

  abbrev pub refused : Refusal A → DryRunPreview A → DryRunPreview A
  refused e d = record d { refusal = some e }

  abbrev pub with_action : DryRunPreview A → Result (Refusal A) (OrderAction A) → DryRunPreview A
  with_action d (err e) = refused e d
  with_action d (ok a) = record d { action = some a }

  abbrev pub unrounded : String → DryRunPreview A → ℕ → OrderAction A
  unrounded tif d n = record {
    asset_index = n;
    is_buy = d.is_buy;
    price = d.price;
    size = d.size;
    reduce_only = x.reduce_only;
    tif = tif;
  }

  abbrev pub listed_as : String → DryRunPreview A → Option (ℕ × ℕ) → DryRunPreview A
  listed_as tif d none = refused (not_listed d.coin) d
  listed_as tif d (some (n, decimals)) =
      with_action d (build_order_action x.rounding (unrounded tif d n) decimals true)

  -- The end of `preview_order`, once the universe is known.
  abbrev pub built :
      String → DryRunPreview A → Result Raised (List Asset) → Result Raised (DryRunPreview A)
  built tif d (err e) = err e
  built tif d (ok universe) = ok (listed_as tif d (index_of d.coin universe))

  abbrev pub after_guard :
      String → DryRunPreview A → W → Option (Refusal A) → Result Raised (DryRunPreview A) × W
  after_guard tif d w (some e) = (ok (refused e d), w)
  after_guard tif d w none = let (universe, w') = x.meta w in (built tif d universe, w')

  -- From the guard on.
  unfoldable pub guarded : String → DryRunPreview A → W → Result Raised (DryRunPreview A) × W
  guarded tif d w = after_guard tif d w (guard x.max_notional_usd d.notional x.reduce_only)

  abbrev pub sized_preview : Intent A → A → Option A → W → Result Raised (DryRunPreview A) × W
  sized_preview i mid none w = (err value_error, w)
  sized_preview i mid (some size) w =
      let is_buy = is_buy_side i.side in
      let (price, tif) = priced i.order_type i.limit_price is_buy mid x.slippage in
      let d : DryRunPreview A = record {
        refusal = none;
        coin = i.symbol;
        is_buy = is_buy;
        size = size;
        price = price;
        notional = size ⊠ mid;
        action = none;
      } in
      guarded tif d w

  abbrev pub after_mid : Intent A → Result Raised A → W → Result Raised (DryRunPreview A) × W
  after_mid i (err e) w = (err e, w)
  after_mid i (ok m) w = sized_preview i m (sized i.quote_amount i.base_amount m) w

  unfoldable pub preview_order : Intent A → W → Result Raised (DryRunPreview A) × W
  preview_order i w = let (mid, w') = mid_of i.symbol i.limit_price w in after_mid i mid w'

  abbrev pub is_fatal : String → Bool
  is_fatal text =
      x.in_text "not registered" (x.lower text)
      || x.in_text "does not exist" (x.lower text)
      || x.in_text "signature" (x.lower text)

  -- `_handle`
  unfoldable pub handled : Status → Intent A → String → String → Result Raised OrderHandle
  handled (malformed text) i o coin = err (bitso_error Category.indeterminate text)
  handled (error text) i o coin =
      err (bitso_error (if is_fatal text then Category.fatal_auth else Category.non_retryable) text)
  handled (filled_at oid) i o coin =
      ok (record { origin_id = o; oid = nonempty oid; book = coin; side = i.side })
  handled (resting_at oid) i o coin =
      ok (record { origin_id = o; oid = nonempty oid; book = coin; side = i.side })
  handled other i o coin = ok (record { origin_id = o; oid = none; book = coin; side = i.side })

  -- `_send` with the exceptions that `place_order` makes of its own.
  abbrev pub answered :
      Result SendError Status → Intent A → String → String → Result Raised OrderHandle
  answered (err (own c text)) i o coin = err (bitso_error c text)
  answered (err (foreign text)) i o coin = err (bitso_error Category.indeterminate text)
  answered (ok st) i o coin = handled st i o coin

  -- `origin_to_cloid`: the first 32 digits of the digest.
  unfoldable pub origin_to_cloid : String → String
  origin_to_cloid o = "0x" ⊕ x.first 32 (x.sha256 o)

  abbrev pub sdk_order : DryRunPreview A → OrderAction A → String → SdkOrder A
  sdk_order d a o = record {
    coin = d.coin;
    is_buy = d.is_buy;
    size = a.size;
    price = a.price;
    tif = a.tif;
    reduce_only = a.reduce_only;
    cloid = origin_to_cloid o;
  }

  abbrev pub reason_of : Option (Refusal A) → String
  reason_of none = "payload built + validated -- NOT signed, NOT sent"
  reason_of (some e) = x.explain e

  abbrev pub sent_action :
      Intent A
      → String
      → DryRunPreview A
      → Option (OrderAction A)
      → W
      → Result Raised OrderHandle × W
  sent_action i o d none w = (err (bitso_error Category.non_retryable (reason_of d.refusal)), w)
  sent_action i o d (some a) w =
      let (raw, w') = x.order (sdk_order d a o) w in (answered raw i o d.coin, w')

  abbrev pub after_preview :
      Intent A → String → Result Raised (DryRunPreview A) → W → Result Raised OrderHandle × W
  after_preview i o (err e) w = (err e, w)
  after_preview i o (ok d) w = sent_action i o d d.action w

  unfoldable pub place_order : Intent A → String → W → Result Raised OrderHandle × W
  place_order i o w = let (p, w') = preview_order i w in after_preview i o p w'

  abbrev pub with_cloid : String → List (UserFill A) → List (UserFill A)
  with_cloid c fills = keep (λ f. str_eq (x.lower (or_empty f.cloid)) (x.lower c)) fills

  abbrev pub last_time : List (UserFill A) → ℕ
  last_time [] = 0
  last_time (f ∷ fs) = later (or_zero f.time) (last_time fs)

  -- `_aggregate`
  unfoldable pub aggregate : List (UserFill A) → String → Side → Fill A
  aggregate fills symbol side =
      let sz = sum (map (λ f. f.size) fills) in
      let notional = sum (map (λ f. f.size ⊠ f.price) fills) in
      record {
        symbol = symbol;
        side = side;
        base_amount = sz;
        price = if lt (whole 0) sz then notional ⊘ sz else whole 0;
        fee = sum (map (λ f. or_nothing f.fee) fills);
        ts = last_time fills;
        fee_currency = "quote";
      }

  abbrev pub reconciled_by : OrderHandle → String → List (UserFill A) → Reconciled A
  reconciled_by h symbol [] = unfilled
  reconciled_by h symbol (f ∷ fs) =
      filled (aggregate (f ∷ fs) (if str_eq symbol "" then h.book else symbol) h.side)

  unfoldable pub reconcile : OrderHandle → String → W → Result Raised (Reconciled A) × W
  reconcile h symbol w =
      let (fills, w') = x.user_fills w in
      (
        elim fills [
          | err e ↦ err e
          | ok fs ↦ ok (reconciled_by h symbol (with_cloid (origin_to_cloid h.origin_id) fs))
        ],
        w',
      )

  -- The executor that the order manager takes.
  abbrev pub hl_executor : TwoPhaseExecutor A W
  hl_executor = record { place_order = place_order; reconcile = reconcile }
