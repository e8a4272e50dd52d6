-- ===== src/Hyperliquid/Guarded.antt =====
-- What reaches the exchange through treasuryforge/exchanges/hyperliquid/live_executor.py.
use treasuryforge.Base.{
  ℕ, ◌≡◌, refl, sym, ap, ◌∙◌, ◌⊎◌, inl, inr, Bool, true, false, Option, none, some, List, String,
  arith, contains,
}
use treasuryforge.Base.Float.{Float, ◌-◌ as ◌⊟◌, ◌*◌ as ◌⊠◌, lt}
use Prim.Native.String.{◌++◌ as ◌⊕◌}
use treasuryforge.Base.Result.{Result, ok, err}
use treasuryforge.Types.{Intent, Side}
use treasuryforge.Bitso.Errors.{Category, definitely_not_landed}
use treasuryforge.Orders.{OrderHandle, Raised, bitso_error}
use treasuryforge.Hyperliquid.{
  with_action, unrounded, listed_as, after_guard, after_mid, after_preview, Asset, DryRunPreview,
  SdkOrder, Status, malformed, error, filled_at, resting_at, other, SendError, own, foreign,
  HlTwoPhaseExecutor, index_of, exceeds, minimum, guard, sized, mid_of, refused, built, guarded,
  sized_preview, preview_order, handled, answered, sdk_order, priced, is_buy_side, origin_to_cloid,
  sent_action, place_order,
}
use treasuryforge.Hyperliquid.Wire.{
  Refusal, OrderAction, build_order_action, float_to_wire, round_price, tifs,
}

-- The venue after reads of the information endpoint alone.
pub data Reads {A W : Type 0} (x : HlTwoPhaseExecutor A W) (w : W) : W → Type 0 where
  unread : Reads x w w
  mids_read : {v : W} → Reads x w v → Reads x w (x.all_mids v).1
  meta_read : {v : W} → Reads x w v → Reads x w (x.meta v).1

module _ {A : Type 0} ⦃F : Float A⦄ where
  -- What the guard lets through.
  pub record Passes (cap : Option A) (reduce_only : Bool) (n : A) : Type 0 where
    pub within_cap : exceeds cap n ≡ false
    pub above_minimum : reduce_only ≡ false → lt n (minimum ⊟ F.lit 1 9) ≡ false

  pub guard-Passes :
      (cap : Option A) (n : A) (reduce_only : Bool)
      → guard cap n reduce_only ≡ none
      → Passes cap reduce_only n
  unfolding guard
  guard-Passes cap n reduce_only h = record {
    within_cap = ground arith;
    above_minimum = λ r. ground arith;
  }

module _ {A W : Type 0} ⦃F : Float A⦄ (x : HlTwoPhaseExecutor A W) where
  -- What a preview takes from its intent at a price: the size, the side, the notional, and the price
  -- and the time in force of the order.
  abbrev pub Origin : Intent A → A → String → DryRunPreview A → Type 0
  Origin i mid tif d =
      (sized i.quote_amount i.base_amount mid ≡ some d.size)
      × (d.is_buy ≡ is_buy_side i.side)
      × (d.notional ≡ d.size ⊠ mid)
      × ((d.price, tif) ≡ priced i.order_type i.limit_price d.is_buy mid x.slippage)

  -- A preview with an action, of an intent at the venue `w`: it is of the intent at the limit price or
  -- the mid, it has passed the guard, and its action is the wire's form of its size and price with the
  -- executor's reduce-only flag.
  pub record Cleared (i : Intent A) (w : W) (d : DryRunPreview A) (a : OrderAction A) : Type 0 where
    pub mid : A
    pub tif : String
    pub read : (mid_of x i.symbol i.limit_price w).0 ≡ ok mid
    pub origin : Origin i mid tif d
    pub passed : Passes x.max_notional_usd x.reduce_only d.notional
    pub index : ℕ
    pub decimals : ℕ
    pub wired :
        build_order_action x.rounding
          (record {
            asset_index = index;
            is_buy = d.is_buy;
            price = d.price;
            size = d.size;
            reduce_only = x.reduce_only;
            tif = tif;
          })
          decimals
          true
        ≡ ok a
    pub flag : a.reduce_only ≡ x.reduce_only
    pub listed : contains a.tif tifs ≡ true

  build_order_action-flag :
      (o a : OrderAction A) (d : ℕ) (perp : Bool)
      → build_order_action x.rounding o d perp ≡ ok a
      → (a.reduce_only ≡ o.reduce_only) × (a.tif ≡ o.tif) × (contains o.tif tifs ≡ true)
  unfolding build_order_action round_price float_to_wire
  build_order_action-flag o a d perp h = ground arith

  -- What a preview that began at `w` gives: an exception or a refusal after reads alone, or a payload
  -- that is cleared.
  abbrev Previewed : Intent A → W → Result Raised (DryRunPreview A) → W → Type 0
  Previewed i w (err e) v = Reads x w v
  Previewed i w (ok d) v =
      Reads x w v
      × (d.coin ≡ i.symbol)
      × ((a : OrderAction A) → d.action ≡ some a → Cleared i w d a)

  refused-Cleared :
      (i : Intent A) (w : W) (e : Refusal A) (d : DryRunPreview A)
      → d.action ≡ none
      → (a : OrderAction A) → (refused x e d).action ≡ some a
      → Cleared i w (refused x e d) a
  refused-Cleared i w e d start a h = absurd (none_some (sym start ∙ h))
    where
      none_some : {B : Type 0} {b : B} → none ≡ some b → ⊥
      none_some k = cc

  module _ (i : Intent A) (w : W) (mid : A) (tif : String)
      (read : (mid_of x i.symbol i.limit_price w).0 ≡ ok mid) where
    with_action-Cleared :
        (d : DryRunPreview A) (n decimals : ℕ) (r : Result (Refusal A) (OrderAction A))
        → Origin i mid tif d
        → Passes x.max_notional_usd x.reduce_only d.notional
        → d.action ≡ none
        → build_order_action x.rounding (unrounded x tif d n) decimals true ≡ r
        → (a : OrderAction A) → (with_action x d r).action ≡ some a
        → Cleared i w (with_action x d r) a
    with_action-Cleared d n decimals (err e) o p start b a h = refused-Cleared i w e d start a h
    with_action-Cleared d n decimals (ok c) o p start b a h =
        let (flag, same_tif, listed) =
          build_order_action-flag (unrounded x tif d n) c decimals true b in
        let same : c ≡ a = cc in
        record {
          mid = mid;
          tif = tif;
          read = read;
          origin = o;
          passed = p;
          index = n;
          decimals = decimals;
          wired = b ∙ ap (λ z. ok z) same;
          flag = cc;
          listed = ground arith;
        }

    listed_as-Cleared :
        (d : DryRunPreview A) (at : Option (ℕ × ℕ))
        → Origin i mid tif d
        → Passes x.max_notional_usd x.reduce_only d.notional
        → d.action ≡ none
        → (a : OrderAction A) → (listed_as x tif d at).action ≡ some a
        → Cleared i w (listed_as x tif d at) a
    listed_as-Cleared d none o p start = refused-Cleared i w _ d start
    listed_as-Cleared d (some (n, decimals)) o p start =
        with_action-Cleared d n decimals _ o p start refl

  listed_as-coin :
      (tif : String) (d : DryRunPreview A) (at : Option (ℕ × ℕ))
      → (listed_as x tif d at).coin ≡ d.coin
  listed_as-coin tif d none = refl
  listed_as-coin tif d (some (n, decimals)) =
      go (build_order_action x.rounding (unrounded x tif d n) decimals true)
    where
      go : (r : Result (Refusal A) (OrderAction A)) → (with_action x d r).coin ≡ d.coin
      go (ok a) = refl
      go (err e) = refl

  module _ (i : Intent A) (w : W) (mid : A) (tif : String)
      (read : (mid_of x i.symbol i.limit_price w).0 ≡ ok mid) where
    built-Previewed :
        (v : W) (d : DryRunPreview A) (u : Result Raised (List Asset))
        → d.coin ≡ i.symbol
        → d.action ≡ none
        → Origin i mid tif d
        → Passes x.max_notional_usd x.reduce_only d.notional
        → Reads x w v
        → Previewed i w (built x tif d u) v
    built-Previewed v d (err e) coin start o p r = r
    built-Previewed v d (ok universe) coin start o p r = (
      r,
      listed_as-coin tif d (index_of d.coin universe) ∙ coin,
      listed_as-Cleared i w mid tif read d (index_of d.coin universe) o p start,
    )

    after_guard-Previewed :
        (v : W) (d : DryRunPreview A) (g : Option (Refusal A))
        → d.coin ≡ i.symbol
        → d.action ≡ none
        → Origin i mid tif d
        → guard x.max_notional_usd d.notional x.reduce_only ≡ g
        → Reads x w v
        → let (p, v') = after_guard x tif d v g in Previewed i w p v'
    after_guard-Previewed v d (some e) coin start o g r = (r, coin, refused-Cleared i w e d start)
    after_guard-Previewed v d none coin start o g r =
        built-Previewed (x.meta v).1 d (x.meta v).0 coin start o
          (guard-Passes x.max_notional_usd d.notional x.reduce_only g) (meta_read r)

  after_mid-Previewed :
      (i : Intent A) (w v : W) (m : Result Raised A)
      → (mid_of x i.symbol i.limit_price w).0 ≡ m
      → Reads x w v
      → let (p, v') = after_mid x i m v in Previewed i w p v'
  unfolding guarded
  after_mid-Previewed i w v (err e) read r = r
  after_mid-Previewed i w v (ok m) read r = go (sized i.quote_amount i.base_amount m) refl
    where
      go :
          (size : Option A)
          → sized i.quote_amount i.base_amount m ≡ size
          → let (p, v') = sized_preview x i m size v in Previewed i w p v'
      go none e = r
      go (some size) e =
          after_guard-Previewed i w m
            (priced i.order_type i.limit_price (is_buy_side i.side) m x.slippage).1 read v _ _ refl
            refl (e, refl, refl, refl) refl r

  mid_of-Reads : (coin : String) (o : Option A) (w : W) → Reads x w (mid_of x coin o w).1
  mid_of-Reads coin none w = mids_read unread
  mid_of-Reads coin (some p) w = unread

  preview_order-Previewed :
      (i : Intent A) (w : W) → let (p, v) = preview_order x i w in Previewed i w p v
  unfolding preview_order
  preview_order-Previewed i w =
      after_mid-Previewed i w _ (mid_of x i.symbol i.limit_price w).0 refl
        (mid_of-Reads i.symbol i.limit_price w)

  -- No order went out: an exception, or the refusal of the guard, after reads alone.
  abbrev pub NotSent : W → Result Raised OrderHandle → W → Type 0
  NotSent w r v = ((e : Raised) × (r ≡ err e)) × Reads x w v

  -- One order went out, at the venue as reads left it: it was cleared, is for the intent's coin and
  -- side in the wire's size and price, carries the client id of the origin, and what its call returned
  -- or raised is what is answered.
  pub record IsSent (i : Intent A) (o : String) (w : W) (r : Result Raised OrderHandle) (v : W)
      : Type 0 where
    pub preview : DryRunPreview A
    pub action : OrderAction A
    pub before : W
    pub reads : Reads x w before
    pub cleared : Cleared i w preview action
    pub sent : SdkOrder A
    pub coin : sent.coin ≡ i.symbol
    pub side :
        ((i.side ≡ Side.buy) × (sent.is_buy ≡ true))
        ⊎ ((i.side ≡ Side.sell) × (sent.is_buy ≡ false))
    pub amounts : (sent.size ≡ action.size) × (sent.price ≡ action.price)
    pub flags : (sent.tif ≡ action.tif) × (sent.reduce_only ≡ x.reduce_only)
    pub client_id : sent.cloid ≡ "0x" ⊕ x.first 32 (x.sha256 o)
    pub answer : r ≡ answered x (x.order sent before).0 i o i.symbol
    pub after : v ≡ (x.order sent before).1

  side_of :
      (s : Side)
      → ((s ≡ Side.buy) × (is_buy_side s ≡ true)) ⊎ ((s ≡ Side.sell) × (is_buy_side s ≡ false))
  side_of Side.buy = inl (refl, refl)
  side_of Side.sell = inr (refl, refl)

  after_preview-IsSent :
      (i : Intent A) (o : String) (w v : W) (p : Result Raised (DryRunPreview A))
      → Previewed i w p v
      → let (r, v') = after_preview x i o p v in NotSent w r v' ⊎ IsSent i o w r v'
  unfolding origin_to_cloid
  after_preview-IsSent i o w v (err e) r = inl ((e, refl), r)
  after_preview-IsSent i o w v (ok d) (r, coin, cleared) = go d.action cleared
    where
      go :
          (m : Option (OrderAction A))
          → ((a : OrderAction A) → m ≡ some a → Cleared i w d a)
          → let (r, v') = sent_action x i o d m v in NotSent w r v' ⊎ IsSent i o w r v'
      go none c = inl ((_, refl), r)
      go (some a) c =
          let cleared = c a refl in
          inr (record {
            preview = d;
            action = a;
            before = v;
            reads = r;
            cleared = cleared;
            sent = sdk_order x d a o;
            coin = coin;
            side = rw (cleared.origin.1) (side_of i.side);
            amounts = (refl, refl);
            flags = (refl, cleared.flag);
            client_id = refl;
            answer = rw coin refl;
            after = refl;
          })

  pub place_order-IsSent :
      (i : Intent A) (o : String) (w : W)
      → let (r, v) = place_order x i o w in NotSent w r v ⊎ IsSent i o w r v
  unfolding place_order origin_to_cloid
  place_order-IsSent i o w =
      after_preview-IsSent i o w _ (preview_order x i w).0 (preview_order-Previewed i w)

  answered-rejected :
      (raw : Result SendError Status) (i : Intent A) (o coin : String) {c : Category}
      {text : String}
      → answered x raw i o coin ≡ err (bitso_error c text)
      → definitely_not_landed c ≡ true
      → ((t : String) × (raw ≡ ok (error t))) ⊎ (raw ≡ err (own c text))
  unfolding handled
  answered-rejected (err (own k t)) i o coin e final = inr (cc)
  answered-rejected (err (foreign t)) i o coin e final = ground arith
  answered-rejected (ok (malformed t)) i o coin e final = ground arith
  answered-rejected (ok (error t)) i o coin e final = inl (t, refl)
  answered-rejected (ok (filled_at oid)) i o coin e final = ground arith
  answered-rejected (ok (resting_at oid)) i o coin e final = ground arith
  answered-rejected (ok other) i o coin e final = ground arith

  -- If placing an order at Hyperliquid raises an error by which the order manager settles the order as
  -- rejected, then no order went out, or the exchange answered it with an error, or its SDK raised that
  -- same error.
  pub place_order_refused :
      (i : Intent A) (o : String) (w : W) {c : Category} {text : String}
      → (place_order x i o w).0 ≡ err (bitso_error c text)
      → definitely_not_landed c ≡ true
      → Reads x w (place_order x i o w).1
        ⊎ ((v : W) × (s : SdkOrder A) × (((t : String) × ((x.order s v).0 ≡ ok (error t)))
              ⊎ ((x.order s v).0 ≡ err (own c text))))
  place_order_refused i o w e final = elim (place_order-IsSent i o w) [
    | inl not_sent ↦ inl not_sent.1
    | inr sent ↦
        let s = sent.sent in
        inr (
          sent.before,
          s,
          answered-rejected (x.order s sent.before).0 i o i.symbol (sym sent.answer ∙ e) final,
        )
  ]
