-- ===== src/Bitso/Mock/Refusals.antt =====
-- What a refusal of the emulated exchange of treasuryforge/exchanges/bitso/mock.py leaves behind.
use treasuryforge.Base.{
  suc, ◌≡◌, refl, inl, inr, true, false, Option, none, some, String, ltb, Bool-cases, is_some,
}
use treasuryforge.Base.Float.{Float, ◌-◌ as ◌⊟◌, lt, whole}
use treasuryforge.Base.Dict.{Dict, lookup, get_or}
use treasuryforge.Base.Result.{err}
use treasuryforge.Types.{Intent, Side, OrderType}
use treasuryforge.Orders.{Raised}
use treasuryforge.Bitso.Executor.{Params, Request, bitso_executor, place_order, to_params, sent}
use treasuryforge.Bitso.Client.{Response, trading}
use treasuryforge.Bitso.Mock.{
  MockBitsoApi, after_underscore, before_underscore, minimum_value, logged, market_amounts,
  market_order, match_side, by_type, place, call_mock, mock_client, mock_executor,
}

module _ {A : Type 0} where
  -- The same money, orders and trades.
  pub record Untouched (m m' : MockBitsoApi A) : Type 0 where
    pub balances : m'.balances ≡ m.balances
    pub orders : m'.orders ≡ m.orders
    pub trades : m'.trades ≡ m.trades
    pub tid : m'.tid ≡ m.tid

  untouched : (m : MockBitsoApi A) → Untouched m m
  untouched m = record { balances = refl; orders = refl; trades = refl; tid = refl }

module _ {A : Type 0} ⦃F : Float A⦄ where
  abbrev Clean : MockBitsoApi A → Response A × MockBitsoApi A → Type 0
  Clean m p = p.0.success ≡ false → Untouched m p.1

  match_side-Clean :
      (side : Side) (id book : String) (base quote price : A) (oid : String) (m : MockBitsoApi A)
      → Clean m (match_side side id book base quote price oid m)
  unfolding match_side
  match_side-Clean Side.buy id book base quote price oid m =
      elim (Bool-cases
        (lt (get_or (after_underscore book) (whole 0) m.balances) (quote ⊟ F.lit 1 9))) [
          | inl short ↦ rw short (λ _. untouched m)
          | inr funded ↦ rw funded (λ e. cc)
        ]
  match_side-Clean Side.sell id book base quote price oid m =
      elim (Bool-cases
        (lt (get_or (before_underscore book) (whole 0) m.balances) (base ⊟ F.lit 1 9))) [
          | inl short ↦ rw short (λ _. untouched m)
          | inr funded ↦ rw funded (λ e. cc)
        ]

  market_order-Clean :
      (p : Params A) (id : String) (price : A) (oid : String) (amounts : Option (A × A))
      (m : MockBitsoApi A)
      → Clean m (market_order p id price oid amounts m)
  market_order-Clean p id price oid none m = λ _. untouched m
  market_order-Clean p id price oid (some (base, quote)) m =
      elim (Bool-cases (lt quote minimum_value)) [
        | inl small ↦ rw small (λ _. untouched m)
        | inr enough ↦ rw enough (match_side-Clean p.side id p.book base quote price oid m)
      ]

  by_type-Clean :
      (t : OrderType) (p : Params A) (id : String) (price : A) (oid : String) (m : MockBitsoApi A)
      → Clean m (by_type t p id price oid m)
  by_type-Clean OrderType.market p id price oid m =
      market_order-Clean p id price oid (market_amounts p price) m
  by_type-Clean OrderType.limit p id price oid m = λ e. cc

  -- A state with the same balances, orders, trades and count of trades serves as the old one.
  from_same : (m m' m'' : MockBitsoApi A) → Untouched m m' → Untouched m' m'' → Untouched m m''
  from_same m m' m'' h k = record {
    balances = cc (h.balances, k.balances);
    orders = cc (h.orders, k.orders);
    trades = cc (h.trades, k.trades);
    tid = cc (h.tid, k.tid);
  }

  place-Clean : (p : Params A) (id : String) (m : MockBitsoApi A) → Clean m (place p id m)
  unfolding place
  place-Clean p id m = elim (Bool-cases (is_some (lookup p.book m.books))) [
    | inl known ↦ rw known (λ e.
        from_same m (record m { oid = suc m.oid }) _
          (record { balances = refl; orders = refl; trades = refl; tid = refl })
          (by_type-Clean p.order_type p id (get_or p.book (whole 0) m.prices) (m.oid_text m.oid)
            (record m { oid = suc m.oid }) e))
    | inr unknown ↦ rw unknown (λ _. untouched m)
  ]

  call-Clean :
      (p : Params A) (id : String) (m : MockBitsoApi A)
      → Clean m (call_mock (trading (Request.orders p id)) true m)
  unfolding call_mock
  call-Clean p id m = elim (Bool-cases (ltb 0 m.rate_limits)) [
    | inl limited ↦
        rw limited (λ _. record { balances = refl; orders = refl; trades = refl; tid = refl })
    | inr free ↦ rw free (λ e.
        from_same m (logged (trading (Request.orders p id)) m) _
          (record { balances = refl; orders = refl; trades = refl; tid = refl })
          (place-Clean p id (logged (trading (Request.orders p id)) m) e))
  ]

  module _ (book_map : Dict String) (lower : String → String) where
    sent-Untouched :
        (q : Option (Params A)) (id : String) (m : MockBitsoApi A) {e : Raised}
        → (sent (mock_executor book_map lower) id m q).0 ≡ err e
        → Untouched m (sent (mock_executor book_map lower) id m q).1
    unfolding mock_executor mock_client
    sent-Untouched none id m h = untouched m
    sent-Untouched (some p) id m {e} h =
        let r = call_mock (trading (Request.orders p id)) true m in
        elim (Bool-cases r.0.success) [
          | inl accepted ↦ absurd (cc (rw accepted at h))
          | inr refused ↦ call-Clean p id m refused
        ]

    -- When placing an order at the emulated exchange raises, for whatever reason, the balances, the
    -- orders, the trades and the number of trades are what they were.
    pub place_order-Untouched :
        (i : Intent A) (id : String) (m : MockBitsoApi A) {e : Raised}
        → ((bitso_executor (mock_executor book_map lower)).place_order i id m).0 ≡ err e
        → Untouched m ((bitso_executor (mock_executor book_map lower)).place_order i id m).1
    unfolding bitso_executor place_order
    place_order-Untouched i id m h =
        sent-Untouched (to_params (mock_executor book_map lower) i) id m h
