-- ===== src/Bitso/Mock/AtMostOnce.antt =====
-- The order manager of treasuryforge/orders.py over the Bitso executor over the emulated exchange of
-- treasuryforge/exchanges/bitso/mock.py: how many orders of one id the exchange comes to hold.
use treasuryforge.Base.{
  ℕ, suc, ◌≤◌, ◌≡◌, inl, inr, true, false, ◌&&◌, Option, none, some, List, [], ◌∷◌, String, str_eq,
  arith, if◌then◌else◌, ltb, Bool-cases, is_some,
}
use treasuryforge.Base.Float.{Float, ◌-◌ as ◌⊟◌, lt, whole}
use treasuryforge.Base.Dict.{Dict, lookup, get_or, insert}
use treasuryforge.Types.{Side, OrderType}
use treasuryforge.Orders.{TwoPhaseExecutor, Manager}
use treasuryforge.Orders.Attempts.{new_manager}
use treasuryforge.Orders.Accepted.{
  Call, submits, recovers, called, call_all, accepting, accepts, accepted-le-one,
}
use treasuryforge.Orders.VenueInvariant.{Keeps, submit-Keeps, recover-Keeps}
use treasuryforge.Bitso.Executor.{
  Params, Request, bitso_executor, place_order, reconcile, to_params, sent, placed_by,
}
use treasuryforge.Bitso.Client.{Response, trading, as_reply}
use treasuryforge.Bitso.Mock.{
  MockOrder, MockBitsoApi, after_underscore, before_underscore, minimum_value, logged,
  market_amounts, market_order, match_side, by_type, place, call_mock, mock_client, mock_executor,
}

module _ {A : Type 0} where
  -- How many orders the exchange holds under an origin id.
  abbrev pub held_under : String → Dict (MockOrder A) → ℕ
  held_under o [] = 0
  held_under o ((k, x) ∷ rest) =
      let others = held_under o rest in if str_eq x.origin_id o then suc others else others

  held_under-insert :
      (o k : String) (x : MockOrder A) (d : Dict (MockOrder A))
      → held_under o (insert k x d)
        ≤ (if str_eq x.origin_id o then suc (held_under o d) else held_under o d)
  held_under-insert o k x [] = ground arith
  held_under-insert o k x ((j, y) ∷ d) = ground (arith, held_under-insert o k x d)

module _ {A : Type 0} ⦃F : Float A⦄ (o : String) where
  -- An order is added only by a response that succeeds, and then one.
  abbrev OneMore : String → MockBitsoApi A → Response A × MockBitsoApi A → Type 0
  OneMore id m p =
      held_under o p.1.orders
      ≤ (if str_eq id o && p.0.success then suc (held_under o m.orders) else held_under o m.orders)

  written :
      (k : String) (x : MockOrder A) (d : Dict (MockOrder A))
      → held_under o (insert k x d)
        ≤ (if str_eq x.origin_id o && true then suc (held_under o d) else held_under o d)
  written k x d = ground (arith, held_under-insert o k x d)

  nothing_written :
      (id : String) (d : Dict (MockOrder A))
      → held_under o d ≤ (if str_eq id o && false then suc (held_under o d) else held_under o d)
  nothing_written id d = ground arith

  match_side-OneMore :
      (side : Side) (id book : String) (base quote price : A) (oid : String) (m : MockBitsoApi A)
      → OneMore id m (match_side side id book base quote price oid m)
  unfolding match_side
  match_side-OneMore Side.buy id book base quote price oid m =
      elim (Bool-cases
        (lt (get_or (after_underscore book) (whole 0) m.balances) (quote ⊟ F.lit 1 9))) [
          | inl short ↦ rw short (nothing_written id m.orders)
          | inr funded ↦ rw funded (written oid _ m.orders)
        ]
  match_side-OneMore Side.sell id book base quote price oid m =
      elim (Bool-cases
        (lt (get_or (before_underscore book) (whole 0) m.balances) (base ⊟ F.lit 1 9))) [
          | inl short ↦ rw short (nothing_written id m.orders)
          | inr funded ↦ rw funded (written oid _ m.orders)
        ]

  market_order-OneMore :
      (p : Params A) (id : String) (price : A) (oid : String) (amounts : Option (A × A))
      (m : MockBitsoApi A)
      → OneMore id m (market_order p id price oid amounts m)
  market_order-OneMore p id price oid none m = nothing_written id m.orders
  market_order-OneMore p id price oid (some (base, quote)) m =
      elim (Bool-cases (lt quote minimum_value)) [
        | inl small ↦ rw small (nothing_written id m.orders)
        | inr enough ↦ rw enough (match_side-OneMore p.side id p.book base quote price oid m)
      ]

  by_type-OneMore :
      (t : OrderType) (p : Params A) (id : String) (price : A) (oid : String) (m : MockBitsoApi A)
      → OneMore id m (by_type t p id price oid m)
  by_type-OneMore OrderType.market p id price oid m =
      market_order-OneMore p id price oid (market_amounts p price) m
  by_type-OneMore OrderType.limit p id price oid m = written oid _ m.orders

  place-OneMore : (p : Params A) (id : String) (m : MockBitsoApi A) → OneMore id m (place p id m)
  unfolding place
  place-OneMore p id m = elim (Bool-cases (is_some (lookup p.book m.books))) [
    | inl known ↦ rw known (
        by_type-OneMore p.order_type p id (get_or p.book (whole 0) m.prices) (m.oid_text m.oid)
          (record m { oid = suc m.oid }))
    | inr unknown ↦ rw unknown (nothing_written id m.orders)
  ]

  call-OneMore :
      (p : Params A) (id : String) (m : MockBitsoApi A)
      → OneMore id m (call_mock (trading (Request.orders p id)) true m)
  unfolding call_mock
  call-OneMore p id m = elim (Bool-cases (ltb 0 m.rate_limits)) [
    | inl limited ↦ rw limited (nothing_written id m.orders)
    | inr free ↦ rw free (place-OneMore p id (logged (trading (Request.orders p id)) m))
  ]

  -- Reading the trades of an order changes none.
  call-trades :
      (qualifier key : String) (m : MockBitsoApi A)
      → (call_mock (trading (Request.user_trades qualifier key)) true m).1.orders ≡ m.orders
  unfolding call_mock
  call-trades qualifier key m = elim (Bool-cases (ltb 0 m.rate_limits)) [
    | inl limited ↦ rw limited
    | inr free ↦ rw free
  ]

  module _ (book_map : Dict String) (lower : String → String) where
    abbrev pub bitso : TwoPhaseExecutor A (MockBitsoApi A)
    bitso = bitso_executor (mock_executor book_map lower)

    -- The exchange holds no more orders of `o` than it has accepted.
    abbrev Covered : MockBitsoApi A × ℕ → Type 0
    Covered v = held_under o v.0.orders ≤ v.1

    placed-accepts :
        (p : Params A) (id : String) (r : Response A)
        → r.success ≡ true
        → accepts (placed_by p id (as_reply r)) ≡ true
    placed-accepts p id r e = rw e

    sent-Covered :
        (q : Option (Params A)) (id : String) (v : MockBitsoApi A × ℕ)
        → Covered v
        → let (reply, m) = sent (mock_executor book_map lower) id v.0 q in
          held_under o m.orders ≤ (if str_eq id o && accepts reply then suc v.1 else v.1)
    unfolding mock_executor mock_client
    sent-Covered none id v c = ground arith
    sent-Covered (some p) id v c =
        let r = call_mock (trading (Request.orders p id)) true v.0 in
        ground (arith, call-OneMore p id v.0, placed-accepts p id r.0)

    bitso-Keeps : Keeps Covered (accepting o bitso)
    unfolding bitso_executor place_order reconcile mock_executor mock_client
    bitso-Keeps = record {
      placing = λ i id v c. sent-Covered (to_params (mock_executor book_map lower) i) id v c;
      reconciling = λ h symbol v c. rw (call-trades _ _ v.0) c;
    }

    call_all-Covered :
        (cs : List (Call A)) (s : Manager A (MockBitsoApi A × ℕ))
        → Covered s.venue
        → Covered (call_all o bitso cs s).venue
    unfolding call_all called
    call_all-Covered [] s v = v
    call_all-Covered (submits c ∷ cs) s v = call_all-Covered cs (called o bitso (submits c) s) (
        submit-Keeps Covered (accepting o bitso) bitso-Keeps c.intent c.origin_id c.symbol
          c.max_attempts s v)
    call_all-Covered (recovers symbol_of ∷ cs) s v =
        call_all-Covered cs (called o bitso (recovers symbol_of) s)
          (recover-Keeps Covered (accepting o bitso) bitso-Keeps symbol_of s v)

    -- However often orders are submitted to a new manager over the Bitso executor and recovered, under
    -- any ids, an emulated exchange that held no order under an id holds at most one, whatever its
    -- balances, its books and the rate limits injected.
    pub held-le-one :
        (cs : List (Call A)) (m : MockBitsoApi A)
        → held_under o m.orders ≡ 0
        → held_under o (call_all o bitso cs (new_manager o 0 bitso m)).venue.0.orders ≤ 1
    held-le-one cs m none_yet = omega (
      arith,
      call_all-Covered cs (new_manager o 0 bitso m) (omega arith),
      (accepted-le-one o bitso cs m).0,
    )
