-- ===== src/Bitso/Validation/Gated.antt =====
-- What the validation ladder of treasuryforge/exchanges/bitso/validation.py sends, and where it halts.
use treasuryforge.Base.{
  ℕ, suc, ◌+◌, ◌≤◌, ◌<◌, ◌≡◌, ◌≢◌, refl, ◌⊎◌, eq_iff, str_eq, ◌==◌, contains, inl, inr, Bool, true,
  false, not, ◌&&◌, Option, none, some, List, [], ◌∷◌, arith, if◌then◌else◌, Bool-cases, is_some,
  any,
}
use Prim.Native.String.{◌++◌ as ◌⊕◌}
use treasuryforge.Base.Float.{Float}
use treasuryforge.Base.Result.{Result, ok, err}
use treasuryforge.Orders.{
  OrderHandle, Raised, bitso_error, value_error, Reconciled, TwoPhaseExecutor,
}
use treasuryforge.Bitso.Client.{
  Endpoint, Book, Response, BitsoClient, cancel_all, get_books, get_balance, get_fees,
  get_open_orders, send_cancel_all, probe_withdrawal,
}
use treasuryforge.Bitso.Validation.{
  RungStatus, Rung, RungResult, rung, error_code, auth_failed, Ladder, listed_book, answered,
  withdraw_verdict, is_oid, is_fail, after, caught, tiny_reconciled, tiny_placed, tiny_buy,
  cancelled_path, rest_placed, order_rungs, skipped, fee_rung, withdraw_rung, balance_rung,
  from_book, run_ladder, rest_intent, tiny_intent, opened_in,
}

-- How many orders and cancellations went out.
pub record Sent : Type 0 where
  pub orders : ℕ
  pub cancels : ℕ

abbrev pub none_sent : Sent
none_sent = record { orders = 0; cancels = 0 }

abbrev noted : {A : Type 0} → Endpoint A → Sent → Sent
noted cancel_all s = record s { cancels = suc s.cancels }
noted _ s = s

module _ {A W : Type 0} where
  -- The client and the executor, with a count of what they send.
  abbrev pub counting_client : BitsoClient A W → BitsoClient A (W × Sent)
  counting_client c = record {
    transport = λ e authed v. let (r, w) = c.transport e authed v.0 in (r, (w, noted e v.1));
  }

  abbrev pub counting_executor : TwoPhaseExecutor A W → TwoPhaseExecutor A (W × Sent)
  counting_executor x = record {
    place_order = λ i id v.
        let (r, w) = x.place_order i id v.0 in (r, (w, record v.1 { orders = suc v.1.orders }));
    reconcile = λ h symbol v. let (r, w) = x.reconcile h symbol v.0 in (r, (w, v.1));
  }

-- No rung but the last has failed.
abbrev pub halts : List RungResult → Bool
halts [] = true
halts (r ∷ []) = true
halts (r ∷ rest) = not (is_fail r.status) && halts rest

abbrev pub Halts : Result Raised (List RungResult) → Type 0
Halts (ok rs) = halts rs ≡ true
Halts (err e) = Unit

-- The exchange did not accept the withdrawal, and says why in one of three ways: the key may not, the
-- path is unknown, or the probe was not authenticated.
pub record Refused {A : Type 0} (r : Response A) : Type 0 where
  pub unsuccessful : r.success ≡ false
  pub no_ok : (r.status ≢ 200) × (r.status ≢ 201)
  pub said :
      (error_code r ≡ "0202") ⊎ ((r.status ≡ 404) ⊎ (contains (error_code r) auth_failed ≡ true))

refused_lem : {A : Type 0} (r : Response A) → is_fail (withdraw_verdict r) ≡ false → Refused r
unfolding withdraw_verdict
refused_lem r h = record {
  unsuccessful = ground arith;
  no_ok = (λ e. ground arith, λ e. ground arith);
  said = elim (Bool-cases (str_eq (error_code r) "0202")) [
    | inl forbidden ↦ inl ((eq_iff (error_code r) "0202").0 forbidden)
    | inr other ↦ elim (Bool-cases (r.status == 404)) [
      | inl lost ↦ inr (inl (ground arith))
      | inr found ↦ inr (inr (ground (arith, other)))
    ]
  ];
}

module _ {A W : Type 0} ⦃F : Float A⦄ (c : BitsoClient A W) (x : TwoPhaseExecutor A W) where
  abbrev client : BitsoClient A (W × Sent)
  client = counting_client c

  abbrev executor : TwoPhaseExecutor A (W × Sent)
  executor = counting_executor x

  -- At most n orders and m cancellations more than before, and a ladder that halts.
  abbrev Post : Sent → ℕ → ℕ → Result Raised (List RungResult) × (W × Sent) → Type 0
  Post s n m o = (o.1.1.orders ≤ s.orders + n) × (o.1.1.cancels ≤ s.cancels + m) × Halts o.0

  after-Post :
      (name : Rung) (status : RungStatus) (o : Result Raised (List RungResult) × (W × Sent))
      (s : Sent) (n m : ℕ)
      → is_fail status ≡ false
      → Post s n m o
      → Post s n m (after (rung name status ∷ []) o)
  after-Post name status (ok [], v) s n m e h = (h.0, h.1, refl)
  after-Post name status (ok (r ∷ rs), v) s n m e h = (h.0, h.1, ground (arith, h))
  after-Post name status (err k, v) s n m e h = h

  caught-Post : (e : Raised) (v : W × Sent) → Post v.1 0 0 (caught client executor e v)
  caught-Post (bitso_error k text) v = (omega arith, omega arith, refl)
  caught-Post value_error v = (omega arith, omega arith, tt)

  tiny_reconciled-Post :
      (r : Result Raised (Reconciled A)) (v : W × Sent)
      → Post v.1 0 0 (tiny_reconciled client executor r v)
  tiny_reconciled-Post (err e) v = caught-Post e v
  tiny_reconciled-Post (ok r) v = (omega arith, omega arith, refl)

  tiny_placed-Post :
      (l : Ladder A) (r : Result Raised OrderHandle) (v : W × Sent)
      → Post v.1 0 0 (tiny_placed client executor l r v)
  tiny_placed-Post l (err e) v = caught-Post e v
  tiny_placed-Post l (ok h) v =
      let reply = x.reconcile h l.symbol v.0 in tiny_reconciled-Post reply.0 (reply.1, v.1)

  abbrev one_more : Sent → Sent
  one_more s = record s { orders = suc s.orders }

  tiny_buy-Post : (l : Ladder A) (v : W × Sent) → Post v.1 1 0 (tiny_buy client executor l v)
  unfolding tiny_buy
  tiny_buy-Post l v =
      let p = x.place_order (tiny_intent client executor l) (l.origin_prefix ⊕ "-buy") v.0 in
      let h = tiny_placed-Post l p.0 (p.1, one_more v.1) in (omega (arith, h.0), h.1, h.2)

  cancelled_path-Post :
      (l : Ladder A) (h : OrderHandle) (v : W × Sent)
      → Post v.1 1 1 (cancelled_path client executor l h v)
  unfolding cancelled_path
  cancelled_path-Post l h v =
      let before = get_open_orders c (some l.book) v.0 in
      let gone = send_cancel_all c before.1 in
      let later = get_open_orders c (some l.book) gone.1 in
      let s' : Sent = record v.1 { cancels = suc v.1.cancels } in
      let bought = tiny_buy-Post l (later.1, s') in
      elim (Bool-cases (
        any (is_oid h.oid) (opened_in before.0.payload)
        && not (any (is_oid h.oid) (opened_in later.0.payload)))) [
          | inl clean ↦ rw clean (
              after-Post Rung.kill_path RungStatus.pass (tiny_buy client executor l (later.1, s'))
                v.1 1 1 refl (bought.0, omega (arith, bought.1), bought.2))
          | inr broken ↦ rw broken (omega arith, omega arith, refl)
        ]

  rest_placed-Post :
      (l : Ladder A) (r : Result Raised OrderHandle) (v : W × Sent)
      → Post v.1 1 1 (rest_placed client executor l r v)
  rest_placed-Post l (err e) v =
      let h = caught-Post e v in (omega (arith, h.0), omega (arith, h.1), h.2)
  rest_placed-Post l (ok h) v = cancelled_path-Post l h v

  order_rungs-Post :
      (l : Ladder A) (b : Book A) (v : W × Sent) → Post v.1 2 1 (order_rungs client executor l b v)
  unfolding order_rungs
  order_rungs-Post l b v =
      let p = x.place_order (rest_intent client executor l b) (l.origin_prefix ⊕ "-rest") v.0 in
      let h = rest_placed-Post l p.0 (p.1, one_more v.1) in (omega (arith, h.0), h.1, h.2)

  -- What the rungs from the fees on may send.
  abbrev orders_of : Bool → ℕ
  orders_of armed = if armed then 2 else 0

  abbrev cancels_of : Bool → ℕ
  cancels_of armed = if armed then 1 else 0

  armed_rungs-Post :
      (armed : Bool) (l : Ladder A) (b : Book A) (v : W × Sent)
      → Post v.1
          (orders_of armed)
          (cancels_of armed)
          (if armed then order_rungs client executor l b v else (ok skipped, v))
  armed_rungs-Post true l b v = order_rungs-Post l b v
  armed_rungs-Post false l b v = (omega arith, omega arith, refl)

  fee_rung-Post :
      (l : Ladder A) (b : Book A) (v : W × Sent)
      → Post v.1 (orders_of l.arm) (cancels_of l.arm) (fee_rung client executor l b v)
  unfolding fee_rung
  fee_rung-Post l b v =
      let r = get_fees c v.0 in
      after-Post Rung.fees (if answered r.0 then RungStatus.pass else RungStatus.warn)
        (if l.arm then order_rungs client executor l b (r.1, v.1) else (ok skipped, (r.1, v.1))) v.1
        (orders_of l.arm) (cancels_of l.arm) (ground arith) (armed_rungs-Post l.arm l b (r.1, v.1))

  -- None is sent unless the ladder is armed.
  sent_armed :
      (armed : Bool) (n m : ℕ)
      → n ≤ 0 + orders_of armed
      → m ≤ 0 + cancels_of armed
      → (n ≤ 2) × (m ≤ 1) × ((0 < n + m) → armed ≡ true)
  sent_armed true n m h k = (omega arith, omega arith, λ _. refl)
  sent_armed false n m h k = (omega arith, omega arith, λ sent. absurd (omega arith))

  -- The answers to the first three rungs.
  abbrev book_answer : W → Response A × W
  book_answer w = get_books c w

  abbrev balance_answer : W → Response A × W
  balance_answer w = get_balance c (book_answer w).1

  abbrev probe_answer : W → Response A × W
  probe_answer w = probe_withdrawal c (balance_answer w).1

  -- The ladder may trade: it is armed, the market lists the book, the signed read is answered, and the
  -- withdrawal is refused.
  pub record MayTrade (l : Ladder A) (w : W) : Type 0 where
    pub armed : l.arm ≡ true
    pub listed : is_some (listed_book l.book (book_answer w).0) ≡ true
    pub authentic : answered (balance_answer w).0 ≡ true
    pub refused : Refused (probe_answer w).0

  -- At most two orders and one cancellation, and none unless `P`.
  abbrev Gated : Type 0 → Result Raised (List RungResult) × (W × Sent) → Type 0
  Gated P o =
      (o.1.1.orders ≤ 2)
      × (o.1.1.cancels ≤ 1)
      × ((0 < o.1.1.orders + o.1.1.cancels) → P)
      × Halts o.0

  after-Gated :
      {P : Type 0} (name : Rung) (status : RungStatus)
      (o : Result Raised (List RungResult) × (W × Sent))
      → is_fail status ≡ false
      → Gated P o
      → Gated P (after (rung name status ∷ []) o)
  after-Gated name status (ok [], v) e h = (h.0, h.1, h.2, refl)
  after-Gated name status (ok (r ∷ rs), v) e h = (h.0, h.1, h.2, ground (arith, h))
  after-Gated name status (err k, v) e h = h

  Gated-map :
      {P Q : Type 0} (o : Result Raised (List RungResult) × (W × Sent))
      → (P → Q)
      → Gated P o
      → Gated Q o
  Gated-map o f h = (h.0, h.1, λ sent. f (h.2 sent), h.3)

  failed-Gated :
      {P : Type 0} (name : Rung) (w : W)
      → Gated P (ok (rung name RungStatus.fail ∷ []), (w, none_sent))
  failed-Gated name w = (omega arith, omega arith, λ sent. absurd (omega arith), refl)

  withdraw_rung-Gated :
      (l : Ladder A) (b : Book A) (w : W)
      → Gated
          ((l.arm ≡ true) × (is_fail (withdraw_verdict (probe_withdrawal c w).0) ≡ false))
          (withdraw_rung client executor l b (w, none_sent))
  unfolding withdraw_rung
  withdraw_rung-Gated l b w =
      let r = probe_withdrawal c w in
      let h = fee_rung-Post l b (r.1, none_sent) in
      let (most, once, armed) = sent_armed l.arm _ _ h.0 h.1 in
      elim (Bool-cases (is_fail (withdraw_verdict r.0))) [
        | inl failed ↦ rw failed (failed-Gated Rung.no_withdraw r.1)
        | inr refused ↦ rw refused (
            after-Gated Rung.no_withdraw (withdraw_verdict r.0)
              (fee_rung client executor l b (r.1, none_sent)) refused
              (most, once, λ sent. (armed sent, refl), h.2))
      ]

  balance_rung-Gated :
      (l : Ladder A) (b : Book A) (w : W)
      → let r = get_balance c w in
        Gated
          ((l.arm ≡ true)
            × (is_fail (withdraw_verdict (probe_withdrawal c r.1).0) ≡ false)
            × (answered r.0 ≡ true))
          (balance_rung client executor l b (w, none_sent))
  unfolding balance_rung
  balance_rung-Gated l b w =
      let r = get_balance c w in
      elim (Bool-cases (answered r.0)) [
        | inl signed ↦ rw signed (
            after-Gated Rung.balance RungStatus.pass
              (withdraw_rung client executor l b (r.1, none_sent)) refl
              (Gated-map (withdraw_rung client executor l b (r.1, none_sent))
                (λ p. (p.0, p.1, refl)) (withdraw_rung-Gated l b r.1)))
        | inr unsigned ↦ rw unsigned (failed-Gated Rung.balance r.1)
      ]

  from_book-Gated :
      (l : Ladder A) (o : Option (Book A)) (w : W)
      → let r = get_balance c w in
        Gated
          ((l.arm ≡ true)
            × (is_fail (withdraw_verdict (probe_withdrawal c r.1).0) ≡ false)
            × (answered r.0 ≡ true)
            × (is_some o ≡ true))
          (from_book client executor l o (w, none_sent))
  from_book-Gated l none w = failed-Gated Rung.available_books w
  from_book-Gated l (some b) w =
      after-Gated Rung.available_books RungStatus.pass
        (balance_rung client executor l b (w, none_sent)) refl
        (Gated-map (balance_rung client executor l b (w, none_sent)) (λ p. (p.0, p.1, p.2, refl))
          (balance_rung-Gated l b w))

  -- Over any exchange, the ladder sends at most two orders and one cancellation, and none at all
  -- unless it is armed, the market lists the book, the signed read is answered and the withdrawal
  -- is refused, not accepted; and no rung but its last has failed.
  pub run_ladder-Gated :
      (l : Ladder A) (w : W)
      → let (results, v) = run_ladder client executor l (w, none_sent) in
        let sent = v.1 in
        (sent.orders ≤ 2)
        × (sent.cancels ≤ 1)
        × ((0 < sent.orders + sent.cancels) → MayTrade l w)
        × Halts results
  unfolding run_ladder
  run_ladder-Gated l w =
      let b = book_answer w in
      Gated-map (from_book client executor l (listed_book l.book b.0) (b.1, none_sent))
        (λ p. record {
          armed = p.0;
          listed = p.3;
          authentic = p.2;
          refused = refused_lem (probe_answer w).0 p.1;
        })
        (from_book-Gated l (listed_book l.book b.0) b.1)
