-- ===== src/Orders/Attempts.antt =====
-- How often treasuryforge/orders.py sends one logical order to the venue.
use treasuryforge.Base.{
  ℕ, zero, suc, ◌+◌, ◌-◌, ◌≤◌, ◌<◌, ◌≡◌, refl, subst, inl, inr, Bool, true, false, Option, none,
  some, List, [], ◌∷◌, String, str_eq, eq_iff, eq_refl, arith, if◌then◌else◌, ltb, Bool-cases,
  Option-cases, All,
}
use treasuryforge.Base.Dict.{lookup, insert, lookup-insert}
use treasuryforge.Base.Result.{Result, ok, err}
use treasuryforge.Types.{Intent}
use treasuryforge.Orders.{
  OrderHandle, Raised, TwoPhaseExecutor, OrderState, OrderRecord, Outcome, Orders, Manager, Action,
  Reconciled, filled, unfilled, handle, or_else, ◌>>=◌, or_raise, set, persist, placed,
  failed_state, settled, rests_or, unless_rejected, is_unknown, is_rejected, place_once, try_fill,
  retry, place_loop, resolve_in, known, new_record, submit, bitso_error, value_error,
}

abbrev pub attempts_of : {A : Type 0} → Option (OrderRecord A) → ℕ
attempts_of none = 0
attempts_of (some r) = r.attempts

-- The attempts on record for an id.
abbrev pub attempts_at : {A : Type 0} → String → Orders A → ℕ
attempts_at o orders = attempts_of (lookup o orders)

attempts_at-insert :
    {A : Type 0} (k : String) (r : OrderRecord A) (orders : Orders A)
    → attempts_at k (insert r.origin_id r orders)
      ≡ (if str_eq r.origin_id k then r.attempts else attempts_at k orders)
attempts_at-insert k r orders = ground (arith, lookup-insert r.origin_id k r orders)

-- The executor, with a count of the orders that it places under the id `o`.
abbrev pub counting : {A W : Type 0} → String → TwoPhaseExecutor A W → TwoPhaseExecutor A (W × ℕ)
counting o ex = record {
  place_order = λ i id v.
      let (reply, w) = ex.place_order i id v.0 in
      (reply, (w, if str_eq id o then suc v.1 else v.1));
  reconcile = λ h symbol v. let (reply, w) = ex.reconcile h symbol v.0 in (reply, (w, v.1));
}

module _ {A W : Type 0} (o : String) (limit budget : ℕ) where
  -- Every record stands under its own id, and the orders placed under `o` with those that its
  -- record still leaves to place are within the budget.
  pub record Inv (s : Manager A (W × ℕ)) : Type 0 where
    pub keyed : (k : String) (r : OrderRecord A) → lookup k s.orders ≡ some r → r.origin_id ≡ k
    pub paid : s.venue.1 + (limit - attempts_at o s.orders) ≤ budget

  -- The dict holds the attempts of this record.
  abbrev Held : OrderRecord A → Manager A (W × ℕ) → Type 0
  Held r s = attempts_at r.origin_id s.orders ≡ r.attempts

  abbrev Post :
      {B : Type 0} → (B → Manager A (W × ℕ) → Type 0) → Result Raised B × Manager A (W × ℕ) → Type 0
  Post Q (ok b, s) = Inv s × Q b s
  Post Q (err e, s) = Inv s

  bind-Post :
      {B C : Type 0} (Q : B → Manager A (W × ℕ) → Type 0) (R : C → Manager A (W × ℕ) → Type 0)
      (f : B → Action A (W × ℕ) C) (p : Result Raised B × Manager A (W × ℕ))
      → Post Q p
      → ((b : B) (s : Manager A (W × ℕ)) → Inv s → Q b s → Post R (f b s))
      → Post R (elim p.0 [ ok b ↦ f b p.1 | err e ↦ (err e, p.1) ])
  bind-Post Q R f (ok b, s) h k = k b s h.0 h.1
  bind-Post Q R f (err e, s) h k = h

  -- The state after a record is written, with a count that has grown by what the caller answers
  -- for.
  write-Inv :
      (r : OrderRecord A) (s s' : Manager A (W × ℕ))
      → Inv s
      → s'.orders ≡ insert r.origin_id r s.orders
      → s'.venue.1 + (limit - attempts_at o (insert r.origin_id r s.orders))
        ≤ s.venue.1 + (limit - attempts_at o s.orders)
      → Inv s' × Held r s'
  write-Inv r s s' v e le = (
    record {
      keyed = λ k q h.
          ground (arith, lookup-insert r.origin_id k r s.orders, eq_iff r.origin_id k, v.keyed k q);
      paid = rw e (omega (arith, le, v.paid));
    },
    rw e (ground (arith, attempts_at-insert r.origin_id r s.orders, eq_refl r.origin_id)),
  )

  -- Rewriting a record with the attempts that the dict has costs nothing.
  rewrite-free :
      (r : OrderRecord A) (s : Manager A (W × ℕ))
      → Held r s
      → attempts_at o (insert r.origin_id r s.orders) ≡ attempts_at o s.orders
  rewrite-free r s h = ground (arith, attempts_at-insert o r s.orders, eq_iff r.origin_id o)

  abbrev Kept : OrderRecord A → OrderRecord A → Manager A (W × ℕ) → Type 0
  Kept r r' s = Held r' s × (r'.attempts ≡ r.attempts) × (r'.origin_id ≡ r.origin_id)

  set-Post :
      (r : OrderRecord A) (st : OrderState) (why : String) (s : Manager A (W × ℕ))
      → Inv s
      → Held r s
      → Post (Kept r) (set r st why s)
  unfolding set persist
  set-Post r st why s v h =
      let r' : OrderRecord A = record r { state = st; reason = why } in
      let w = write-Inv r' s (set r st why s).1 v refl (omega (arith, rewrite-free r' s h)) in
      (w.0, (w.1, refl, refl))

  module _ (ex : TwoPhaseExecutor A W) where
    abbrev pub counted : TwoPhaseExecutor A (W × ℕ)
    counted = counting o ex

    placed-Post :
        (r : OrderRecord A) (reply : Result Raised OrderHandle) (s : Manager A (W × ℕ))
        → Inv s
        → Held r s
        → Post (Kept r) (placed counted r reply s)
    placed-Post r (ok h) s v e =
        set-Post (record r { oid = h.oid; book = h.book }) OrderState.submitted "" s v e
    placed-Post r (err (bitso_error c text)) s v e = set-Post r (failed_state c) text s v e
    placed-Post r (err value_error) s v e = v

    -- An order of `o` is placed only while its record leaves attempts.
    abbrev HasRoom : OrderRecord A → Type 0
    HasRoom r = str_eq r.origin_id o ≡ true → r.attempts < limit

    abbrev Counted : OrderRecord A → OrderRecord A → Manager A (W × ℕ) → Type 0
    Counted r r' s = Held r' s × (r'.attempts ≡ suc r.attempts) × (r'.origin_id ≡ r.origin_id)

    place_once-Post :
        (r : OrderRecord A) (i : Intent A) (s : Manager A (W × ℕ))
        → Inv s
        → Held r s
        → HasRoom r
        → Post (Counted r) (place_once counted r i s)
    unfolding place_once
    place_once-Post r i s v h room =
        let r' : OrderRecord A = record r { attempts = suc r.attempts } in
        let reply = ex.place_order i r.origin_id s.venue.0 in
        let s' : Manager A (W × ℕ) = record s {
          orders = insert r.origin_id r' s.orders;
          venue = (reply.1, if str_eq r.origin_id o then suc s.venue.1 else s.venue.1);
        } in
        let w =
          write-Inv r' s s' v refl
            (ground (arith, attempts_at-insert o r' s.orders, eq_iff r.origin_id o)) in
        placed-Post r' reply.0 s' w.0 w.1

    try_fill-Post :
        (r : OrderRecord A) (symbol : String) (s : Manager A (W × ℕ))
        → Inv s
        → Held r s
        → Post (λ p. Kept r p.0) (try_fill counted r symbol s)
    unfolding try_fill set persist
    try_fill-Post r symbol s v h = go reply.0
      where
        reply : Result Raised (Reconciled A) × W
        reply = ex.reconcile (handle r) (or_else symbol r.symbol) s.venue.0

        s' : Manager A (W × ℕ)
        s' = record s { venue = (reply.1, s.venue.1) }

        v' : Inv s'
        v' = record { keyed = v.keyed; paid = v.paid }

        go :
            (x : Result Raised (Reconciled A))
            → Post (λ p. Kept r p.0) ((or_raise x >>= settled counted r) s')
        go (ok (filled f)) = set-Post (record r { fill = some f }) OrderState.filled "" s' v' h
        go (ok unfilled) = (v', (h, refl, refl))
        go (err e) = v'

    abbrev Done : {B : Type 0} → B → Manager A (W × ℕ) → Type 0
    Done b s = Unit

    rests_or-Post :
        (again : Action A (W × ℕ) (Outcome A)) (p : OrderRecord A × Bool) (s : Manager A (W × ℕ))
        → Inv s
        → Held p.0 s
        → Post Done (again s)
        → Post Done (rests_or counted again p s)
    unfolding set persist
    rests_or-Post again (r, true) s v h k = (v, tt)
    rests_or-Post again (r, false) s v h k = elim (Bool-cases (is_unknown counted r.state)) [
      | inl e ↦ rw e k
      | inr e ↦ rw e ((set-Post r OrderState.resting "resting" s v h).0, tt)
    ]

    -- `max_attempts` is no more than the limit where the order is the one that is counted.
    abbrev Allowed : OrderRecord A → ℕ → Type 0
    Allowed r m = str_eq r.origin_id o ≡ true → m ≤ limit

    abbrev Restarts : ℕ → (OrderRecord A → Action A (W × ℕ) (Outcome A)) → Type 0
    Restarts m again =
        (r : OrderRecord A) (s : Manager A (W × ℕ))
        → Allowed r m
        → Inv s
        → Held r s
        → Post Done (again r s)

    tried-Post :
        (again : OrderRecord A → Action A (W × ℕ) (Outcome A)) (m : ℕ) (r : OrderRecord A)
        (symbol : String) (s : Manager A (W × ℕ))
        → Restarts m again
        → Allowed r m
        → Inv s
        → Held r s
        → Post Done
            ((try_fill counted r symbol >>= λ tried. rests_or counted (again tried.0) tried) s)
    tried-Post again m r symbol s rec a v h =
        bind-Post (λ p. Kept r p.0) Done (λ tried. rests_or counted (again tried.0) tried)
          (try_fill counted r symbol s) (try_fill-Post r symbol s v h)
          (λ p s' v' k.
            rests_or-Post (again p.0) p s' v' k.0
              (rec p.0 s' (λ same. a (subst (λ (x : String). str_eq x o ≡ true) k.2 same)) v' k.0))

    unless_rejected-Post :
        (again : Action A (W × ℕ) (Outcome A)) (r : OrderRecord A) (s : Manager A (W × ℕ))
        → Inv s
        → Post Done (again s)
        → Post Done (unless_rejected counted r again s)
    unless_rejected-Post again r s v k = elim (Bool-cases (is_rejected counted r.state)) [
      | inl e ↦ rw e (v, tt)
      | inr e ↦ rw e k
    ]

    retry-Post :
        (fuel : ℕ) (i : Intent A) (symbol : String) (m : ℕ)
        → Restarts m (retry counted fuel i symbol m)
    unfolding retry
    retry-Post zero i symbol m r s a v h = (v, tt)
    retry-Post (suc fuel) i symbol m r s a v h =
        let rec = retry-Post fuel i symbol m in
        let again = λ (r' : OrderRecord A). try_fill counted r' symbol >>= λ tried.
        rests_or counted (retry counted fuel i symbol m tried.0) tried in
        elim (Bool-cases (ltb r.attempts m)) [
          | inr e ↦ rw e (v, tt)
          | inl e ↦ rw e (
              bind-Post (Counted r) Done (λ r'. unless_rejected counted r' (again r'))
                (place_once counted r i s)
                (place_once-Post r i s v h (λ same. ground (arith, a same)))
                (λ r' s' v' c. unless_rejected-Post (again r') r' s' v' (
                  tried-Post (retry counted fuel i symbol m) m r' symbol s' rec
                    (λ same. a (subst (λ (x : String). str_eq x o ≡ true) c.2 same)) v' c.0)))
        ]

    resolve_in-Post :
        (st : OrderState) (r : OrderRecord A) (i : Intent A) (symbol : String) (m : ℕ)
        (s : Manager A (W × ℕ))
        → Allowed r m
        → Inv s
        → Held r s
        → Post Done (resolve_in counted st r i symbol m s)
    unfolding resolve_in place_loop
    resolve_in-Post OrderState.filled r i symbol m s a v h = (v, tt)
    resolve_in-Post OrderState.rejected r i symbol m s a v h = (v, tt)
    resolve_in-Post OrderState.placing r i symbol m s a v h =
        retry-Post (m - r.attempts) i symbol m r s a v h
    resolve_in-Post _ r i symbol m s a v h =
        tried-Post (place_loop counted i symbol m) m r symbol s
          (λ q. retry-Post (m - q.attempts) i symbol m q) a v h

    submit-Post :
        (i : Intent A) (id symbol : String) (m : ℕ) (s : Manager A (W × ℕ))
        → (str_eq id o ≡ true → m ≤ limit)
        → Inv s
        → Post Done (submit counted i id symbol m s)
    unfolding submit persist
    submit-Post i id symbol m s a v = elim (Option-cases (lookup id s.orders)) [
      | inl e ↦
          let fresh = new_record i id symbol in
          let s' = (persist fresh OrderState.placing s).1 in
          let w =
            write-Inv fresh s s' v refl
              (ground (arith, attempts_at-insert o fresh s.orders, eq_iff id o)) in
          rw (e, known) (resolve_in-Post OrderState.placing fresh i symbol m s' a w.0 w.1)
      | inr (r, e) ↦
          let own = v.keyed id r e in
          rw (e, known)
            (resolve_in-Post r.state r i symbol m s
              (λ same. a (subst (λ (x : String). str_eq x o ≡ true) own same)) v (rw (own, e)))
    ]

    Post-Inv :
        {B : Type 0} (p : Result Raised B × Manager A (W × ℕ)) → Post {B = B} Done p → Inv p.1
    Post-Inv (ok b, s) h = h.0
    Post-Inv (err e, s) h = h

-- A call of `submit`.
pub record Submission (A : Type 0) : Type 0 where
  pub intent : Intent A
  pub origin_id : String
  pub symbol : String
  pub max_attempts : ℕ

module _ {A W : Type 0} (o : String) (limit : ℕ) (ex : TwoPhaseExecutor A W) where
  -- The calls in turn, whether they return or raise.
  pub submit_all : List (Submission A) → Manager A (W × ℕ) → Manager A (W × ℕ)
  submit_all [] s = s
  submit_all (c ∷ cs) s =
      submit_all cs (submit (counting o ex) c.intent c.origin_id c.symbol c.max_attempts s).1

  abbrev pub WithinLimit : Submission A → Type 0
  WithinLimit c = str_eq c.origin_id o ≡ true → c.max_attempts ≤ limit

  submit_all-Inv :
      (budget : ℕ) (cs : List (Submission A)) (s : Manager A (W × ℕ))
      → All WithinLimit cs
      → Inv o limit budget s
      → Inv o limit budget (submit_all cs s)
  unfolding submit_all
  submit_all-Inv budget [] s a v = v
  submit_all-Inv budget (c ∷ cs) s a v = submit_all-Inv budget cs _ a.1 (
      Post-Inv o limit budget ex _
        (submit-Post o limit budget ex c.intent c.origin_id c.symbol c.max_attempts s a.0 v))

  abbrev pub new_manager : W → Manager A (W × ℕ)
  new_manager w = record {
    orders = [];
    journal = record { ledger = []; state = none };
    venue = (w, 0);
  }

  -- However often orders are submitted to a new manager, under any ids and with any outcomes and
  -- exceptions of the venue, no more than `limit` orders are placed under the id `o`, where each
  -- submission of `o` sets `max_attempts` to at most `limit`.
  pub placed-le-limit :
      (cs : List (Submission A)) (w : W)
      → All WithinLimit cs
      → (submit_all cs (new_manager w)).venue.1 ≤ limit
  placed-le-limit cs w a =
      let start : Inv o limit limit (new_manager w) = record {
        keyed = λ k r h. cc;
        paid = omega arith;
      } in
      omega (arith, (submit_all-Inv limit cs (new_manager w) a start).paid)
