-- ===== src/Orders/Accepted.antt =====
-- How often the venue of treasuryforge/orders.py accepts one logical order.
use treasuryforge.Base.{
  ℕ, zero, suc, ◌-◌, ◌≤◌, ◌≡◌, refl, sym, subst, ap, inl, inr, Bool, true, false, not, ◌&&◌, Option,
  none, some, List, [], ◌∷◌, ◌++◌, String, str_eq, eq_iff, eq_refl, arith, if◌then◌else◌, ltb,
  Bool-cases, Option-cases, is_some,
}
use treasuryforge.Base.Dict.{Dict, lookup, insert, lookup-insert, get_or}
use treasuryforge.Base.Result.{Result, ok, err}
use treasuryforge.Types.{Intent}
use treasuryforge.Orders.{
  OrderHandle, Raised, TwoPhaseExecutor, OrderState, OrderRecord, Outcome, Orders, Manager, Action,
  Reconciled, filled, unfilled, handle, or_else, ◌>>=◌, pure, or_raise, is_terminal, set, persist,
  placed, failed_state, settled, rests_or, unless_rejected, is_unknown, is_rejected, place_once,
  try_fill, retry, place_loop, resolve_in, known, new_record, submit, rests_recovered, recover_one,
  recover_all, recover, bitso_error, value_error, outcome,
}
use treasuryforge.Orders.Attempts.{Submission, new_manager}

-- One for a state that an accepted order can be in, and zero for one that allows another placing.
abbrev pub landed : OrderState → ℕ
landed OrderState.submitted = 1
landed OrderState.resting = 1
landed OrderState.filled = 1
landed OrderState.placing = 0
landed OrderState.unknown = 0
landed OrderState.rejected = 0

abbrev landed_of : {A : Type 0} → Option (OrderRecord A) → ℕ
landed_of none = 0
landed_of (some r) = landed r.state

abbrev pub landed_at : {A : Type 0} → String → Orders A → ℕ
landed_at o orders = landed_of (lookup o orders)

landed_at-insert :
    {A : Type 0} (k : String) (r : OrderRecord A) (orders : Orders A)
    → landed_at k (insert r.origin_id r orders)
      ≡ (if str_eq r.origin_id k then landed r.state else landed_at k orders)
landed_at-insert k r orders = ground (arith, lookup-insert r.origin_id k r orders)

landed-le : {A : Type 0} (o : Option (OrderRecord A)) → landed_of o ≤ 1
landed-le o = ground arith

abbrev pub accepts : Result Raised OrderHandle → Bool
accepts (ok h) = true
accepts (err e) = false

-- The executor, with a count of the orders that it accepts under the id `o`.
abbrev pub accepting : {A W : Type 0} → String → TwoPhaseExecutor A W → TwoPhaseExecutor A (W × ℕ)
accepting o ex = record {
  place_order = λ i id v.
      let (reply, w) = ex.place_order i id v.0 in
      (reply, (w, if str_eq id o && accepts reply then suc v.1 else v.1));
  reconcile = λ h symbol v. let (reply, w) = ex.reconcile h symbol v.0 in (reply, (w, v.1));
}

module _ {A W : Type 0} (o : String) where
  -- Every record stands under its own id, and an order that was accepted has landed on its record.
  pub record Inv (s : Manager A (W × ℕ)) : Type 0 where
    pub keyed : (k : String) (r : OrderRecord A) → lookup k s.orders ≡ some r → r.origin_id ≡ k
    pub once : s.venue.1 ≤ landed_at o s.orders

  abbrev Held : OrderRecord A → Manager A (W × ℕ) → Type 0
  Held r s = lookup r.origin_id s.orders ≡ some r

  abbrev Post :
      {B : Type 0} → (B → Manager A (W × ℕ) → Type 0) → Result Raised B × Manager A (W × ℕ) → Type 0
  Post Q (ok b, s) = Inv s × Q b s
  Post Q (err e, s) = Inv s

  bind-Post :
      {B C : Type 0} (Q : B → Manager A (W × ℕ) → Type 0) (R : C → Manager A (W × ℕ) → Type 0)
      (f : B → Action A (W × ℕ) C) (p : Result Raised B × Manager A (W × ℕ))
      → Post Q p
      → ((b : B) (s : Manager A (W × ℕ)) → Inv s → Q b s → Post R (f b s))
      → Post R (elim p.0 [ ok b ↦ f b p.1 | err e ↦ (err e, p.1) ])
  bind-Post Q R f (ok b, s) h k = k b s h.0 h.1
  bind-Post Q R f (err e, s) h k = h

  abbrev Done : {B : Type 0} → B → Manager A (W × ℕ) → Type 0
  Done b s = Unit

  Post-Inv : {B : Type 0} (p : Result Raised B × Manager A (W × ℕ)) → Post {B = B} Done p → Inv p.1
  Post-Inv (ok b, s) h = h.0
  Post-Inv (err e, s) h = h

  -- The invariant, but for the order of the record `r`.
  record Beside (r : OrderRecord A) (s : Manager A (W × ℕ)) : Type 0 where
    keyed : (k : String) (q : OrderRecord A) → lookup k s.orders ≡ some q → q.origin_id ≡ k
    elsewhere : str_eq r.origin_id o ≡ false → s.venue.1 ≤ landed_at o s.orders

  beside : (r : OrderRecord A) (s : Manager A (W × ℕ)) → Inv s → Beside r s
  beside r s v = record { keyed = v.keyed; elsewhere = λ _. v.once }

  write-Inv :
      (r : OrderRecord A) (s s' : Manager A (W × ℕ))
      → Beside r s
      → s'.orders ≡ insert r.origin_id r s.orders
      → s'.venue.1 ≤ landed_at o (insert r.origin_id r s.orders)
      → Inv s' × Held r s'
  write-Inv r s s' v e le = (
    record {
      keyed = λ k q h.
          ground (arith, lookup-insert r.origin_id k r s.orders, eq_iff r.origin_id k, v.keyed k q);
      once = rw e le;
    },
    rw e (ground (arith, lookup-insert r.origin_id r.origin_id r s.orders, eq_refl r.origin_id)),
  )

  set-Post :
      (r : OrderRecord A) (st : OrderState) (why : String) (s : Manager A (W × ℕ))
      → Beside r s
      → (str_eq r.origin_id o ≡ true → s.venue.1 ≤ landed st)
      → Post Held (set r st why s)
  unfolding set persist
  set-Post r st why s v k =
      let r' : OrderRecord A = record r { state = st; reason = why } in
      write-Inv r' s (set r st why s).1 (record { keyed = v.keyed; elsewhere = v.elsewhere }) refl
        (ground (arith, landed_at-insert o r' s.orders, v.elsewhere))

  -- A state that shows a landed order may always be written.
  set-landed-Post :
      (r : OrderRecord A) (st : OrderState) (why : String) (s : Manager A (W × ℕ))
      → landed st ≡ 1
      → Inv s
      → Post Held (set r st why s)
  set-landed-Post r st why s one v =
      set-Post r st why s (beside r s v)
        (λ _. omega (arith, one, v.once, landed-le (lookup o s.orders)))

  module _ (ex : TwoPhaseExecutor A W) where
    abbrev pub accepted : TwoPhaseExecutor A (W × ℕ)
    accepted = accepting o ex

    -- Nothing was accepted for a record from which the code places an order.
    abbrev Open : OrderRecord A → Type 0
    Open r = landed r.state ≡ 0

    placed-Post :
        (r : OrderRecord A) (reply : Result Raised OrderHandle) (s : Manager A (W × ℕ))
        → Beside r s
        → Held r s
        → (str_eq r.origin_id o ≡ true → s.venue.1 ≤ (if accepts reply then 1 else 0))
        → Post Held (placed accepted r reply s)
    placed-Post r (ok h) s v e k =
        set-Post (record r { oid = h.oid; book = h.book }) OrderState.submitted "" s
          (record { keyed = v.keyed; elsewhere = v.elsewhere }) k
    placed-Post r (err (bitso_error c text)) s v e k =
        set-Post r (failed_state c) text s v (λ same. omega (arith, k same))
    placed-Post r (err value_error) s v e k = record {
      keyed = v.keyed;
      once = ground (arith, eq_iff r.origin_id o, v.elsewhere, k);
    }

    place_once-Post :
        (r : OrderRecord A) (i : Intent A) (s : Manager A (W × ℕ))
        → Inv s
        → Held r s
        → Open r
        → Post Held (place_once accepted r i s)
    unfolding place_once
    place_once-Post r i s v h none_yet =
        let r' : OrderRecord A = record r { attempts = suc r.attempts } in
        let reply = ex.place_order i r.origin_id s.venue.0 in
        let s' : Manager A (W × ℕ) = record s {
          orders = insert r.origin_id r' s.orders;
          venue = (
            reply.1,
            if str_eq r.origin_id o && accepts reply.0 then suc s.venue.1 else s.venue.1,
          );
        } in
        placed-Post r' reply.0 s'
          (record {
            keyed = λ k q e.
                ground (
                  arith,
                  lookup-insert r.origin_id k r' s.orders,
                  eq_iff r.origin_id k,
                  v.keyed k q,
                );
            elsewhere = λ other. rw other (ground (arith, landed_at-insert o r' s.orders, v.once));
          })
          (ground (arith, lookup-insert r.origin_id r.origin_id r' s.orders, eq_refl r.origin_id))
          (λ same. rw same (ground (arith, v.once, eq_iff r.origin_id o)))

    try_fill-Post :
        (r : OrderRecord A) (symbol : String) (s : Manager A (W × ℕ))
        → Inv s
        → Held r s
        → Post (λ p. Held p.0) (try_fill accepted r symbol s)
    unfolding try_fill set persist
    try_fill-Post r symbol s v h = go reply.0
      where
        reply : Result Raised (Reconciled A) × W
        reply = ex.reconcile (handle r) (or_else symbol r.symbol) s.venue.0

        s' : Manager A (W × ℕ)
        s' = record s { venue = (reply.1, s.venue.1) }

        v' : Inv s'
        v' = record { keyed = v.keyed; once = v.once }

        go :
            (x : Result Raised (Reconciled A))
            → Post (λ p. Held p.0) ((or_raise x >>= settled accepted r) s')
        go (ok (filled f)) =
            set-landed-Post (record r { fill = some f }) OrderState.filled "" s' refl v'
        go (ok unfilled) = (v', h)
        go (err e) = v'

    unknown-Open : (r : OrderRecord A) → is_unknown accepted r.state ≡ true → Open r
    unknown-Open r e = ground arith

    -- The loop, from a record for which nothing was accepted.
    abbrev Restarts : (OrderRecord A → Action A (W × ℕ) (Outcome A)) → Type 0
    Restarts again =
        (r : OrderRecord A) (s : Manager A (W × ℕ))
        → Inv s
        → Held r s
        → Open r
        → Post Done (again r s)

    rests_or-Post :
        (again : OrderRecord A → Action A (W × ℕ) (Outcome A)) (p : OrderRecord A × Bool)
        (s : Manager A (W × ℕ))
        → Restarts again
        → Inv s
        → Held p.0 s
        → Post Done (rests_or accepted (again p.0) p s)
    unfolding set persist
    rests_or-Post again (r, true) s rec v h = (v, tt)
    rests_or-Post again (r, false) s rec v h = elim (Bool-cases (is_unknown accepted r.state)) [
      | inl e ↦ rw e (rec r s v h (unknown-Open r e))
      | inr e ↦ rw e ((set-landed-Post r OrderState.resting "resting" s refl v).0, tt)
    ]

    tried-Post :
        (again : OrderRecord A → Action A (W × ℕ) (Outcome A)) (r : OrderRecord A) (symbol : String)
        (s : Manager A (W × ℕ))
        → Restarts again
        → Inv s
        → Held r s
        → Post Done
            ((try_fill accepted r symbol >>= λ tried. rests_or accepted (again tried.0) tried) s)
    tried-Post again r symbol s rec v h =
        bind-Post (λ p. Held p.0) Done (λ tried. rests_or accepted (again tried.0) tried)
          (try_fill accepted r symbol s) (try_fill-Post r symbol s v h)
          (λ p t w e. rests_or-Post again p t rec w e)

    unless_rejected-Post :
        (again : Action A (W × ℕ) (Outcome A)) (r : OrderRecord A) (s : Manager A (W × ℕ))
        → Inv s
        → Post Done (again s)
        → Post Done (unless_rejected accepted r again s)
    unless_rejected-Post again r s v k = elim (Bool-cases (is_rejected accepted r.state)) [
      | inl e ↦ rw e (v, tt)
      | inr e ↦ rw e k
    ]

    retry-Post :
        (fuel : ℕ) (i : Intent A) (symbol : String) (m : ℕ)
        → Restarts (retry accepted fuel i symbol m)
    unfolding retry
    retry-Post zero i symbol m r s v h none_yet = (v, tt)
    retry-Post (suc fuel) i symbol m r s v h none_yet =
        let rec = retry-Post fuel i symbol m in
        let again = λ (r' : OrderRecord A). try_fill accepted r' symbol >>= λ tried.
        rests_or accepted (retry accepted fuel i symbol m tried.0) tried in
        elim (Bool-cases (ltb r.attempts m)) [
          | inr e ↦ rw e (v, tt)
          | inl e ↦ rw e (
              bind-Post Held Done (λ r'. unless_rejected accepted r' (again r'))
                (place_once accepted r i s) (place_once-Post r i s v h none_yet)
                (λ r' s' v' h'.
                  unless_rejected-Post (again r') r' s' v'
                    (tried-Post (retry accepted fuel i symbol m) r' symbol s' rec v' h')))
        ]

    resolve_in-Post :
        (st : OrderState) (r : OrderRecord A) (i : Intent A) (symbol : String) (m : ℕ)
        (s : Manager A (W × ℕ))
        → r.state ≡ st
        → Inv s
        → Held r s
        → Post Done (resolve_in accepted st r i symbol m s)
    unfolding resolve_in place_loop
    resolve_in-Post OrderState.filled r i symbol m s e v h = (v, tt)
    resolve_in-Post OrderState.rejected r i symbol m s e v h = (v, tt)
    resolve_in-Post OrderState.placing r i symbol m s e v h =
        retry-Post (m - r.attempts) i symbol m r s v h (ap landed e)
    resolve_in-Post _ r i symbol m s e v h =
        tried-Post (place_loop accepted i symbol m) r symbol s
          (λ q. retry-Post (m - q.attempts) i symbol m q) v h

    submit-Post :
        (i : Intent A) (id symbol : String) (m : ℕ) (s : Manager A (W × ℕ))
        → Inv s
        → Post Done (submit accepted i id symbol m s)
    unfolding submit persist
    submit-Post i id symbol m s v = elim (Option-cases (lookup id s.orders)) [
      | inl e ↦
          let fresh = new_record i id symbol in
          let s' = (persist fresh OrderState.placing s).1 in
          let w =
            write-Inv fresh s s' (beside fresh s v) refl
              (ground (arith, landed_at-insert o fresh s.orders, eq_iff id o, v.once)) in
          rw (e, known) (resolve_in-Post OrderState.placing fresh i symbol m s' refl w.0 w.1)
      | inr (r, e) ↦
          let own = v.keyed id r e in
          rw (e, known)
            (resolve_in-Post r.state r i symbol m s refl v
              (subst (λ (x : String). lookup x s.orders ≡ some r) (sym own) e))
    ]

    -- Recovery writes no state but that of a landed order.
    reconciled-Post :
        (r : OrderRecord A) (symbol : String) (s : Manager A (W × ℕ))
        → Inv s
        → Post Done (try_fill accepted r symbol s)
    unfolding try_fill set persist
    reconciled-Post r symbol s v = go reply.0
      where
        reply : Result Raised (Reconciled A) × W
        reply = ex.reconcile (handle r) (or_else symbol r.symbol) s.venue.0

        s' : Manager A (W × ℕ)
        s' = record s { venue = (reply.1, s.venue.1) }

        v' : Inv s'
        v' = record { keyed = v.keyed; once = v.once }

        go : (x : Result Raised (Reconciled A)) → Post Done ((or_raise x >>= settled accepted r) s')
        go (ok (filled f)) =
            ((set-landed-Post (record r { fill = some f }) OrderState.filled "" s' refl v').0, tt)
        go (ok unfilled) = (v', tt)
        go (err e) = v'

    rests_recovered-Post :
        (p : OrderRecord A × Bool) (s : Manager A (W × ℕ))
        → Inv s
        → Post Done ((rests_recovered accepted p >>= λ q. pure (outcome q ∷ [])) s)
    unfolding set persist
    rests_recovered-Post (r, found) s v = elim (Bool-cases (not found && is_some r.oid)) [
      | inl e ↦ rw e ((set-landed-Post r OrderState.resting "resting (recovered)" s refl v).0, tt)
      | inr e ↦ rw e (v, tt)
    ]

    recover_one-Post :
        (symbol_of : Dict String) (k : String) (r : OrderRecord A) (s : Manager A (W × ℕ))
        → Inv s
        → Post Done (recover_one accepted symbol_of k r s)
    unfolding recover_one
    recover_one-Post symbol_of k r s v = elim (Bool-cases (is_terminal r.state)) [
      | inl e ↦ rw e (v, tt)
      | inr e ↦
          let symbol = or_else r.symbol (get_or k "" symbol_of) in
          rw e (
            bind-Post Done Done (λ p. rests_recovered accepted p >>= λ q. pure (outcome q ∷ []))
              (try_fill accepted r symbol s) (reconciled-Post r symbol s v)
              (λ p t w _. rests_recovered-Post p t w))
    ]

    recover_all-Post :
        (symbol_of : Dict String) (orders : Orders A) (s : Manager A (W × ℕ))
        → Inv s
        → Post Done (recover_all accepted symbol_of orders s)
    unfolding recover_all
    recover_all-Post symbol_of [] s v = (v, tt)
    recover_all-Post symbol_of ((k, r) ∷ rest) s v =
        bind-Post Done Done
          (λ first. recover_all accepted symbol_of rest >>= λ others. pure (first ++ others))
          (recover_one accepted symbol_of k r s) (recover_one-Post symbol_of k r s v)
          (λ first t w _.
            bind-Post Done Done (λ others. pure (first ++ others))
              (recover_all accepted symbol_of rest t) (recover_all-Post symbol_of rest t w)
              (λ others u x _. (x, tt)))

-- What a client asks of a manager.
pub data Call (A : Type 0) : Type 0 where
  submits : Submission A → Call A
  recovers : Dict String → Call A

module _ {A W : Type 0} (o : String) (ex : TwoPhaseExecutor A W) where
  unfoldable pub called : Call A → Manager A (W × ℕ) → Manager A (W × ℕ)
  called (submits c) s = (submit (accepting o ex) c.intent c.origin_id c.symbol c.max_attempts s).1
  called (recovers symbol_of) s = (recover (accepting o ex) symbol_of s).1

  -- The calls in turn, whether they return or raise.
  unfoldable pub call_all : List (Call A) → Manager A (W × ℕ) → Manager A (W × ℕ)
  call_all [] s = s
  call_all (c ∷ cs) s = call_all cs (called c s)

  called-Inv : (c : Call A) (s : Manager A (W × ℕ)) → Inv o s → Inv o (called c s)
  unfolding called recover
  called-Inv (submits c) s v =
      Post-Inv o _ (submit-Post o ex c.intent c.origin_id c.symbol c.max_attempts s v)
  called-Inv (recovers symbol_of) s v = Post-Inv o _ (recover_all-Post o ex symbol_of s.orders s v)

  call_all-Inv : (cs : List (Call A)) (s : Manager A (W × ℕ)) → Inv o s → Inv o (call_all cs s)
  unfolding call_all
  call_all-Inv [] s v = v
  call_all-Inv (c ∷ cs) s v = call_all-Inv cs (called c s) (called-Inv c s v)

  -- However often orders are submitted to a new manager and recovered, under any ids and with any
  -- attempts, replies and exceptions, the venue answers at most one order under the id `o` with an
  -- acceptance; and once it has, the record of `o` is submitted, resting or filled.
  pub accepted-le-one :
      (cs : List (Call A)) (w : W)
      → let s = call_all cs (new_manager o 0 ex w) in
        (s.venue.1 ≤ 1) × (s.venue.1 ≤ landed_at o s.orders)
  accepted-le-one cs w =
      let start : Inv o (new_manager o 0 ex w) = record {
        keyed = λ k r h. cc;
        once = omega arith;
      } in
      let end = call_all-Inv cs (new_manager o 0 ex w) start in
      (
        omega (arith, end.once, landed-le (lookup o (call_all cs (new_manager o 0 ex w)).orders)),
        end.once,
      )
