-- ===== src/Orders/VenueInvariant.antt =====
-- What the manager of treasuryforge/orders.py keeps of the state of its venue: whatever placing an
-- order and reconciling one keep.
use treasuryforge.Base.{
  ℕ, zero, suc, ◌-◌, inl, inr, Bool, true, false, not, ◌&&◌, [], ◌∷◌, ◌++◌, String, ltb, Bool-cases,
  Option-cases, is_some,
}
use treasuryforge.Base.Dict.{Dict, lookup, get_or}
use treasuryforge.Base.Result.{Result, ok, err}
use treasuryforge.Types.{Intent}
use treasuryforge.Orders.{
  OrderHandle, Raised, TwoPhaseExecutor, OrderState, OrderRecord, Outcome, Orders, Manager, Action,
  Reconciled, filled, unfilled, handle, or_else, ◌>>=◌, pure, or_raise, is_terminal, set, persist,
  placed, failed_state, settled, rests_or, unless_rejected, is_unknown, is_rejected, place_once,
  try_fill, retry, place_loop, resolve_in, known, new_record, submit, rests_recovered, recover_one,
  recover_all, recover, bitso_error, value_error, outcome,
}

module _ {A W : Type 0} (P : W → Type 0) where
  -- The venue has `P` after a call, returned or raised.
  abbrev Post : {B : Type 0} → Result Raised B × Manager A W → Type 0
  Post p = P p.1.venue

  bind-Post :
      {B C : Type 0} (f : B → Action A W C) (p : Result Raised B × Manager A W)
      → Post p
      → ((b : B) (s : Manager A W) → P s.venue → Post (f b s))
      → Post (elim p.0 as (λ _. Result Raised C × Manager A W) [
        | ok b ↦ f b p.1
        | err e ↦ (err e, p.1)
      ])
  bind-Post f (ok b, s) h k = k b s h
  bind-Post f (err e, s) h k = h

  module _ (ex : TwoPhaseExecutor A W) where
    -- Each call of the venue keeps `P`.
    pub record Keeps : Type 0 where
      pub placing : (i : Intent A) (id : String) (w : W) → P w → P (ex.place_order i id w).1
      pub reconciling :
          (h : OrderHandle) (symbol : String) (w : W) → P w → P (ex.reconcile h symbol w).1

    module _ (keeps : Keeps) where
      set-Post :
          (r : OrderRecord A) (st : OrderState) (why : String) (s : Manager A W)
          → P s.venue
          → Post (set r st why s)
      unfolding set persist
      set-Post r st why s v = v

      placed-Post :
          (r : OrderRecord A) (reply : Result Raised OrderHandle) (s : Manager A W)
          → P s.venue
          → Post (placed ex r reply s)
      placed-Post r (ok h) s v =
          set-Post (record r { oid = h.oid; book = h.book }) OrderState.submitted "" s v
      placed-Post r (err (bitso_error c text)) s v = set-Post r (failed_state c) text s v
      placed-Post r (err value_error) s v = v

      place_once-Post :
          (r : OrderRecord A) (i : Intent A) (s : Manager A W)
          → P s.venue
          → Post (place_once ex r i s)
      unfolding place_once
      place_once-Post r i s v =
          let reply = ex.place_order i r.origin_id s.venue in
          placed-Post (record r { attempts = suc r.attempts }) reply.0 _
            (keeps.placing i r.origin_id s.venue v)

      settled-Post :
          (r : OrderRecord A) (reply : Result Raised (Reconciled A)) (s : Manager A W)
          → P s.venue
          → Post ((or_raise reply >>= settled ex r) s)
      unfolding set persist
      settled-Post r (ok (filled f)) s v = v
      settled-Post r (ok unfilled) s v = v
      settled-Post r (err e) s v = v

      try_fill-Post :
          (r : OrderRecord A) (symbol : String) (s : Manager A W)
          → P s.venue
          → Post (try_fill ex r symbol s)
      unfolding try_fill
      try_fill-Post r symbol s v =
          settled-Post r (ex.reconcile (handle r) (or_else symbol r.symbol) s.venue).0 _
            (keeps.reconciling (handle r) (or_else symbol r.symbol) s.venue v)

      abbrev Again : (OrderRecord A → Action A W (Outcome A)) → Type 0
      Again again = (r : OrderRecord A) (s : Manager A W) → P s.venue → Post (again r s)

      rests_or-Post :
          (again : OrderRecord A → Action A W (Outcome A)) (p : OrderRecord A × Bool)
          (s : Manager A W)
          → Again again
          → P s.venue
          → Post (rests_or ex (again p.0) p s)
      unfolding set persist
      rests_or-Post again (r, true) s rec v = v
      rests_or-Post again (r, false) s rec v = elim (Bool-cases (is_unknown ex r.state)) [
        | inl e ↦ rw e (rec r s v)
        | inr e ↦ rw e v
      ]

      tried-Post :
          (again : OrderRecord A → Action A W (Outcome A)) (r : OrderRecord A) (symbol : String)
          (s : Manager A W)
          → Again again
          → P s.venue
          → Post ((try_fill ex r symbol >>= λ tried. rests_or ex (again tried.0) tried) s)
      tried-Post again r symbol s rec v =
          bind-Post (λ tried. rests_or ex (again tried.0) tried) (try_fill ex r symbol s)
            (try_fill-Post r symbol s v) (λ p t w. rests_or-Post again p t rec w)

      unless_rejected-Post :
          (again : Action A W (Outcome A)) (r : OrderRecord A) (s : Manager A W)
          → P s.venue
          → Post (again s)
          → Post (unless_rejected ex r again s)
      unless_rejected-Post again r s v k = elim (Bool-cases (is_rejected ex r.state)) [
        | inl e ↦ rw e v
        | inr e ↦ rw e k
      ]

      retry-Post :
          (fuel : ℕ) (i : Intent A) (symbol : String) (m : ℕ) → Again (retry ex fuel i symbol m)
      unfolding retry
      retry-Post zero i symbol m r s v = v
      retry-Post (suc fuel) i symbol m r s v =
          let again = λ (r' : OrderRecord A). try_fill ex r' symbol >>= λ tried.
          rests_or ex (retry ex fuel i symbol m tried.0) tried in
          elim (Bool-cases (ltb r.attempts m)) [
            | inr e ↦ rw e v
            | inl e ↦ rw e (
                bind-Post (λ r'. unless_rejected ex r' (again r')) (place_once ex r i s)
                  (place_once-Post r i s v)
                  (λ r' s' v'. unless_rejected-Post (again r') r' s' v' (
                    tried-Post (retry ex fuel i symbol m) r' symbol s' (retry-Post fuel i symbol m)
                      v')))
          ]

      resolve_in-Post :
          (st : OrderState) (r : OrderRecord A) (i : Intent A) (symbol : String) (m : ℕ)
          (s : Manager A W)
          → P s.venue
          → Post (resolve_in ex st r i symbol m s)
      unfolding resolve_in place_loop
      resolve_in-Post OrderState.filled r i symbol m s v = v
      resolve_in-Post OrderState.rejected r i symbol m s v = v
      resolve_in-Post OrderState.placing r i symbol m s v =
          retry-Post (m - r.attempts) i symbol m r s v
      resolve_in-Post _ r i symbol m s v =
          tried-Post (place_loop ex i symbol m) r symbol s
            (λ q. retry-Post (m - q.attempts) i symbol m q) v

      pub submit-Keeps :
          (i : Intent A) (id symbol : String) (m : ℕ) (s : Manager A W)
          → P s.venue
          → P (submit ex i id symbol m s).1.venue
      unfolding submit persist
      submit-Keeps i id symbol m s v = elim (Option-cases (lookup id s.orders)) [
        | inl e ↦
            let fresh = new_record i id symbol in
            rw (e, known)
              (resolve_in-Post OrderState.placing fresh i symbol m
                (persist fresh OrderState.placing s).1 v)
        | inr (r, e) ↦ rw (e, known) (resolve_in-Post r.state r i symbol m s v)
      ]

      recover_one-Post :
          (symbol_of : Dict String) (k : String) (r : OrderRecord A) (s : Manager A W)
          → P s.venue
          → Post (recover_one ex symbol_of k r s)
      unfolding recover_one set persist
      recover_one-Post symbol_of k r s v = elim (Bool-cases (is_terminal r.state)) [
        | inl e ↦ rw e v
        | inr e ↦
            let symbol = or_else r.symbol (get_or k "" symbol_of) in
            rw e (
              bind-Post (λ p. rests_recovered ex p >>= λ q. pure (outcome q ∷ []))
                (try_fill ex r symbol s) (try_fill-Post r symbol s v)
                (λ p t w. rests_recovered-Post p t w))
      ]
        where
          rests_recovered-Post :
              (p : OrderRecord A × Bool) (t : Manager A W)
              → P t.venue
              → Post ((rests_recovered ex p >>= λ q. pure (outcome q ∷ [])) t)
          rests_recovered-Post (r', found) t w = elim (Bool-cases (not found && is_some r'.oid)) [
            | inl e ↦ rw e w
            | inr e ↦ rw e w
          ]

      recover_all-Post :
          (symbol_of : Dict String) (orders : Orders A) (s : Manager A W)
          → P s.venue
          → Post (recover_all ex symbol_of orders s)
      unfolding recover_all
      recover_all-Post symbol_of [] s v = v
      recover_all-Post symbol_of ((k, r) ∷ rest) s v =
          bind-Post (λ first. recover_all ex symbol_of rest >>= λ others. pure (first ++ others))
            (recover_one ex symbol_of k r s) (recover_one-Post symbol_of k r s v)
            (λ first t w.
              bind-Post (λ others. pure (first ++ others)) (recover_all ex symbol_of rest t)
                (recover_all-Post symbol_of rest t w) (λ others u x. x))

      pub recover-Keeps :
          (symbol_of : Dict String) (s : Manager A W)
          → P s.venue
          → P (recover ex symbol_of s).1.venue
      unfolding recover
      recover-Keeps symbol_of s v = recover_all-Post symbol_of s.orders s v
