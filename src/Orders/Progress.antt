-- ===== src/Orders/Progress.antt =====
-- That the placing loop of treasuryforge/orders.py ends, and what it ends with.
use treasuryforge.Base.{
  ℕ, zero, suc, ◌+◌, ◌-◌, ◌≤◌, ◌<◌, ◌≡◌, refl, ◌∙◌, inl, inr, Bool, true, false, none, some, String,
  arith, ltb, Bool-cases,
}
use treasuryforge.Base.Dict.{lookup}
use treasuryforge.Base.Result.{Result, ok, err}
use treasuryforge.Types.{Intent, Fill}
use treasuryforge.Bitso.Errors.{Category}
use treasuryforge.Orders.{
  OrderHandle, Raised, TwoPhaseExecutor, OrderState, OrderRecord, Outcome, Manager, Action,
  Reconciled, filled, unfilled, handle, or_else, ◌>>=◌, or_raise, set, persist, placed,
  failed_state, settled, rests_or, unless_rejected, is_unknown, is_rejected, place_once, try_fill,
  retry, place_loop, resolve_in, new_record, submit, bitso_error, value_error,
}

module _ {A W : Type 0} where
  -- Two continuations that agree on what a call returns give the same action.
  bind-eq :
      {B C : Type 0} (f g : B → Action A W C) (p : Result Raised B × Manager A W)
      → ((b : B) (s : Manager A W) → p ≡ (ok b, s) → f b s ≡ g b s)
      → (elim p.0 as (λ _. Result Raised C × Manager A W) [ ok b ↦ f b p.1 | err e ↦ (err e, p.1) ])
        ≡ (elim p.0 as (λ _. Result Raised C × Manager A W) [
          | ok b ↦ g b p.1
          | err e ↦ (err e, p.1)
        ])
  bind-eq f g (ok b, s) h = h b s refl
  bind-eq f g (err e, s) h = refl

  bind-run :
      {B C : Type 0} (f : B → Action A W C) (p : Result Raised B × Manager A W) (b : B)
      (s : Manager A W)
      → p ≡ (ok b, s)
      → (elim p.0 as (λ _. Result Raised C × Manager A W) [ ok b ↦ f b p.1 | err e ↦ (err e, p.1) ])
        ≡ f b s
  bind-run f (ok b', s') b s e = cc
  bind-run f (err x, s') b s e = cc

module _ {A W : Type 0} (ex : TwoPhaseExecutor A W) where
  placed-attempts :
      (r : OrderRecord A) (reply : Result Raised OrderHandle) (s s' : Manager A W)
      (r' : OrderRecord A)
      → placed ex r reply s ≡ (ok r', s')
      → r'.attempts ≡ r.attempts
  unfolding set persist
  placed-attempts r (ok h) s s' r' e = cc
  placed-attempts r (err (bitso_error c text)) s s' r' e = cc
  placed-attempts r (err value_error) s s' r' e = cc

  place_once-attempts :
      (r : OrderRecord A) (i : Intent A) (s s' : Manager A W) (r' : OrderRecord A)
      → place_once ex r i s ≡ (ok r', s')
      → r'.attempts ≡ suc r.attempts
  unfolding place_once
  place_once-attempts r i s s' r' e =
      placed-attempts (record r { attempts = suc r.attempts }) _ _ s' r' e

  settled-attempts :
      (r : OrderRecord A) (reply : Result Raised (Reconciled A)) (s s' : Manager A W)
      (p : OrderRecord A × Bool)
      → (or_raise reply >>= settled ex r) s ≡ (ok p, s')
      → p.0.attempts ≡ r.attempts
  unfolding set persist
  settled-attempts r (ok (filled f)) s s' p e = cc
  settled-attempts r (ok unfilled) s s' p e = cc
  settled-attempts r (err x) s s' p e = cc

  try_fill-attempts :
      (r : OrderRecord A) (symbol : String) (s s' : Manager A W) (p : OrderRecord A × Bool)
      → try_fill ex r symbol s ≡ (ok p, s')
      → p.0.attempts ≡ r.attempts
  unfolding try_fill
  try_fill-attempts r symbol s s' p e = settled-attempts r _ _ s' p e

  rests_or-eq :
      (f g : Action A W (Outcome A)) (p : OrderRecord A × Bool) (s : Manager A W)
      → f s ≡ g s
      → rests_or ex f p s ≡ rests_or ex g p s
  rests_or-eq f g (r, true) s h = refl
  rests_or-eq f g (r, false) s h = elim (Bool-cases (is_unknown ex r.state)) [
    | inl e ↦ rw e h
    | inr e ↦ rw e refl
  ]

  unless_rejected-eq :
      (r : OrderRecord A) (f g : Action A W (Outcome A)) (s : Manager A W)
      → f s ≡ g s
      → unless_rejected ex r f s ≡ unless_rejected ex r g s
  unless_rejected-eq r f g s h = elim (Bool-cases (is_rejected ex r.state)) [
    | inl e ↦ rw e refl
    | inr e ↦ rw e h
  ]

  -- What a round of the loop does after the placing.
  abbrev checked : ℕ → Intent A → String → ℕ → OrderRecord A → Action A W (Outcome A)
  checked fuel i symbol m r =
      try_fill ex r symbol >>= λ tried. rests_or ex (retry ex fuel i symbol m tried.0) tried

  -- Any two amounts of fuel that cover the attempts left give the same run.
  retry-fuel :
      (n k : ℕ) (i : Intent A) (symbol : String) (m : ℕ) (r : OrderRecord A) (s : Manager A W)
      → m ≤ r.attempts + n
      → m ≤ r.attempts + k
      → retry ex n i symbol m r s ≡ retry ex k i symbol m r s
  unfolding retry
  retry-fuel zero zero i symbol m r s h g = refl
  retry-fuel zero (suc k) i symbol m r s h g = ground arith
  retry-fuel (suc n) zero i symbol m r s h g = ground arith
  retry-fuel (suc n) (suc k) i symbol m r s h g = elim (Bool-cases (ltb r.attempts m)) [
    | inr e ↦ rw e refl
    | inl e ↦ rw e (
        bind-eq (λ r'. unless_rejected ex r' (checked n i symbol m r'))
          (λ r'. unless_rejected ex r' (checked k i symbol m r')) (place_once ex r i s)
          (λ r' t placing.
            let one = place_once-attempts r i s t r' placing in
            unless_rejected-eq r' (checked n i symbol m r') (checked k i symbol m r') t (
              bind-eq (λ tried. rests_or ex (retry ex n i symbol m tried.0) tried)
                (λ tried. rests_or ex (retry ex k i symbol m tried.0) tried)
                (try_fill ex r' symbol t)
                (λ p u filling.
                  let same = try_fill-attempts r' symbol t u p filling in
                  rests_or-eq (retry ex n i symbol m p.0) (retry ex k i symbol m p.0) p u (
                    retry-fuel n k i symbol m p.0 u (omega (arith, one, same))
                      (omega (arith, one, same)))))))
  ]

  -- The fuel of the placing loop is enough: with any more of it the loop does the same, so it ends
  -- by its own test and not because the fuel is out.
  pub place_loop-fuel :
      (k : ℕ) (i : Intent A) (symbol : String) (m : ℕ) (r : OrderRecord A) (s : Manager A W)
      → retry ex (m - r.attempts + k) i symbol m r s ≡ place_loop ex i symbol m r s
  unfolding place_loop
  place_loop-fuel k i symbol m r s =
      retry-fuel (m - r.attempts + k) (m - r.attempts) i symbol m r s (omega arith) (omega arith)

  -- The venue under the id `o` times out on the next `n` orders, none of which lands, then accepts
  -- one and reports its fill.
  pub data Settles (i : Intent A) (o : String) (f : Fill A) : ℕ → W → Type 0 where
    fills :
        (w w1 w2 : W) (h : OrderHandle)
        → ex.place_order i o w ≡ (ok h, w1)
        → ((h' : OrderHandle) (symbol : String) → ex.reconcile h' symbol w1 ≡ (ok (filled f), w2))
        → Settles i o f zero w
    times_out :
        (n : ℕ) (w w1 w2 : W) (c : Category) (text : String)
        → ex.place_order i o w ≡ (err (bitso_error c text), w1)
        → failed_state c ≡ OrderState.unknown
        → ((h' : OrderHandle) (symbol : String) → ex.reconcile h' symbol w1 ≡ (ok unfilled, w2))
        → Settles i o f n w2
        → Settles i o f (suc n) w

  abbrev pub Ends : Fill A → String → Result Raised (Outcome A) → Type 0
  Ends f o result =
      result ≡ ok (record { origin_id = o; state = OrderState.filled; fill = some f; reason = "" })

  -- One round of the loop that is not rejected.
  retry_round :
      (fuel : ℕ) (i : Intent A) (symbol : String) (m : ℕ) (r r' : OrderRecord A)
      (p : OrderRecord A × Bool) (s s1 s2 : Manager A W)
      → r.attempts < m
      → place_once ex r i s ≡ (ok r', s1)
      → is_rejected ex r'.state ≡ false
      → try_fill ex r' symbol s1 ≡ (ok p, s2)
      → retry ex (suc fuel) i symbol m r s ≡ rests_or ex (retry ex fuel i symbol m p.0) p s2
  unfolding retry
  retry_round fuel i symbol m r r' p s s1 s2 room placing live filling =
      let open_yet : ltb r.attempts m ≡ true = ground arith in
      rw open_yet (
        bind-run (λ q. unless_rejected ex q (checked fuel i symbol m q)) (place_once ex r i s) r' s1
          placing
        ∙ rw live (
            bind-run (λ tried. rests_or ex (retry ex fuel i symbol m tried.0) tried)
              (try_fill ex r' symbol s1) p s2 filling))

  placing_ok :
      (r : OrderRecord A) (i : Intent A) (s : Manager A W) (h : OrderHandle) (w : W)
      → ex.place_order i r.origin_id s.venue ≡ (ok h, w)
      → let r' = record r {
        attempts = suc r.attempts;
        oid = h.oid;
        book = h.book;
        state = OrderState.submitted;
        reason = "";
      } in
        (s' : Manager A W) × (place_once ex r i s ≡ (ok r', s')) × (s'.venue ≡ w)
  unfolding place_once set persist
  placing_ok r i s h w e = ((place_once ex r i s).1, rw e refl, rw e refl)

  placing_unknown :
      (r : OrderRecord A) (i : Intent A) (s : Manager A W) (c : Category) (text : String) (w : W)
      → ex.place_order i r.origin_id s.venue ≡ (err (bitso_error c text), w)
      → failed_state c ≡ OrderState.unknown
      → let r' = record r {
        attempts = suc r.attempts;
        state = OrderState.unknown;
        reason = text;
      } in
        (s' : Manager A W) × (place_once ex r i s ≡ (ok r', s')) × (s'.venue ≡ w)
  unfolding place_once set persist
  placing_unknown r i s c text w e u = ((place_once ex r i s).1, rw e (rw u refl), rw e refl)

  filling_ok :
      (r : OrderRecord A) (symbol : String) (s : Manager A W) (f : Fill A) (w : W)
      → ex.reconcile (handle r) (or_else symbol r.symbol) s.venue ≡ (ok (filled f), w)
      → let r' = record r { fill = some f; state = OrderState.filled; reason = "" } in
        (s' : Manager A W) × (try_fill ex r symbol s ≡ (ok (r', true), s'))
  unfolding try_fill set persist
  filling_ok r symbol s f w e = ((try_fill ex r symbol s).1, rw e refl)

  filling_none :
      (r : OrderRecord A) (symbol : String) (s : Manager A W) (w : W)
      → ex.reconcile (handle r) (or_else symbol r.symbol) s.venue ≡ (ok unfilled, w)
      → try_fill ex r symbol s ≡ (ok (r, false), record s { venue = w })
  unfolding try_fill
  filling_none r symbol s w e = rw e refl

  retry-Settles :
      (fuel n : ℕ) (i : Intent A) (symbol : String) (m : ℕ) (r : OrderRecord A) (s : Manager A W)
      (f : Fill A) (v : W)
      → n < fuel
      → r.attempts + n < m
      → s.venue ≡ v
      → Settles i r.origin_id f n v
      → Ends f r.origin_id (retry ex fuel i symbol m r s).0
  retry-Settles zero n i symbol m r s f v h g e se = absurd (omega arith)
  retry-Settles (suc fuel) n i symbol m r s f v h g e (fills w w1 w2 hd placing filling) =
      let (s1, one, at) = placing_ok r i s hd w1 (rw e placing) in
      let r' : OrderRecord A = record r {
        attempts = suc r.attempts;
        oid = hd.oid;
        book = hd.book;
        state = OrderState.submitted;
        reason = "";
      } in
      let (s2, two) =
        filling_ok r' symbol s1 f w2 (rw at (filling (handle r') (or_else symbol r'.symbol))) in
      rw (retry_round fuel i symbol m r r' _ s s1 s2 (omega arith) one refl two) refl
  retry-Settles (suc fuel) n i symbol m r s f v h g e
        (times_out k w w1 w2 c text placing u silent se) =
      let (s1, one, at) = placing_unknown r i s c text w1 (rw e placing) u in
      let r' : OrderRecord A = record r {
        attempts = suc r.attempts;
        state = OrderState.unknown;
        reason = text;
      } in
      let two =
        filling_none r' symbol s1 w2 (rw at (silent (handle r') (or_else symbol r'.symbol))) in
      rw
        (retry_round fuel i symbol m r r' (r', false) s s1 (record s1 { venue = w2 }) (omega arith)
          one refl two)
        (retry-Settles fuel k i symbol m r' (record s1 { venue = w2 }) f w2 (omega arith)
          (omega arith) refl se)

  -- A new order reaches its fill: where the venue times out on the next `n` orders, none of which
  -- lands, and then accepts one and reports its fill, a submission that allows more than `n` attempts
  -- returns that fill.
  pub submit-Settles :
      (n : ℕ) (i : Intent A) (o symbol : String) (m : ℕ) (s : Manager A W) (f : Fill A)
      → lookup o s.orders ≡ none
      → n < m
      → Settles i o f n s.venue
      → Ends f o (submit ex i o symbol m s).0
  unfolding submit resolve_in place_loop persist
  submit-Settles n i o symbol m s f fresh room se = rw fresh (
      retry-Settles (m - 0) n i symbol m (new_record i o symbol)
        (persist (new_record i o symbol) OrderState.placing s).1 f s.venue (omega (arith, room))
        (omega (arith, room)) refl se)
