-- ===== src/Shadow/Reopened.antt =====
-- What comes back of the book of treasuryforge/shadow_basis.py from its journal.
use treasuryforge.Base.{
  ◌≡◌, refl, sym, ap, ◌∙◌, Bool, true, false, some, List, [], ◌∷◌, ◌++◌, arith,
}
use treasuryforge.Base.Float.{Float, whole}
use treasuryforge.Journal.{Journal, append_event}
use mathlib.Core.Option
use treasuryforge.Shadow.Basis.{
  BasisAction, enter, hold, exit, flat, BasisSignal, BasisInterval, BasisEvent, basis, other,
  BasisTrack, BasisBook, BasisObservation, holds_position, decide, vetoed, record_interval, stepped,
  observe, observe_all, apply_stored, replay_event, replay, new_track, replayed, new_book,
}

module _ {A : Type 0} ⦃F : Float A⦄ where
  -- A track without its sum of convergences, which a replay takes from rounded returns.
  abbrev pub rounded : BasisTrack A → BasisTrack A
  rounded t = record t { realized_convergence = whole 0 }

  abbrev Decided : BasisSignal A → BasisAction × BasisSignal A → Type 0
  Decided s (a, s') = s' ≡ record s { in_position = holds_position a }

  vetoed-Decided :
      (allowed : Bool) (s : BasisSignal A) (x : BasisAction × BasisSignal A)
      → Decided s x
      → Decided s (vetoed allowed x)
  vetoed-Decided true s (enter, s') h = h
  vetoed-Decided false s (enter, s') h = rw h refl
  vetoed-Decided allowed s (hold, s') h = h
  vetoed-Decided allowed s (exit, s') h = h
  vetoed-Decided allowed s (flat, s') h = h

  decide-Decided : (premium : A) (s : BasisSignal A) → Decided s (decide premium s)
  unfolding decide
  decide-Decided premium s = ground arith

  apply_stored-rounded :
      (a : BasisAction) (rate premium r : A) (t : BasisTrack A)
      → rounded (apply_stored a rate premium r t)
        ≡ rounded (apply_stored a rate premium r (rounded t))
  unfolding apply_stored record_interval
  apply_stored-rounded enter rate premium r t = refl
  apply_stored-rounded hold rate premium r t = refl
  apply_stored-rounded exit rate premium r t = refl
  apply_stored-rounded flat rate premium r t = refl

  replay_event-rounded :
      (e : BasisEvent A) (t u : BasisTrack A)
      → rounded t ≡ rounded u
      → rounded (replay_event e t) ≡ rounded (replay_event e u)
  replay_event-rounded (other kind) t u h = h
  replay_event-rounded (basis i) t u h =
      apply_stored-rounded i.action i.funding i.premium i.r t
      ∙ ap (λ x. rounded (apply_stored i.action i.funding i.premium i.r x)) h
      ∙ sym (apply_stored-rounded i.action i.funding i.premium i.r u)

  stepped-stored :
      (o : BasisObservation A) (a : BasisAction) (s : BasisSignal A) (t : BasisTrack A)
      → Decided t.signal (a, s)
      → let (r, u) = stepped o (a, s) t in
        rounded u ≡ rounded (apply_stored a o.funding_rate o.premium r t)
  unfolding apply_stored record_interval
  stepped-stored o enter s t h = rw h refl
  stepped-stored o hold s t h = rw h refl
  stepped-stored o exit s t h = rw h refl
  stepped-stored o flat s t h = rw h refl

  replay-append :
      (xs ys : List (BasisEvent A)) (t : BasisTrack A)
      → replay (xs ++ ys) t ≡ replay ys (replay xs t)
  unfolding replay
  replay-append [] ys t = refl
  replay-append (x ∷ xs) ys t = replay-append xs ys (replay_event x t)

  observe-stored :
      (o : BasisObservation A) (b : BasisBook A) (j : Journal (BasisEvent A) (BasisTrack A))
      → b.journal ≡ some j
      → (e : BasisEvent A) × ((observe o b).1.journal ≡ some (append_event e j))
        × (rounded (observe o b).1.track ≡ rounded (replay_event e b.track))
  unfolding observe
  observe-stored o b j at =
      let x = vetoed o.allow_entry (decide o.premium b.track.signal) in
      let i : BasisInterval A = record {
        ts = o.ts;
        action = x.0;
        funding = o.funding_rate;
        premium = o.premium;
        r = (stepped o x b.track).0;
      } in
      (
        basis i,
        ap (Option.map (append_event (basis i))) at,
        stepped-stored o x.0 x.1 b.track (
            vetoed-Decided o.allow_entry b.track.signal (decide o.premium b.track.signal)
              (decide-Decided o.premium b.track.signal)),
      )

  reopened_book :
      (s : BasisSignal A) (os : List (BasisObservation A)) (b : BasisBook A)
      (j : Journal (BasisEvent A) (BasisTrack A))
      → b.journal ≡ some j
      → rounded (replay j.ledger (new_track s)) ≡ rounded b.track
      → let b' = observe_all os b in
        (k : Journal (BasisEvent A) (BasisTrack A)) × (b'.journal ≡ some k)
        × (rounded (replay k.ledger (new_track s)) ≡ rounded b'.track)
  unfolding observe_all replay
  reopened_book s [] b j at h = (j, at, h)
  reopened_book s (o ∷ os) b j at h =
      let (e, saved, same) = observe-stored o b j at in
      let before = replay j.ledger (new_track s) in
      reopened_book s os (observe o b).1 (append_event e j) saved (
        ap rounded (replay-append j.ledger (e ∷ []) (new_track s))
        ∙ replay_event-rounded e before b.track h
        ∙ sym same)

  -- A basis book that opens a journal and observes any intervals comes back, all but its sum of
  -- convergences, when a book with the same signal is opened on the journal that it left.
  pub new_book-rounded :
      (s : BasisSignal A) (j : Journal (BasisEvent A) (BasisTrack A))
      (os : List (BasisObservation A))
      → let b = observe_all os (new_book s (some j)) in
        rounded (new_book s b.journal).track ≡ rounded b.track
  unfolding new_book
  new_book-rounded s j os =
      let (k, saved, same) = reopened_book s os (new_book s (some j)) j refl refl in
      ap (λ x. rounded (replayed x (new_track s))) saved ∙ same
