-- ===== src/Shadow/Replay.antt =====
-- That the book of treasuryforge/shadow.py comes back from its journal.
use treasuryforge.Base.{
  ◌≡◌, refl, sym, ap, ◌∙◌, Bool, true, false, some, List, [], ◌∷◌, ◌++◌, arith,
}
use treasuryforge.Base.Float.{Float}
use mathlib.Core.Option
use treasuryforge.Journal.{Journal, append_event}
use treasuryforge.Shadow.{
  Action, enter, hold, exit, flat, FundingCarrySignal, Interval, ShadowEvent, shadow, Track,
  ShadowBook, Observation, advance_age, decide, apply, vetoed, interval_of, observe, observe_all,
  holds_position, replay_event, replay, new_track, new_book, replayed,
}

module _ {A : Type 0} ⦃F : Float A⦄ where
  replay-append :
      (xs ys : List (ShadowEvent A)) (t : Track A) → replay (xs ++ ys) t ≡ replay ys (replay xs t)
  unfolding replay
  replay-append [] ys t = refl
  replay-append (x ∷ xs) ys t = replay-append xs ys (replay_event x t)

  -- A decision changes nothing of the signal but its age and its position, which is then the one that
  -- the action stands for.
  abbrev Decided : FundingCarrySignal A → Action × FundingCarrySignal A → Type 0
  Decided s (a, s') = s' ≡ record s { in_position = holds_position a; age = s'.age }

  vetoed-Decided :
      (allowed : Bool) (s : FundingCarrySignal A) (x : Action × FundingCarrySignal A)
      → Decided s x
      → Decided s (vetoed allowed x)
  vetoed-Decided true s (enter, s') h = h
  vetoed-Decided false s (enter, s') h = rw h refl
  vetoed-Decided allowed s (hold, s') h = h
  vetoed-Decided allowed s (exit, s') h = h
  vetoed-Decided allowed s (flat, s') h = h

  decide-Decided : (rate : A) (s : FundingCarrySignal A) → Decided s (decide rate s)
  unfolding decide advance_age
  decide-Decided rate s = ground arith

  apply-Decided :
      (a : Action) (s : FundingCarrySignal A) (rate r : A) (t : Track A)
      → Decided t.signal (a, s)
      → apply a rate r (record t { signal = s }) ≡ (
          let u = apply a rate r t in
          record u { signal = record (u.signal) { in_position = holds_position a; age = s.age } })
  unfolding apply
  apply-Decided enter s rate r t h = rw h refl
  apply-Decided hold s rate r t h = rw h refl
  apply-Decided exit s rate r t h = rw h refl
  apply-Decided flat s rate r t h = rw h refl

  replay_event-observe :
      (o : Observation A) (b : ShadowBook A) (j : Journal (ShadowEvent A) (Track A))
      → b.journal ≡ some j
      → (i : Interval A) × ((observe o b).1.journal ≡ some (append_event (shadow i) j))
        × ((observe o b).1.track ≡ replay_event (shadow i) b.track)
  unfolding observe replay_event
  replay_event-observe o b j e =
      let x = vetoed o.allow_entry (decide o.funding_rate b.track.signal) in
      let i = interval_of o x.0 x.1 in
      (
        i,
        ap (Option.map (append_event (shadow i))) e,
        apply-Decided x.0 x.1 o.funding_rate i.r b.track (
            vetoed-Decided o.allow_entry b.track.signal (decide o.funding_rate b.track.signal)
              (decide-Decided o.funding_rate b.track.signal)),
      )

  -- The ledger that a book has written replays to the book: whatever journal it opened with, and
  -- whatever it has observed since.
  replayed_book :
      (s : FundingCarrySignal A) (os : List (Observation A)) (b : ShadowBook A)
      (j : Journal (ShadowEvent A) (Track A))
      → b.journal ≡ some j
      → replay j.ledger (new_track s) ≡ b.track
      → let b' = observe_all os b in
        (k : Journal (ShadowEvent A) (Track A)) × (b'.journal ≡ some k)
        × (replay k.ledger (new_track s) ≡ b'.track)
  unfolding observe_all replay
  replayed_book s [] b j e h = (j, e, h)
  replayed_book s (o ∷ os) b j e h =
      let (i, saved, same) = replay_event-observe o b j e in
      replayed_book s os (observe o b).1 (append_event (shadow i) j) saved (
        replay-append j.ledger (shadow i ∷ []) (new_track s)
        ∙ ap (replay_event (shadow i)) h
        ∙ sym same)

  -- A book that opens a journal and observes any intervals comes back, track and journal, when a book
  -- with the same signal is opened on the journal that it left.
  pub new_book-observe_all :
      (s : FundingCarrySignal A) (j : Journal (ShadowEvent A) (Track A)) (os : List (Observation A))
      → let b = observe_all os (new_book s (some j)) in new_book s b.journal ≡ b
  unfolding new_book
  new_book-observe_all s j os =
      let (k, saved, same) = replayed_book s os (new_book s (some j)) j refl refl in
      let track = ap (λ x. replayed x (new_track s)) saved ∙ same in
      let b = observe_all os (new_book s (some j)) in
      λ i. record { track = track i; journal = b.journal }
