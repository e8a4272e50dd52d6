-- ===== src/Journal/Refinement.antt =====
-- The files of treasuryforge/journal.py as an implementation of the store that its clients see.
use treasuryforge.Base.{
  ℕ, ◌≡◌, refl, sym, ap, ◌∙◌, ◌⊎◌, inl, inr, Option, none, some, List, [], ◌∷◌, ◌++◌,
}
use mathlib.Core.Option
use mathlib.Core.List.{append_assoc, append-nil}
use treasuryforge.Journal.{Journal, empty_journal}
use treasuryforge.Journal
use treasuryforge.Journal.File.{
  Text, Codec, IsJson, newline, Disk, content, read_ledger, read_lines, split_lines, append_event,
  checkpoint, checkpoint_until, checkpoint_raises, load_state, strip, strip_left, strip_right,
}
use treasuryforge.Journal.Recovery.{
  written, read_lines-written, until-atomic, raises-atomic, checkpoint-state_file,
}

-- The two files of a journal.
pub record Files : Type 0 where
  pub ledger_file : Option Text
  pub disk : Disk

-- What happens to a journal: its methods, and a checkpoint that a crash or an exception ends after
-- `n` of its calls on the file system.
pub data JournalOp (E S : Type 0) : Type 0 where
  appends : E → JournalOp E S
  saves : S → JournalOp E S
  crashes : ℕ → S → JournalOp E S
  raises : ℕ → S → JournalOp E S

-- The store's own steps. A checkpoint that does not complete has happened, or it has not.
pub data Step {E S : Type 0} : JournalOp E S → Journal E S → Journal E S → Type 0 where
  appended : (e : E) (j : Journal E S) → Step (appends e) j (Journal.append_event e j)
  saved : (s : S) (j : Journal E S) → Step (saves s) j (Journal.checkpoint s j)
  crash_lost : (n : ℕ) (s : S) (j : Journal E S) → Step (crashes n s) j j
  crash_kept : (n : ℕ) (s : S) (j : Journal E S) → Step (crashes n s) j (Journal.checkpoint s j)
  raise_lost : (n : ℕ) (s : S) (j : Journal E S) → Step (raises n s) j j
  raise_kept : (n : ℕ) (s : S) (j : Journal E S) → Step (raises n s) j (Journal.checkpoint s j)

pub data Steps {E S : Type 0} : List (JournalOp E S) → Journal E S → Journal E S → Type 0 where
  done : (j : Journal E S) → Steps [] j j
  then_ :
      {o : JournalOp E S} {os : List (JournalOp E S)} {j k l : Journal E S}
      → Step o j k
      → Steps os k l
      → Steps (o ∷ os) j l

module _ {E S : Type 0} (events : Codec E) (states : Codec S) where
  pub operate : JournalOp E S → Files → Files
  operate (appends e) f = record f { ledger_file = append_event events e f.ledger_file }
  operate (saves s) f = record f { disk = checkpoint states s f.disk }
  operate (crashes n s) f = record f { disk = checkpoint_until states n s f.disk }
  operate (raises n s) f = record f { disk = checkpoint_raises states n s f.disk }

  pub operate_all : List (JournalOp E S) → Files → Files
  operate_all [] f = f
  operate_all (o ∷ os) f = operate_all os (operate o f)

  module _ (events_json : IsJson events) (states_json : IsJson states) where
    -- The ledger's text is the events, one to a line, and the state file is the state.
    record Refines (f : Files) (j : Journal E S) : Type 0 where
      ledger_text : content events f.ledger_file ≡ written events events_json j.ledger
      state_text : f.disk.state_file ≡ Option.map states.dumps j.state

    written-snoc :
        (es : List E) (e : E)
        → written events events_json (es ++ e ∷ [])
          ≡ written events events_json es ++ events.dumps e ++ newline ∷ []
    unfolding written
    written-snoc [] e = refl
    written-snoc (x ∷ es) e = rw (written-snoc es e) (simp append_assoc)

    -- A checkpoint that was cut short left the old state file or the new one.
    either_step :
        (d : Disk) (s : S) (f : Files) (j : Journal E S)
        → Refines f j
        → (d.state_file ≡ f.disk.state_file) ⊎ (d.state_file ≡ some (states.dumps s))
        → Refines (record f { disk = d }) j
          ⊎ Refines (record f { disk = d }) (Journal.checkpoint s j)
    either_step d s f j r (inl e) =
        inl (record { ledger_text = r.ledger_text; state_text = e ∙ r.state_text })
    either_step d s f j r (inr e) = inr (record { ledger_text = r.ledger_text; state_text = e })

    operate-Refines :
        (o : JournalOp E S) (f : Files) (j : Journal E S)
        → Refines f j
        → (k : Journal E S) × Step o j k × Refines (operate o f) k
    unfolding operate append_event
    operate-Refines (appends e) f j r = (
      Journal.append_event e j,
      appended e j,
      record {
        ledger_text = rw (written-snoc j.ledger e, r.ledger_text) refl;
        state_text = r.state_text;
      },
    )
    operate-Refines (saves s) f j r = (
      Journal.checkpoint s j,
      saved s j,
      record {
        ledger_text = r.ledger_text;
        state_text = checkpoint-state_file states states_json s f.disk;
      },
    )
    operate-Refines (crashes n s) f j r =
        elim (either_step (checkpoint_until states n s f.disk) s f j r
          (until-atomic states states_json n s f.disk)) [
            | inl lost ↦ (j, crash_lost n s j, lost)
            | inr kept ↦ (Journal.checkpoint s j, crash_kept n s j, kept)
          ]
    operate-Refines (raises n s) f j r =
        elim (either_step (checkpoint_raises states n s f.disk) s f j r
          (raises-atomic states states_json n s f.disk)) [
            | inl lost ↦ (j, raise_lost n s j, lost)
            | inr kept ↦ (Journal.checkpoint s j, raise_kept n s j, kept)
          ]

    operate_all-Refines :
        (os : List (JournalOp E S)) (f : Files) (j : Journal E S)
        → Refines f j
        → (k : Journal E S) × Steps os j k × Refines (operate_all os f) k
    unfolding operate_all
    operate_all-Refines [] f j r = (j, done j, r)
    operate_all-Refines (o ∷ os) f j r =
        let (k, one, here) = operate-Refines o f j r in
        let (l, rest, end) = operate_all-Refines os (operate o f) k here in (l, then_ one rest, end)

    read_content :
        (file : Option Text)
        → read_ledger events file ≡ read_lines events (split_lines (content events file))
    unfolding read_ledger read_lines split_lines strip strip_left strip_right
    read_content none = refl
    read_content (some t) = refl

    read_lines-written_all :
        (es : List E) → read_lines events (split_lines (written events events_json es)) ≡ es
    unfolding read_lines split_lines strip strip_left strip_right
    read_lines-written_all es =
        ap (λ (t : Text). read_lines events (split_lines t))
          (sym (append-nil (written events events_json es)))
        ∙ read_lines-written events events_json es []
        ∙ append-nil es

    Refines-reads :
        (f : Files) (j : Journal E S)
        → Refines f j
        → (read_ledger events f.ledger_file ≡ j.ledger) × (load_state states f.disk ≡ some j.state)
    unfolding load_state
    Refines-reads f j r = (read_back, loads j.state r.state_text)
      where
        read_back : read_ledger events f.ledger_file ≡ j.ledger
        read_back =
            read_content f.ledger_file
            ∙ ap (λ (t : Text). read_lines events (split_lines t)) r.ledger_text
            ∙ read_lines-written_all j.ledger

        loads :
            (s : Option S)
            → f.disk.state_file ≡ Option.map states.dumps s
            → load_state states f.disk ≡ some s
        loads none e = rw e refl
        loads (some s) e = rw e (ap (Option.map some) (states_json.loads-dumps s))

    -- Whatever happens to a new journal, appends, checkpoints, and checkpoints that a crash or an
    -- exception ends early, the store can make the same steps, in which each checkpoint that did not
    -- complete has happened whole or not at all; and what the two files then read back as is the
    -- store's ledger and its last checkpoint.
    pub operate_all-reads :
        (os : List (JournalOp E S))
        → let f =
            operate_all os
              (record { ledger_file = none; disk = record { state_file = none; tmp = none } }) in
          (j : Journal E S) × Steps os empty_journal j
          × (read_ledger events f.ledger_file ≡ j.ledger)
          × (load_state states f.disk ≡ some j.state)
    unfolding written
    operate_all-reads os =
        let new : Files = record {
          ledger_file = none;
          disk = record { state_file = none; tmp = none };
        } in
        let start : Refines new empty_journal = record { ledger_text = refl; state_text = refl } in
        let (j, steps, end) = operate_all-Refines os new empty_journal start in
        let (ledger, state) = Refines-reads (operate_all os new) j end in (j, steps, ledger, state)
