-- ===== src/Examples/Files.antt =====
-- Runs of the journal's files, with JSON texts of one number in brackets.
use treasuryforge.Base.{
  ◌≡◌, ◌≢◌, refl, Bool, true, false, ◌&&◌, Option, none, some, List, [], ◌∷◌, ◌++◌, if◌then◌else◌,
  ◌==◌,
}
use treasuryforge.Journal.File.{
  Text, Codec, IsJson, Disk, strip, strip_left, strip_right, content, read_ledger, append_event,
  append_all, load_state,
}
use treasuryforge.Journal.{Journal, empty_journal}
use treasuryforge.Journal.Refinement.{
  JournalOp, appends, saves, crashes, raises, Steps, operate_all, operate_all-reads,
}
use treasuryforge.Journal.Recovery.{OneLine, append_event_torn}

abbrev same : Text → Text → Bool
same [] [] = true
same (x ∷ xs) (y ∷ ys) = x == y && same xs ys
same _ _ = false

-- `[1]` and `[0]`
abbrev flag_text : Bool → Text
flag_text true = 91 ∷ 49 ∷ 93 ∷ []
flag_text false = 91 ∷ 48 ∷ 93 ∷ []

abbrev flag : Text → Option Bool
flag t =
    if same t (flag_text true)
    then some true
    else if same t (flag_text false)
    then some false
    else none

abbrev flags : Codec Bool
flags = record { dumps = flag_text; loads = flag }

flag-flag_text : (e : Bool) → flag (flag_text e) ≡ some e
flag-flag_text true = refl
flag-flag_text false = refl

flag_text-OneLine : (e : Bool) → OneLine (flag_text e)
flag_text-OneLine true = (refl, (refl, (refl, tt)))
flag_text-OneLine false = (refl, (refl, (refl, tt)))

strip-flag_text : (e : Bool) → strip (flag_text e) ≡ flag_text e
unfolding strip strip_left strip_right
strip-flag_text true = refl
strip-flag_text false = refl

flag_text_nonempty : (e : Bool) → flag_text e ≢ []
flag_text_nonempty true h = cc
flag_text_nonempty false h = cc

flags-IsJson : IsJson flags
flags-IsJson = record {
  loads-dumps = flag-flag_text;
  one_line = flag_text-OneLine;
  trimmed = strip-flag_text;
  nonempty = flag_text_nonempty;
}

-- `[1`
abbrev cut_off : Text
cut_off = 91 ∷ 49 ∷ []

lost_event :
    read_ledger flags (
      append_event flags false
        (some (content flags (append_all flags (true ∷ false ∷ []) none) ++ cut_off)))
    ≡ true ∷ false ∷ []
unfolding strip strip_left strip_right
lost_event =
    append_event_torn flags flags-IsJson (true ∷ false ∷ []) cut_off false (refl, (refl, tt)) refl

abbrev disk : Disk
disk = record { state_file = some (flag_text false); tmp = none }

abbrev operations : List (JournalOp Bool Bool)
operations = appends true ∷ saves false ∷ crashes 2 true ∷ appends false ∷ raises 1 true ∷ []

files_refine :
    let f =
      operate_all flags flags operations
        (record { ledger_file = none; disk = record { state_file = none; tmp = none } }) in
    (j : Journal Bool Bool) × Steps operations empty_journal j
    × (read_ledger flags f.ledger_file ≡ j.ledger)
    × (load_state flags f.disk ≡ some j.state)
files_refine = operate_all-reads flags flags flags-IsJson flags-IsJson operations
