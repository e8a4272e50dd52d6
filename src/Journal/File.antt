-- ===== src/Journal/File.antt =====
-- treasuryforge/journal.py over the text of its files: the append-only ledger, and the checkpoint
-- written aside and moved into place.
use treasuryforge.Base.{
  ℕ, zero, suc, ◌≡◌, ◌≢◌, Bool, false, ◌&&◌, ◌||◌, Option, none, some, List, [], ◌∷◌, ◌++◌, map,
  if◌then◌else◌, leb, ◌==◌, is_some, All, take,
}
use mathlib.Core.Option

-- A file's text is the list of its code points.
abbrev pub Text : Type 0
Text = List ℕ

abbrev pub newline : ℕ
newline = 10

-- The white space that `str.strip` takes off: tab to carriage return, the separators, space, and the
-- two of Latin-1.
abbrev pub is_space : ℕ → Bool
is_space c = (leb 9 c && leb c 13) || (leb 28 c && leb c 32) || c == 133 || c == 160

unfoldable pub strip_left : Text → Text
strip_left [] = []
strip_left (c ∷ cs) = if is_space c then strip_left cs else c ∷ cs

abbrev snoc_stripped : ℕ → Text → Text
snoc_stripped c [] = if is_space c then [] else c ∷ []
snoc_stripped c (d ∷ ds) = c ∷ d ∷ ds

unfoldable pub strip_right : Text → Text
strip_right [] = []
strip_right (c ∷ cs) = snoc_stripped c (strip_right cs)

unfoldable pub strip : Text → Text
strip t = strip_right (strip_left t)

-- The `json` module, for one type of values: a parameter with the behaviour that the journal relies
-- on.
pub record Codec (E : Type 0) : Type 0 where
  pub dumps : E → Text
  pub loads : Text → Option E

-- What is written on one line reads back: it holds no line break, has no white space at its ends,
-- and is not empty.
pub record IsJson {E : Type 0} (c : Codec E) : Type 0 where
  pub loads-dumps : (e : E) → c.loads (c.dumps e) ≡ some e
  pub one_line : (e : E) → All (λ b. (b == newline) ≡ false) (c.dumps e)
  pub trimmed : (e : E) → strip (c.dumps e) ≡ c.dumps e
  pub nonempty : (e : E) → c.dumps e ≢ []

abbrev pub cons_head : ℕ → List Text → List Text
cons_head c [] = (c ∷ []) ∷ []
cons_head c (l ∷ ls) = (c ∷ l) ∷ ls

-- `for line in f`, without the line breaks: the last line is what follows the last of them. A text with
-- carriage returns, where Python ends a line too, is not modelled: `json.dumps` escapes them.
unfoldable pub split_lines : Text → List Text
split_lines [] = [] ∷ []
split_lines (c ∷ cs) =
    let rest = split_lines cs in if c == newline then [] ∷ rest else cons_head c rest

module _ {E : Type 0} (c : Codec E) where
  abbrev pub parsed : Text → Option E
  parsed [] = none
  parsed (b ∷ bs) = c.loads (b ∷ bs)

  -- One round of the loop in `read_ledger`: an empty line and one that does not parse are skipped.
  abbrev pub read_line : Text → List E → List E
  read_line line rest = elim (parsed (strip line)) [ none ↦ rest | some e ↦ e ∷ rest ]

  unfoldable pub read_lines : List Text → List E
  read_lines [] = []
  read_lines (l ∷ ls) = read_line l (read_lines ls)

  -- `none` is a ledger file that does not exist.
  unfoldable pub read_ledger : Option Text → List E
  read_ledger none = []
  read_ledger (some t) = read_lines (split_lines t)

  abbrev pub content : Option Text → Text
  content none = []
  content (some t) = t

  -- Opening to append makes the file.
  unfoldable pub append_event : E → Option Text → Option Text
  append_event e f = some (content f ++ c.dumps e ++ newline ∷ [])

  unfoldable pub append_all : List E → Option Text → Option Text
  append_all [] f = f
  append_all (e ∷ es) f = append_all es (append_event e f)

-- The checkpoint file and the temporary file beside it.
pub record Disk : Type 0 where
  pub state_file : Option Text
  pub tmp : Option Text

-- The calls that `checkpoint` makes on the file system, a write being one for each character.
pub data FileOp : Type 0 where
  create : FileOp
  write : ℕ → FileOp
  fsync : FileOp
  replace : FileOp
  remove : FileOp

unfoldable pub perform : FileOp → Disk → Disk
perform create d = record d { tmp = some [] }
perform (write b) d = record d { tmp = Option.map (λ t. t ++ b ∷ []) d.tmp }
perform fsync d = d
perform replace d = elim d.tmp [ none ↦ d | some t ↦ record { state_file = some t; tmp = none } ]
perform remove d = record d { tmp = none }

unfoldable pub perform_all : List FileOp → Disk → Disk
perform_all [] d = d
perform_all (o ∷ os) d = perform_all os (perform o d)

-- The `except` of `checkpoint`.
unfoldable pub clean_up : Disk → Disk
clean_up d = if is_some d.tmp then perform remove d else d

module _ {S : Type 0} (c : Codec S) where
  abbrev pub checkpoint_ops : S → List FileOp
  checkpoint_ops s = create ∷ (map write (c.dumps s) ++ fsync ∷ replace ∷ [])

  -- The first `n` calls of a checkpoint: `n` past the last is a checkpoint that completes.
  unfoldable pub checkpoint_until : ℕ → S → Disk → Disk
  checkpoint_until n s d = perform_all (take n (checkpoint_ops s)) d

  -- A call that raises after `n` others: the handler removes the temporary file and raises again;
  -- but the first call, which makes that file, stands before the `try`.
  unfoldable pub checkpoint_raises : ℕ → S → Disk → Disk
  checkpoint_raises zero s d = d
  checkpoint_raises (suc n) s d = clean_up (checkpoint_until (suc n) s d)

  unfoldable pub checkpoint : S → Disk → Disk
  checkpoint s d = perform_all (checkpoint_ops s) d

  -- `some none` is no checkpoint, `none` the error of `json.load`.
  unfoldable pub load_state : Disk → Option (Option S)
  load_state d = elim d.state_file [ none ↦ some none | some t ↦ Option.map some (c.loads t) ]
