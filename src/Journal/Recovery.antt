-- ===== src/Journal/Recovery.antt =====
-- What a restart reads from the files of treasuryforge/journal.py, after a clean stop and a crash.
use treasuryforge.Base.{
  ℕ, zero, suc, ◌≡◌, ◌≢◌, refl, sym, ap, ◌∙◌, ◌⊎◌, inl, inr, false, Option, none, some, List, [],
  ◌∷◌, ◌++◌, map, arith, ◌==◌, All, All-append, take,
}
use mathlib.Core.List.{append_assoc, append-nil}
use mathlib.Core.Option
use treasuryforge.Journal.File.{
  Text, newline, strip, strip_left, strip_right, clean_up, Codec, IsJson, split_lines, parsed,
  read_lines, read_ledger, content, append_event, append_all, Disk, FileOp, perform, perform_all,
  checkpoint_until, checkpoint_raises, checkpoint, load_state,
}

-- A text with no line break in it.
abbrev pub OneLine : Text → Type 0
OneLine = All (λ b. (b == newline) ≡ false)

split_lines-line :
    (line rest : Text)
    → OneLine line
    → split_lines (line ++ newline ∷ rest) ≡ line ∷ split_lines rest
unfolding split_lines
split_lines-line [] rest h = refl
split_lines-line (c ∷ cs) rest h = rw (h.0, split_lines-line cs rest h.1)

split_lines_tail : (line : Text) → OneLine line → split_lines line ≡ line ∷ []
unfolding split_lines
split_lines_tail [] h = refl
split_lines_tail (c ∷ cs) h = rw (h.0, split_lines_tail cs h.1)

OneLine-append : (s t : Text) → OneLine s → OneLine t → OneLine (s ++ t)
OneLine-append s t h k = All-append (λ b. (b == newline) ≡ false) s t h k

module _ {E : Type 0} (c : Codec E) (json : IsJson c) where
  parsed_text : (t : Text) → t ≢ [] → parsed c t ≡ c.loads t
  parsed_text [] h = absurd (h refl)
  parsed_text (b ∷ bs) h = refl

  parsed-dumps : (e : E) → parsed c (strip (c.dumps e)) ≡ some e
  parsed-dumps e =
      rw (json.trimmed e) (parsed_text (c.dumps e) (json.nonempty e) ∙ json.loads-dumps e)

  read_line_some :
      (line : Text) (ls : List Text) (e : E)
      → parsed c (strip line) ≡ some e
      → read_lines c (line ∷ ls) ≡ e ∷ read_lines c ls
  unfolding read_lines
  read_line_some line ls e h = ground arith

  read_line_none :
      (line : Text) (ls : List Text)
      → parsed c (strip line) ≡ none
      → read_lines c (line ∷ ls) ≡ read_lines c ls
  unfolding read_lines
  read_line_none line ls h = ground arith

  -- The text that the events make, each on a line of its own.
  unfoldable pub written : List E → Text
  written [] = []
  written (e ∷ es) = c.dumps e ++ newline ∷ written es

  pub content-append_all :
      (es : List E) (f : Option Text) → content c (append_all c es f) ≡ content c f ++ written es
  unfolding append_all append_event written
  content-append_all [] f = sym (append-nil (content c f))
  content-append_all (e ∷ es) f =
      content-append_all es (some (content c f ++ c.dumps e ++ newline ∷ [])) ∙ simp append_assoc

  pub read_lines-written :
      (es : List E) (rest : Text)
      → read_lines c (split_lines (written es ++ rest)) ≡ es ++ read_lines c (split_lines rest)
  unfolding written
  read_lines-written [] rest = refl
  read_lines-written (e ∷ es) rest = rw (append_assoc (c.dumps e) (newline ∷ written es) rest) (
      rw (split_lines-line (c.dumps e) (written es ++ rest) (json.one_line e)) (
        read_line_some (c.dumps e) _ e (parsed-dumps e)
        ∙ ap (λ (xs : List E). e ∷ xs) (read_lines-written es rest)))

  -- A last line that does not parse, or is blank, is dropped, and nothing else is: the events that
  -- were appended come back in order.
  pub read_ledger_torn :
      (es : List E) (torn : Text)
      → OneLine torn
      → parsed c (strip torn) ≡ none
      → read_ledger c (some (content c (append_all c es none) ++ torn)) ≡ es
  unfolding read_ledger read_lines
  read_ledger_torn es torn h bad = rw (content-append_all es none) (
      read_lines-written es torn
      ∙ rw (split_lines_tail torn h)
          (ap (λ (xs : List E). es ++ xs) (read_line_none torn [] bad) ∙ append-nil es))

  -- An event that is appended behind a torn line shares that line, and is lost with it when the
  -- joined text does not parse.
  pub append_event_torn :
      (es : List E) (torn : Text) (e : E)
      → OneLine torn
      → parsed c (strip (torn ++ c.dumps e)) ≡ none
      → read_ledger c (append_event c e (some (content c (append_all c es none) ++ torn))) ≡ es
  unfolding read_ledger read_lines append_event split_lines strip strip_left strip_right
  append_event_torn es torn e h bad =
      rw (content-append_all es none)
        (simp append_assoc (read_lines-written es (torn ++ (c.dumps e ++ newline ∷ [])) ∙ joined))
    where
      line : Text
      line = torn ++ c.dumps e

      blank : read_lines c (split_lines []) ≡ []
      blank = refl

      joined : es ++ read_lines c (split_lines (torn ++ (c.dumps e ++ newline ∷ []))) ≡ es
      joined = rw (← append_assoc torn (c.dumps e) (newline ∷ [])) (
          rw (split_lines-line line [] (OneLine-append torn (c.dumps e) h (json.one_line e))) (
            ap (λ (xs : List E). es ++ xs) (read_line_none line (split_lines []) bad ∙ blank)
            ∙ append-nil es))

pub clean_up_lem : (d : Disk) → ((clean_up d).state_file ≡ d.state_file) × ((clean_up d).tmp ≡ none)
unfolding clean_up perform
clean_up_lem d = ground arith

module _ {S : Type 0} (c : Codec S) (json : IsJson c) where
  -- The file that `checkpoint` has written when `replace` has been made.
  writes-atomic :
      (n : ℕ) (bs acc : Text) (old : Option Text)
      → let d =
          perform_all
            (take n (map FileOp.write bs ++ FileOp.fsync ∷ FileOp.replace ∷ []))
            (record { state_file = old; tmp = some acc }) in
        (d.state_file ≡ old) ⊎ (d.state_file ≡ some (acc ++ bs))
  unfolding perform perform_all
  writes-atomic zero bs acc old = inl refl
  writes-atomic (suc zero) [] acc old = inl refl
  writes-atomic (suc (suc zero)) [] acc old = inr (rw (append-nil acc))
  writes-atomic (suc (suc (suc n))) [] acc old = inr (rw (append-nil acc))
  writes-atomic (suc n) (b ∷ bs) acc old =
      rw (← append_assoc acc (b ∷ []) bs) (writes-atomic n bs (acc ++ b ∷ []) old)

  writes_all :
      (bs acc : Text) (old : Option Text)
      → perform_all
          (map FileOp.write bs ++ FileOp.fsync ∷ FileOp.replace ∷ [])
          (record { state_file = old; tmp = some acc })
        ≡ record { state_file = some (acc ++ bs); tmp = none }
  unfolding perform perform_all
  writes_all [] acc old = rw (append-nil acc)
  writes_all (b ∷ bs) acc old =
      rw (← append_assoc acc (b ∷ []) bs) (writes_all bs (acc ++ b ∷ []) old)

  pub until-atomic :
      (n : ℕ) (s : S) (d : Disk)
      → let d' = checkpoint_until c n s d in
        (d'.state_file ≡ d.state_file) ⊎ (d'.state_file ≡ some (c.dumps s))
  unfolding checkpoint_until perform perform_all
  until-atomic zero s d = inl refl
  until-atomic (suc n) s d = writes-atomic n (c.dumps s) [] d.state_file

  loads_either :
      (s : S) (d d' : Disk)
      → (d'.state_file ≡ d.state_file) ⊎ (d'.state_file ≡ some (c.dumps s))
      → (load_state c d' ≡ load_state c d) ⊎ (load_state c d' ≡ some (some s))
  unfolding load_state
  loads_either s d d' (inl e) = inl (rw e)
  loads_either s d d' (inr e) = inr (rw e (ap (Option.map some) (json.loads-dumps s)))

  pub checkpoint-state_file : (s : S) (d : Disk) → (checkpoint c s d).state_file ≡ some (c.dumps s)
  unfolding checkpoint perform perform_all
  checkpoint-state_file s d = rw (writes_all (c.dumps s) [] d.state_file) refl

  completes : (s : S) (d : Disk) → load_state c (checkpoint c s d) ≡ some (some s)
  unfolding load_state checkpoint perform perform_all
  completes s d =
      rw (writes_all (c.dumps s) [] d.state_file) (ap (Option.map some) (json.loads-dumps s))

  pub raises-atomic :
      (n : ℕ) (s : S) (d : Disk)
      → let d' = checkpoint_raises c n s d in
        (d'.state_file ≡ d.state_file) ⊎ (d'.state_file ≡ some (c.dumps s))
  unfolding checkpoint_raises
  raises-atomic zero s d = inl refl
  raises-atomic (suc n) s d =
      rw (clean_up_lem (checkpoint_until c (suc n) s d)).0 (until-atomic (suc n) s d)

  -- Wherever a crash or an exception stops a checkpoint, a restart loads the old state or the new one
  -- whole, never an error or a mixture; a checkpoint that completes loads as the new state.
  pub checkpoint-atomic :
      (n : ℕ) (s : S) (d : Disk)
      → ((load_state c (checkpoint_until c n s d) ≡ load_state c d)
          ⊎ (load_state c (checkpoint_until c n s d) ≡ some (some s)))
        × ((load_state c (checkpoint_raises c n s d) ≡ load_state c d)
            ⊎ (load_state c (checkpoint_raises c n s d) ≡ some (some s)))
        × (load_state c (checkpoint c s d) ≡ some (some s))
  checkpoint-atomic n s d = (
    loads_either s d (checkpoint_until c n s d) (until-atomic n s d),
    loads_either s d (checkpoint_raises c n s d) (raises-atomic n s d),
    completes s d,
  )
