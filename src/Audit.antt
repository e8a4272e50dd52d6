-- ===== src/Audit.antt =====
-- treasuryforge/audit.py: the log whose records are chained by keyed hashes. The hash of the previous
-- hash and an entry, under the log's key, is a parameter, as is the comparison of hashes; an entry is
-- its canonical text. The file is its lines, `none` where there is no file.
pub mod Tampering
use treasuryforge.Base.{
  ℕ, zero, suc, ◌+◌, ◌-◌, ◌*◌, ◌≤◌, ◌<◌, ◌≡◌, ◌≢◌, refl, sym, subst, ap, ◌∙◌, ◌↔◌, ◌⊎◌, inl, inr,
  Bool, true, false, not, ◌&&◌, ◌||◌, Option, none, some, List, [], ◌∷◌, ◌++◌, map, String, str_eq,
  eq_iff, eq_refl, arith, if◌then◌else◌, ltb, leb, ◌==◌, Bool-cases, Option-cases, is_some, length,
  length-append, all, any, keep, All, All-append, contains, take,
}

-- The keys of a line that `json.loads` reads as a dict, each `none` where it is missing.
pub record Sealed (H : Type 0) : Type 0 where
  pub prev : Option H
  pub entry : Option String
  pub hmac : Option H

-- A line that is empty once stripped, one that does not parse, and one that does.
pub data Line (H : Type 0) : Type 0 where
  blank : Line H
  unreadable : Line H
  sealed : Sealed H → Line H

pub record AuditLog (H : Type 0) : Type 0 where
  pub lines : Option (List (Line H))
  pub prev : H

-- The lines of a file, of which a missing one has none.
abbrev pub lines_of : {H : Type 0} → Option (List (Line H)) → List (Line H)
lines_of none = []
lines_of (some ls) = ls

module _ {H : Type 0} (mac : H → String → H) (same : H → H → Bool) where
  -- `record`: the new hash, and the log with a line more.
  unfoldable pub append_record : String → AuditLog H → H × AuditLog H
  append_record entry log =
      let m = mac log.prev entry in
      let line = sealed (record { prev = some log.prev; entry = some entry; hmac = some m }) in
      (m, record { lines = some (lines_of log.lines ++ line ∷ []); prev = m })

  unfoldable pub record_all : List String → AuditLog H → AuditLog H
  record_all [] log = log
  record_all (e ∷ es) log = record_all es (append_record e log).1

  -- `compare_digest` and `!=`, of what may be missing.
  abbrev pub matches : H → Option H → Bool
  matches h none = false
  matches h (some k) = same h k

  -- One line's test: an exception, or whether the chain holds there and with which hash it goes on.
  abbrev checked : H → Line H → Option (Bool × H)
  checked prev blank = some (true, prev)
  checked prev unreadable = none
  checked prev (sealed r) =
      if not (matches prev r.prev)
      then some (false, prev)
      else elim r.entry [ none ↦ none | some e ↦ some (matches (mac prev e) r.hmac, mac prev e) ]

  -- The loop of `verify_chain`: `none` is an exception.
  unfoldable pub verify_lines : H → List (Line H) → Option Bool
  verify_lines prev [] = some true
  verify_lines prev (l ∷ ls) = elim (checked prev l) [
    | none ↦ none
    | some (holds, next) ↦ let rest = verify_lines next ls in if holds then rest else some false
  ]

  unfoldable pub verify_chain : Option (List (Line H)) → H → Option Bool
  verify_chain file genesis = verify_lines genesis (lines_of file)
