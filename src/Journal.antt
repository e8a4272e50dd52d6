-- ===== src/Journal.antt =====
-- treasuryforge/journal.py as its clients see it: a ledger that only grows and the last checkpoint.
-- Journal/File is the code itself over the texts of the two files.
pub mod File
pub mod Recovery
pub mod Refinement
use treasuryforge.Base.{Option, none, some, List, [], ◌∷◌, ◌++◌}

pub record Journal (E S : Type 0) : Type 0 where
  pub ledger : List E
  pub state : Option S

abbrev pub append_event : {E S : Type 0} → E → Journal E S → Journal E S
append_event e j = record j { ledger = j.ledger ++ e ∷ [] }

abbrev pub checkpoint : {E S : Type 0} → S → Journal E S → Journal E S
checkpoint s j = record j { state = some s }

abbrev pub empty_journal : {E S : Type 0} → Journal E S
empty_journal = record { ledger = []; state = none }
