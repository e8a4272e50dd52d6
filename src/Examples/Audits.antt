-- ===== src/Examples/Audits.antt =====
-- A log whose hashes are the chains of entries themselves.
use treasuryforge.Base.{
  ℕ, ◌≡◌, refl, subst, ap, inl, inr, Bool, true, false, ◌&&◌, none, some, List, [], ◌∷◌, String,
  str_eq, eq_iff, eq_refl, arith, take,
}
use treasuryforge.Audit.{Line, blank, lines_of, record_all, verify_chain, verify_lines}
use treasuryforge.Audit.Tampering.{
  IsKeyed, hashes, seal_one, entries, verify_chain-record_all, verify_chain-Carries,
}

data Chain : Type 0 where
  genesis : Chain
  link : Chain → String → Chain

abbrev same : Chain → Chain → Bool
same genesis genesis = true
same (link c s) (link d t) = same c d && str_eq s t
same _ _ = false

abbrev before : Chain → Chain
before genesis = genesis
before (link c s) = c

abbrev entry : Chain → String
entry genesis = ""
entry (link c s) = s

same→≡ : (c d : Chain) → same c d ≡ true → c ≡ d
same→≡ genesis genesis h = refl
same→≡ genesis (link d t) h = ground arith
same→≡ (link c s) genesis h = ground arith
same→≡ (link c s) (link d t) h = ground (arith, same→≡ c d, eq_iff s t)

same_self : (c : Chain) → same c c ≡ true
same_self genesis = refl
same_self (link c s) = ground (arith, same_self c, eq_refl s)

chain-IsKeyed : IsKeyed link same genesis
chain-IsKeyed = record {
  prev_of = λ p q s t e. ap before e;
  entry_of = λ p q s t e. ap entry e;
  mac_genesis = λ p s e. cc;
  same_eq = λ p q. (same→≡ p q, λ e. subst (λ c. same p c ≡ true) e (same_self p));
}

abbrev decisions : List String
decisions = "hold" ∷ "buy" ∷ "sell" ∷ []

cut_log :
    let log = record_all link same decisions (record { lines = none; prev = genesis }) in
    (verify_chain link same log.lines genesis ≡ some true)
    × (verify_chain link same (some (take 2 (lines_of log.lines))) genesis ≡ some true)
cut_log = verify_chain-record_all link same genesis chain-IsKeyed decisions 2

-- The first two lines of the log, with an empty one between them.
abbrev file : List (Line Chain)
file = seal_one link genesis "hold" ∷ blank ∷ seal_one link (link genesis "hold") "buy" ∷ []

true_prefix : (k : ℕ) × (entries link file ≡ take k decisions)
unfolding hashes verify_chain verify_lines
true_prefix =
    verify_chain-Carries link same genesis chain-IsKeyed decisions file refl
      ((λ h e. inl (cc)), ((λ h e. inr (inl (cc))), tt))
