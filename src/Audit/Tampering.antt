-- ===== src/Audit/Tampering.antt =====
-- What the chain of treasuryforge/audit.py shows of a file.
use treasuryforge.Base.{
  ℕ, zero, suc, ◌-◌, ◌≤◌, ◌≡◌, ◌≢◌, refl, sym, subst, ap, ◌∙◌, ◌↔◌, ◌⊎◌, inl, inr, Bool, true,
  false, Option, none, some, List, [], ◌∷◌, ◌++◌, String, arith, Option-cases, length, take,
}
use treasuryforge.Audit.{
  Sealed, Line, blank, unreadable, sealed, AuditLog, lines_of, append_record, record_all, checked,
  verify_lines, verify_chain,
}
use mathlib.Core.List.{append_assoc, append-nil}

-- What an attacker without the key cannot get round: different inputs have different hashes, of
-- which none is the genesis; and the comparison of hashes is equality.
pub record IsKeyed {H : Type 0} (mac : H → String → H) (same : H → H → Bool) (genesis : H)
    : Type 0 where
  pub prev_of : (p q : H) (s t : String) → mac p s ≡ mac q t → p ≡ q
  pub entry_of : (p q : H) (s t : String) → mac p s ≡ mac q t → s ≡ t
  pub mac_genesis : (p : H) (s : String) → mac p s ≢ genesis
  pub same_eq : (p q : H) → (same p q ≡ true) ↔ (p ≡ q)

take-length : {A : Type 0} (xs : List A) → take (length xs) xs ≡ xs
take-length [] = refl
take-length (x ∷ xs) = ap (◌∷◌ x) (take-length xs)

module _ {H : Type 0} (mac : H → String → H) where
  -- The line that `record` writes, and all lines from a hash on.
  abbrev pub seal_one : H → String → Line H
  seal_one p e = sealed (record { prev = some p; entry = some e; hmac = some (mac p e) })

  unfoldable pub seal : H → List String → List (Line H)
  seal p [] = []
  seal p (e ∷ es) = seal_one p e ∷ seal (mac p e) es

  -- The hashes of the records from a hash on.
  unfoldable pub hashes : H → List String → List H
  hashes p [] = []
  hashes p (e ∷ es) = mac p e ∷ hashes (mac p e) es

  unfoldable pub nth : ℕ → List String → Option String
  nth n [] = none
  nth zero (x ∷ xs) = some x
  nth (suc n) (x ∷ xs) = nth n xs

  unfoldable pub drop : ℕ → List String → List String
  drop zero xs = xs
  drop (suc n) [] = []
  drop (suc n) (x ∷ xs) = drop n xs

  drop-nth :
      (n : ℕ) (e : String) (es : List String) → nth n es ≡ some e → drop n es ≡ e ∷ drop (suc n) es
  unfolding nth drop
  drop-nth n e [] h = ground arith
  drop-nth zero e (x ∷ xs) h = cc
  drop-nth (suc n) e (x ∷ xs) h = drop-nth n e xs h

  -- A hash is one of a list.
  abbrev pub Among : H → List H → Type 0
  Among h [] = ⊥
  Among h (k ∷ ks) = (h ≡ k) ⊎ Among h ks

  -- Every readable record carries a hash of the list.
  abbrev pub Carries : List H → List (Line H) → Type 0
  Carries ks [] = Unit
  Carries ks (sealed r ∷ ls) = ((h : H) → r.hmac ≡ some h → Among h ks) × Carries ks ls
  Carries ks (_ ∷ ls) = Carries ks ls

  -- The entries of the readable records of a file.
  abbrev pub entries : List (Line H) → List String
  entries [] = []
  entries (sealed r ∷ ls) = elim r.entry [ none ↦ entries ls | some e ↦ e ∷ entries ls ]
  entries (_ ∷ ls) = entries ls

  entries-sealed :
      (r : Sealed H) (e : String) (ls : List (Line H))
      → r.entry ≡ some e
      → entries (sealed r ∷ ls) ≡ e ∷ entries ls
  entries-sealed r e ls read = rw read refl

  record_all-lines :
      (same : H → H → Bool) (es : List String) (log : AuditLog H)
      → lines_of (record_all mac same es log).lines ≡ lines_of log.lines ++ seal log.prev es
  unfolding record_all append_record seal
  record_all-lines same [] log = sym (append-nil (lines_of log.lines))
  record_all-lines same (e ∷ es) log =
      record_all-lines same es (append_record mac same e log).1
      ∙ append_assoc (lines_of log.lines) (seal_one log.prev e ∷ []) (seal (mac log.prev e) es)

  module _ (same : H → H → Bool) (genesis : H) (keyed : IsKeyed mac same genesis) where
    checked-seal_one :
        (p : H) (e : String) → checked mac same p (seal_one p e) ≡ some (true, mac p e)
    checked-seal_one p e =
        let a = (keyed.same_eq p p).1 refl in
        let b = (keyed.same_eq (mac p e) (mac p e)).1 refl in ground arith

    verify-take-seal :
        (n : ℕ) (p : H) (es : List String)
        → verify_lines mac same p (take n (seal p es)) ≡ some true
    unfolding verify_lines seal
    verify-take-seal zero p es = refl
    verify-take-seal (suc n) p [] = refl
    verify-take-seal (suc n) p (e ∷ es) =
        let s = checked-seal_one p e in
        let ih = verify-take-seal n (mac p e) es in ground (arith, s, ih)

    -- `h` is the hash of a chain of `n` records.
    unfoldable Depth : ℕ → H → Type 0
    Depth zero h = h ≡ genesis
    Depth (suc n) h = (q : H) × (s : String) × (h ≡ mac q s) × Depth n q

    Depth-unique : (m n : ℕ) (h : H) → Depth m h → Depth n h → m ≡ n
    unfolding Depth
    Depth-unique zero zero h a b = refl
    Depth-unique zero (suc n) h a (q, s, e, d) = absurd (keyed.mac_genesis q s (sym e ∙ a))
    Depth-unique (suc m) zero h (q, s, e, d) b = absurd (keyed.mac_genesis q s (sym e ∙ b))
    Depth-unique (suc m) (suc n) h (q, s, e, d) (p, t, f, c) =
        ap suc (Depth-unique m n p (subst (Depth m) (keyed.prev_of q p s t (sym e ∙ f)) d) c)

    Depth-genesis : Depth 0 genesis
    unfolding Depth
    Depth-genesis = refl

    Depth-mac : (n : ℕ) (p : H) (s : String) → Depth n p → Depth (suc n) (mac p s)
    unfolding Depth
    Depth-mac n p s d = (p, s, refl, d)

    Among-nth :
        (q : H) (e : String) (n m : ℕ) (p : H) (es : List String)
        → Among (mac q e) (hashes p es)
        → Depth n p
        → Depth m q
        → (n ≤ m) × (nth (m - n) es ≡ some e)
    unfolding hashes nth
    Among-nth q e n m p [] a d c = absurd a
    Among-nth q e n m p (x ∷ es) (inl here) d c =
        let same_prev = keyed.prev_of q p e x here in
        let same_entry = keyed.entry_of q p e x here in
        let at = Depth-unique n m p d (subst (Depth m) same_prev c) in
        ground (arith, same_entry, at)
    Among-nth q e n m p (x ∷ es) (inr later) d c =
        let ih = Among-nth q e (suc n) m (mac p x) es later (Depth-mac n p x d) c in
        let at : m - n ≡ suc (m - suc n) = omega (arith, ih.0) in
        (omega (arith, ih.0), subst (λ k. nth k (x ∷ es) ≡ some e) (sym at) ih.1)

    -- A record of a chain goes on from the hash before it.
    checked-sealed :
        (p h : H) (r : Sealed H)
        → checked mac same p (sealed r) ≡ some (true, h)
        → (e : String) × (r.entry ≡ some e) × (r.hmac ≡ some h) × (h ≡ mac p e)
    checked-sealed p h r c = elim (Option-cases r.entry) [
      | inl missing ↦ ground arith
      | inr (e, read) ↦ elim (Option-cases r.hmac) [
        | inl missing ↦ ground arith
        | inr (k, carried) ↦
            let equal = (keyed.same_eq (mac p e) k).0 in
            let next : mac p e ≡ h = ground arith in
            let holds : same (mac p e) k ≡ true = ground arith in
            (e, read, carried ∙ ap some (sym (equal holds) ∙ next), sym next)
      ]
    ]

    verify-sealed :
        (p : H) (r : Sealed H) (ls : List (Line H))
        → verify_lines mac same p (sealed r ∷ ls) ≡ some true
        → (h : H) × (checked mac same p (sealed r) ≡ some (true, h))
          × (verify_lines mac same h ls ≡ some true)
    unfolding verify_lines
    verify-sealed p r ls v = elim (Option-cases (checked mac same p (sealed r))) [
      | inl raised ↦ ground arith
      | inr ((true, h), at) ↦ (h, at, ground arith)
      | inr ((false, h), at) ↦ ground arith
    ]

    verify-Carries :
        (es : List String) (m : ℕ) (p : H) (ls : List (Line H))
        → Depth m p
        → verify_lines mac same p ls ≡ some true
        → Carries (hashes genesis es) ls
        → (k : ℕ) × (entries ls ≡ take k (drop m es))
    unfolding verify_lines
    verify-Carries es m p [] d v c = (0, refl)
    verify-Carries es m p (blank ∷ ls) d v c = verify-Carries es m p ls d v c
    verify-Carries es m p (unreadable ∷ ls) d v c = ground arith
    verify-Carries es m p (sealed r ∷ ls) d v c =
        let (h, holds, later) = verify-sealed p r ls v in
        let (e, read, carried, at) = checked-sealed p h r holds in
        let next = subst (Depth (suc m)) (sym at) (Depth-mac m p e d) in
        let found =
          Among-nth p e 0 m genesis es (subst (λ x. Among x (hashes genesis es)) at (c.0 h carried))
            Depth-genesis d in
        let same_place : m - 0 ≡ m = omega arith in
        let here = subst (λ x. nth x es ≡ some e) same_place found.1 in
        let (k, rest) = verify-Carries es (suc m) h ls next later c.1 in
        (
          suc k,
          entries-sealed r e ls read
              ∙ ap (◌∷◌ e) rest
              ∙ ap (take (suc k)) (sym (drop-nth m e es here)),
        )

    -- Every log that starts without a file verifies, and so does every file that holds only its first
    -- lines: a cut at the end is not seen.
    pub verify_chain-record_all :
        (es : List String) (n : ℕ)
        → let log = record_all mac same es (record { lines = none; prev = genesis }) in
          (verify_chain mac same log.lines genesis ≡ some true)
          × (verify_chain mac same (some (take n (lines_of log.lines))) genesis ≡ some true)
    unfolding verify_chain
    verify_chain-record_all es n =
        let file = record_all-lines same es (record { lines = none; prev = genesis }) in
        rw file (
          subst (λ ls. verify_lines mac same genesis ls ≡ some true) (take-length (seal genesis es))
              (verify-take-seal (length (seal genesis es)) genesis es),
          verify-take-seal n genesis es,
        )

    -- A file that verifies, and whose records carry no hashes but those that the log wrote, has the log's
    -- entries, in their order, up to some point: none is changed, inserted, moved or left out before it.
    pub verify_chain-Carries :
        (es : List String) (ls : List (Line H))
        → verify_chain mac same (some ls) genesis ≡ some true
        → Carries (hashes genesis es) ls
        → (k : ℕ) × (entries ls ≡ take k es)
    unfolding verify_chain drop
    verify_chain-Carries es ls v c = verify-Carries es 0 genesis ls Depth-genesis v c
