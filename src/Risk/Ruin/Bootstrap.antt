-- ===== src/Risk/Ruin/Bootstrap.antt =====
-- That the resampling of treasuryforge/risk/ruin.py ends, what it draws, and what its Monte-Carlo
-- counts.
use treasuryforge.Base.{
  ℕ, zero, suc, ◌+◌, ◌-◌, ◌≤◌, ◌<◌, ◌≡◌, refl, ap, inl, inr, false, List, [], ◌∷◌, ◌++◌, arith, ltb,
  Bool-cases, length, length-append, take, All, All-append, length-drop, drop,
}
use treasuryforge.Base.Result.{Result, ok}
use treasuryforge.Risk.Ruin.{Generator, SampleError, block, block_length, sample, block_bootstrap}

-- `randint` keeps to its range.
pub record InRange {A R : Type 0} (g : Generator A R) : Type 0 where
  pub in_range : (n : ℕ) (rng : R) → (g.randint 0 n rng).0 ≤ n

module _ {A : Type 0} where
  length-take : (n : ℕ) (xs : List A) → n ≤ length xs → length (take n xs) ≡ n
  length-take zero xs h = refl
  length-take (suc n) [] h = absurd (omega arith)
  length-take (suc n) (x ∷ xs) h = ap suc (length-take n xs (omega arith))

  module _ (P : A → Type 0) where
    All-drop : (n : ℕ) (xs : List A) → All P xs → All P (drop n xs)
    All-drop zero xs h = h
    All-drop (suc n) [] h = tt
    All-drop (suc n) (x ∷ xs) h = All-drop n xs h.1

    All-take : (n : ℕ) (xs : List A) → All P xs → All P (take n xs)
    All-take zero xs h = tt
    All-take (suc n) [] h = tt
    All-take (suc n) (x ∷ xs) h = (h.0, All-take n xs h.1)

  length-block :
      (rets : List A) (start len : ℕ)
      → len ≤ length rets
      → start ≤ length rets - len
      → length (block rets start len) ≡ len
  length-block rets start len h k =
      length-take len (drop start rets) (omega (arith, length-drop start rets (omega arith)))

  module _ {R : Type 0} (g : Generator A R) (good : InRange g) where
    -- A sample of `n` of the returns.
    abbrev pub Drawn : List A → ℕ → Result SampleError (List A) × R → Type 1
    Drawn rets n p =
        (out : List A) × (p.0 ≡ ok out)
        × (length out ≡ n)
        × ((P : A → Type 0) → All P rets → All P out)

    sample-Drawn :
        (fuel : ℕ) (rets : List A) (len n : ℕ) (out : List A) (rng : R)
        → 0 < len
        → len ≤ length rets
        → n ≤ length out + fuel
        → ((P : A → Type 0) → All P rets → All P out)
        → Drawn rets n (sample g fuel rets len n out rng)
    unfolding sample
    sample-Drawn zero rets len n out rng pos fits fuelled drawn =
        let full : ltb (length out) n ≡ false = ground arith in
        (take n out, rw full, length-take n out (omega arith), λ P h. All-take P n out (drawn P h))
    sample-Drawn (suc fuel) rets len n out rng pos fits fuelled drawn =
        let (start, rng') = g.randint 0 (length rets - len) rng in
        let next = block rets start len in
        let size = length-block rets start len fits (good.in_range (length rets - len) rng) in
        elim (Bool-cases (ltb (length out) n)) [
          | inl more ↦
              let wide : ltb (length rets) len ≡ false = ground arith in
              rw (more, wide)
                (sample-Drawn fuel rets len n (out ++ next) rng' pos fits
                  (omega (arith, length-append {0} out next, size))
                  (λ P h.
                    All-append P out next (drawn P h)
                      (All-take P len (drop start rets) (All-drop P start rets h))))
          | inr full ↦ rw full (
            take n out,
            refl,
            length-take n out (ground (arith, full)),
            λ P h. All-take P n out (drawn P h),
          )
        ]

    block_length-fits :
        (rets : List A) (len : ℕ)
        → 0 < length rets
        → 0 < len
        → (0 < block_length rets len) × (block_length rets len ≤ length rets)
    block_length-fits rets len some_ pos = ground arith

    -- Of some returns and with blocks of at least one, the bootstrap ends and gives as many returns as
    -- asked for, each of them one of those it was given.
    pub block_bootstrap-Drawn :
        (rets : List A) (n len : ℕ) (rng : R)
        → 0 < length rets
        → 0 < len
        → Drawn rets n (block_bootstrap g rets n len rng)
    unfolding block_bootstrap
    block_bootstrap-Drawn rets n len rng some_ pos =
        let (at_least, at_most) = block_length-fits rets len some_ pos in
        sample-Drawn n rets (block_length rets len) n [] rng at_least at_most (omega arith)
          (λ P h. tt)
