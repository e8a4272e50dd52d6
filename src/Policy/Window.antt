-- ===== src/Policy/Window.antt =====
-- The rolling window of treasuryforge/policy.py: what `_prune` leaves of a queue in order of time.
use treasuryforge.Base.{
  ℕ, ◌+◌, ◌≤◌, ◌<◌, ◌≡◌, refl, Bool, ◌&&◌, List, [], ◌∷◌, ◌++◌, arith, ltb, leb, length, keep, All,
  All-append,
}
use treasuryforge.Policy.{prune}

-- The times that a window of `w` steps still counts at `now`.
abbrev pub live : ℕ → ℕ → ℕ → Bool
live w now ts = ltb now (ts + w)

abbrev pub prune_ts : ℕ → ℕ → List ℕ → List ℕ
prune_ts w now xs = prune (λ ts. ts) now w xs

-- No entry of `xs` is later than `now`, and the entries do not fall.
abbrev pub Sorted : ℕ → List ℕ → Type 0
Sorted now [] = Unit
Sorted now (x ∷ xs) = (x ≤ now) × All (λ y. x ≤ y) xs × Sorted now xs

pub keep-live :
    (w now x : ℕ) (xs : List ℕ) → now < x + w → All (λ y. x ≤ y) xs → keep (live w now) xs ≡ xs
keep-live w now x [] h a = refl
keep-live w now x (y ∷ ys) h a = ground (arith, keep-live w now x ys h a.1)

-- On a queue in order of time, popping from the left drops exactly what is out of the window.
pub prune-eq-keep :
    (w now last : ℕ) (xs : List ℕ) → Sorted last xs → prune_ts w now xs ≡ keep (live w now) xs
unfolding prune
prune-eq-keep w now last [] s = refl
prune-eq-keep w now last (x ∷ xs) s =
    ground (arith, prune-eq-keep w now last xs s.2, keep-live w now x xs)

pub prune-prune :
    (w now later : ℕ) (xs : List ℕ)
    → now ≤ later
    → prune_ts w later (prune_ts w now xs) ≡ prune_ts w later xs
unfolding prune
prune-prune w now later [] h = refl
prune-prune w now later (x ∷ xs) h = ground (arith, prune-prune w now later xs h)

pub prune-snoc_live :
    (w now t : ℕ) (xs : List ℕ)
    → now < t + w
    → prune_ts w now (xs ++ t ∷ []) ≡ prune_ts w now xs ++ t ∷ []
unfolding prune
prune-snoc_live w now t [] h = ground arith
prune-snoc_live w now t (x ∷ xs) h = ground (arith, prune-snoc_live w now t xs h)

pub prune-snoc_dead :
    (w now t : ℕ) (xs : List ℕ)
    → t + w ≤ now
    → prune_ts w now xs ≡ []
    → prune_ts w now (xs ++ t ∷ []) ≡ []
unfolding prune
prune-snoc_dead w now t [] h e = ground arith
prune-snoc_dead w now t (x ∷ xs) h e = ground (arith, prune-snoc_dead w now t xs h)

pub keep-append : (p : ℕ → Bool) (xs ys : List ℕ) → keep p (xs ++ ys) ≡ keep p xs ++ keep p ys
keep-append p [] ys = refl
keep-append p (x ∷ xs) ys = ground (arith, keep-append p xs ys)

pub keep_dead : (w now t : ℕ) (xs : List ℕ) → t + w ≤ now → Sorted t xs → keep (live w now) xs ≡ []
keep_dead w now t [] h s = refl
keep_dead w now t (x ∷ xs) h s = ground (arith, keep_dead w now t xs h s.2)

-- The fills of a window that ends at `now`: not later than `now`, and still counted then.
abbrev pub in_window : ℕ → ℕ → ℕ → Bool
in_window w now ts = leb ts now && live w now ts

pub window-le-live :
    (w now t : ℕ) (xs : List ℕ)
    → t ≤ now
    → length (keep (in_window w now) xs) ≤ length (keep (live w t) xs)
window-le-live w now t [] h = omega arith
window-le-live w now t (x ∷ xs) h = ground (arith, window-le-live w now t xs h)

pub Sorted-snoc : (last t : ℕ) (xs : List ℕ) → last ≤ t → Sorted last xs → Sorted t (xs ++ t ∷ [])
Sorted-snoc last t [] h s = (omega arith, tt, tt)
Sorted-snoc last t (x ∷ xs) h s = (
  omega (arith, s.0),
  All-append (λ y. x ≤ y) xs (t ∷ []) s.1 (omega (arith, s.0), tt),
  Sorted-snoc last t xs h s.2,
)

pub Sorted-mono : (last t : ℕ) (xs : List ℕ) → last ≤ t → Sorted last xs → Sorted t xs
Sorted-mono last t [] h s = tt
Sorted-mono last t (x ∷ xs) h s = (omega (arith, s.0), s.1, Sorted-mono last t xs h s.2)
