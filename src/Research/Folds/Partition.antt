-- ===== src/Research/Folds/Partition.antt =====
-- What the splits of treasuryforge/backtest/cv.py are: a partition, with the samples around each test
-- fold kept from its training set.
use treasuryforge.Base.{
  ℕ, zero, suc, ◌+◌, ◌-◌, ◌*◌, ◌/◌, ◌%◌, ◌≤◌, ◌<◌, ◌≡◌, ◌↔◌, refl, ◌∙◌, ap, inl, inr, ◌⊎◌, Bool,
  true, false, ◌||◌, List, [], ◌∷◌, ◌++◌, map, arith, if◌then◌else◌, ltb, leb, ◌==◌, Bool-cases,
  keep, All, any, length, smaller,
}
use native.Mathlib.Nat.{div-add-mod}
use treasuryforge.Base.Result.{ok}
use treasuryforge.Research.Folds.{
  Split, count_up, range, fold_size, bounds_from, split_at, purged_kfold,
}

abbrev total : List ℕ → ℕ
total [] = 0
total (x ∷ xs) = x + total xs

abbrev pub joined : List (List ℕ) → List ℕ
joined [] = []
joined (xs ∷ rest) = xs ++ joined rest

-- `i in xs`
abbrev pub holds : ℕ → List ℕ → Bool
holds i xs = any (λ j. i == j) xs

count_up-append : (a n m : ℕ) → count_up a n ++ count_up (a + n) m ≡ count_up a (n + m)
count_up-append a zero m =
    let same : a + 0 ≡ a = omega arith in let none : 0 + m ≡ m = omega arith in rw (same, none)
count_up-append a (suc n) m =
    let shifted : suc a + n ≡ a + suc n = omega arith in
    let grown : suc n + m ≡ suc (n + m) = omega arith in
    rw grown (ap (λ xs. a ∷ xs) (rw (← shifted) (count_up-append (suc a) n m)))

sizes-total :
    (q r i m : ℕ)
    → total (map (λ j. q + (if ltb j r then 1 else 0)) (count_up i m)) + smaller r i
      ≡ m * q + smaller r (i + m)
sizes-total q r i zero = ground arith
sizes-total q r i (suc m) =
    let more : suc m * q ≡ q + m * q = grind arith in
    ground (arith, more, sizes-total q r (suc i) m)

fold_size-total : (n k : ℕ) → 0 < k → total (map (fold_size n k) (range 0 k)) ≡ n
fold_size-total n k pos =
    let rounds : k - 0 ≡ k = omega arith in
    let sizes = sizes-total (n / k) (n % k) 0 k in
    let parts = div-add-mod n k in let below : n % k < k = grind arith in rw rounds (ground arith)

tests-joined :
    (n e start : ℕ) (sizes : List ℕ)
    → joined (map (λ s. s.test) (map (split_at n e) (bounds_from start sizes)))
      ≡ count_up start (total sizes)
unfolding bounds_from
tests-joined n e start [] = refl
tests-joined n e start (size ∷ sizes) =
    let width : start + size - start ≡ size = omega arith in
    rw (width, tests-joined n e (start + size) sizes) (count_up-append start size (total sizes))

holds-count_up : (i a n : ℕ) → (holds i (count_up a n) ≡ true) ↔ ((a ≤ i) × (i < a + n))
holds-count_up i a zero = (λ h. cc, λ h. absurd (omega (arith, h.0, h.1)))
holds-count_up i a (suc n) =
    let (from, to) = holds-count_up i (suc a) n in
    (λ h. ground (arith, from), λ h. ground (arith, to))

holds-keep :
    (p : ℕ → Bool) (i : ℕ) (xs : List ℕ)
    → (holds i (keep p xs) ≡ true) ↔ ((holds i xs ≡ true) × (p i ≡ true))
holds-keep p i [] = (λ h. cc, λ h. h.0)
holds-keep p i (x ∷ xs) =
    let (from, to) = holds-keep p i xs in
    elim (Bool-cases (i == x)) [
      | inl same ↦
          let at : i ≡ x = ground arith in
          let agree = ap p at in
          elim (Bool-cases (p x)) [
            | inl in_ ↦ rw in_ (λ h. (rw same, cc (agree, in_)), λ h. rw same)
            | inr out ↦
                rw out
                  (λ h. absurd (cc (agree, out, (from h).1)), λ h. absurd (cc (agree, out, h.1)))
          ]
      | inr other ↦ elim (Bool-cases (p x)) [
        | inl in_ ↦ rw in_ (λ h. ground (arith, from), λ h. ground (arith, to))
        | inr out ↦ rw out (λ h. ground (arith, from), λ h. ground (arith, to))
      ]
    ]

-- A split whose test fold is the samples from `lo` to `hi`, and whose training set is those before it
-- and those from the embargo after it on.
pub record Purged (n embargo : ℕ) (s : Split) : Type 0 where
  pub lo : ℕ
  pub hi : ℕ
  pub nonempty : lo < hi
  pub within : hi ≤ n
  pub tests : s.test ≡ range lo hi
  pub trains : (i : ℕ) → (holds i s.train ≡ true) ↔ ((i < n) × ((i < lo) ⊎ (hi + embargo ≤ i)))

split_at-Purged : (n e lo hi : ℕ) → lo < hi → hi ≤ n → Purged n e (split_at n e (lo, hi))
split_at-Purged n e lo hi some_ within = record {
  lo = lo;
  hi = hi;
  nonempty = some_;
  within = within;
  tests = refl;
  trains = λ i.
      let kept = holds-keep (λ j. ltb j lo || leb (smaller n (hi + e)) j) i (range 0 n) in
      let ranged = holds-count_up i 0 (n - 0) in
      (
        λ h.
            let (range_, passed) = kept.0 h in
            let bounds = ranged.0 range_ in
            (
              omega (arith, bounds.1),
              elim (Bool-cases (ltb i lo)) [
                | inl before ↦ inl (ground arith)
                | inr later ↦ inr (ground (arith, passed, bounds))
              ],
            ),
        λ h. kept.1 (
          ranged.1 (omega arith, omega (arith, h.0)),
          elim h.1 [ inl before ↦ ground arith | inr after ↦ ground arith ],
        ),
      );
}

bounds-Purged :
    (n e start : ℕ) (sizes : List ℕ)
    → All (λ s. 0 < s) sizes
    → start + total sizes ≤ n
    → All (Purged n e) (map (split_at n e) (bounds_from start sizes))
unfolding bounds_from
bounds-Purged n e start [] pos fits = tt
bounds-Purged n e start (size ∷ sizes) pos fits = (
  split_at-Purged n e start (start + size) (omega (arith, pos.0)) (omega arith),
  bounds-Purged n e (start + size) sizes pos.1 (omega arith),
)

sizes-pos : (n k i m : ℕ) → 0 < n / k → All (λ s. 0 < s) (map (fold_size n k) (count_up i m))
sizes-pos n k i zero h = tt
sizes-pos n k i (suc m) h = (omega arith, sizes-pos n k (suc i) m h)

length-splits :
    (n e start : ℕ) (sizes : List ℕ)
    → length (map (split_at n e) (bounds_from start sizes)) ≡ length sizes
unfolding bounds_from
length-splits n e start [] = refl
length-splits n e start (size ∷ sizes) = ap suc (length-splits n e (start + size) sizes)

length-sizes : (n k i m : ℕ) → length (map (fold_size n k) (count_up i m)) ≡ m
length-sizes n k i zero = refl
length-sizes n k i (suc m) = ap suc (length-sizes n k (suc i) m)

-- Of at least two folds and as many samples, the splits are one for each fold; their test folds, in
-- order and none empty, are all the samples, each once; and a sample is in the training set of a
-- split exactly when it comes before the test fold or after it and the embargo.
pub purged_kfold-Purged :
    (n k embargo : ℕ)
    → 2 ≤ k
    → k ≤ n
    → (splits : List Split) × (purged_kfold n k embargo ≡ ok splits)
      × (length splits ≡ k)
      × (joined (map (λ s. s.test) splits) ≡ range 0 n)
      × All (Purged n embargo) splits
unfolding purged_kfold
purged_kfold-Purged n k e enough fits =
    let sizes = map (fold_size n k) (range 0 k) in
    let whole : total sizes ≡ n = fold_size-total n k (omega arith) in
    let rounds : k - 0 ≡ k = omega arith in
    let big : ltb k 2 ≡ false = ground arith in
    let many : ltb n k ≡ false = ground arith in
    let per_fold : 0 < n / k = grind arith in
    (
      map (split_at n e) (bounds_from 0 sizes),
      rw (big, many),
      length-splits n e 0 sizes ∙ length-sizes n k 0 (k - 0) ∙ rounds,
      tests-joined n e 0 sizes ∙ ap (count_up 0) (whole ∙ omega arith),
      bounds-Purged n e 0 sizes (sizes-pos n k 0 (k - 0) per_fold) (omega (arith, whole)),
    )
