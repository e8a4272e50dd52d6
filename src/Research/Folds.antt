-- ===== src/Research/Folds.antt =====
-- treasuryforge/backtest/cv.py: the purged and embargoed splits of k-fold cross-validation.
pub mod Partition
use treasuryforge.Base.{
  ℕ, zero, suc, ◌+◌, ◌-◌, ◌*◌, ◌/◌, ◌%◌, ◌≤◌, ◌<◌, ◌≡◌, ◌↔◌, refl, sym, ◌∙◌, ap, inl, inr, ◌⊎◌,
  Bool, true, false, ◌||◌, List, [], ◌∷◌, ◌++◌, map, arith, if◌then◌else◌, ltb, leb, ◌==◌,
  Bool-cases, keep, All, length, smaller,
}
use treasuryforge.Base.Result.{Result, ok, err}

-- The two ValueErrors.
pub data SplitError : Type 0 where
  too_few_folds too_few_samples : SplitError

-- What one round yields.
pub record Split : Type 0 where
  pub train : List ℕ
  pub test : List ℕ

-- `n` numbers from `start` on.
abbrev pub count_up : ℕ → ℕ → List ℕ
count_up start zero = []
count_up start (suc n) = start ∷ count_up (suc start) n

-- `range(lo, hi)`
abbrev pub range : ℕ → ℕ → List ℕ
range lo hi = count_up lo (hi - lo)

-- The size of fold `i`.
abbrev pub fold_size : ℕ → ℕ → ℕ → ℕ
fold_size n k i = n / k + (if ltb i (n % k) then 1 else 0)

-- The bounds of the folds, from the sizes of those that are left.
unfoldable pub bounds_from : ℕ → List ℕ → List (ℕ × ℕ)
bounds_from start [] = []
bounds_from start (size ∷ sizes) = (start, start + size) ∷ bounds_from (start + size) sizes

abbrev pub split_at : ℕ → ℕ → ℕ × ℕ → Split
split_at n_samples embargo (test_start, test_end) =
    let purge_hi = smaller n_samples (test_end + embargo) in
    record {
      train = keep (λ i. ltb i test_start || leb purge_hi i) (range 0 n_samples);
      test = range test_start test_end;
    }

unfoldable pub purged_kfold : ℕ → ℕ → ℕ → Result SplitError (List Split)
unfolding bounds_from
purged_kfold n_samples k embargo =
    if ltb k 2
    then err too_few_folds
    else if ltb n_samples k
    then err too_few_samples
    else ok
        (map (split_at n_samples embargo) (bounds_from 0 (map (fold_size n_samples k) (range 0 k))))
