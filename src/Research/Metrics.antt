-- ===== src/Research/Metrics.antt =====
-- treasuryforge/backtest/metrics.py: the statistics of a series of returns. `math.sqrt`, `log`, `erf`
-- and `e`, and the infinities, are parameters.
use treasuryforge.Base.{
  ℕ, zero, suc, ◌-◌, ◌&&◌, Option, none, some, List, [], ◌∷◌, map, if◌then◌else◌, ltb, leb, ◌==◌,
  length, keep,
}
use treasuryforge.Base.Float.{
  Float, ◌+◌ as ◌⊞◌, ◌-◌ as ◌⊟◌, ◌*◌ as ◌⊠◌, ◌/◌ as ◌⊘◌, lt, whole, min, max, sum, is_zero, mean_of,
}

pub record Math (A : Type 0) : Type 0 where
  pub sqrt : A → A
  pub log : A → A
  pub erf : A → A
  pub e : A
  pub infinity : A

pub record Moments (A : Type 0) : Type 0 where
  pub mean : A
  pub std : A
  pub skew : A
  pub kurt : A

module _ {A : Type 0} ⦃F : Float A⦄ (M : Math A) where
  -- `x ** n`
  abbrev pub power : A → ℕ → A
  power x zero = whole 1
  power x (suc n) = power x n ⊠ x

  -- `_phi`
  unfoldable pub phi : A → A
  phi x = F.lit 5 1 ⊠ (whole 1 ⊞ M.erf (x ⊘ M.sqrt (whole 2)))

  -- A polynomial by Horner's rule, the leading coefficient first.
  abbrev pub horner : A → A → List A → A
  horner acc q [] = acc
  horner acc q (c ∷ cs) = horner ((acc ⊠ q) ⊞ c) q cs

  abbrev pub minus : A → A
  minus = F.negate

  abbrev pub coeff_a : List A
  coeff_a =
      F.lit 2209460984245205 13
      ∷ minus (F.lit 2759285104469687 13)
      ∷ F.lit 138357751867269 12
      ∷ minus (F.lit 3066479806614716 14)
      ∷ F.lit 2506628277459239 15
      ∷ []

  abbrev pub coeff_b : List A
  coeff_b =
      F.lit 1615858368580409 13
      ∷ minus (F.lit 1556989798598866 13)
      ∷ F.lit 6680131188771972 14
      ∷ minus (F.lit 1328068155288572 14)
      ∷ whole 1
      ∷ []

  abbrev pub coeff_c : List A
  coeff_c =
      minus (F.lit 3223964580411365 16)
      ∷ minus (F.lit 2400758277161838 15)
      ∷ minus (F.lit 2549732539343734 15)
      ∷ F.lit 4374664141464968 15
      ∷ F.lit 2938163982698783 15
      ∷ []

  abbrev pub coeff_d : List A
  coeff_d =
      F.lit 3224671290700398 16
      ∷ F.lit 2445134137142996 15
      ∷ F.lit 3754408661907416 15
      ∷ whole 1
      ∷ []

  -- The tails of `_phi_inv`, at the square root that each takes.
  abbrev pub tail_quotient : A → A
  tail_quotient q =
      horner (minus (F.lit 7784894002430293 18)) q coeff_c
      ⊘ horner (F.lit 7784695709041462 18) q coeff_d

  -- `_phi_inv`; `none` is the ValueError.
  unfoldable pub phi_inv : A → Option A
  phi_inv p =
      let plow = F.lit 2425 5 in
      let q = p ⊟ F.lit 5 1 in
      let r = q ⊠ q in
      if lt (whole 0) p && lt p (whole 1)
      then some (
          if lt p plow
          then tail_quotient (M.sqrt (minus (whole 2) ⊠ M.log p))
          else if lt (whole 1 ⊟ plow) p
          then minus (tail_quotient (M.sqrt (minus (whole 2) ⊠ M.log (whole 1 ⊟ p))))
          else (horner (minus (F.lit 3969683028665376 14)) r coeff_a ⊠ q)
            ⊘ horner (minus (F.lit 5447609879822406 14)) r coeff_b)
      else none

  -- `_moments`
  unfoldable pub moments : List A → Moments A
  moments xs =
      let n = whole (length xs) in
      let mean = mean_of xs in
      let var = sum (map (λ r. power (r ⊟ mean) 2) xs) ⊘ n in
      let std = if lt (whole 0) var then M.sqrt var else whole 0 in
      if is_zero std
      then record { mean = mean; std = whole 0; skew = whole 0; kurt = whole 3 }
      else record {
        mean = mean;
        std = std;
        skew = (sum (map (λ r. power (r ⊟ mean) 3) xs) ⊘ n) ⊘ power std 3;
        kurt = (sum (map (λ r. power (r ⊟ mean) 4) xs) ⊘ n) ⊘ power std 4;
      }

  -- `if periods_per_year`: neither none nor zero.
  abbrev pub annualized : Option ℕ → A → A
  annualized none s = s
  annualized (some n) s = if n == 0 then s else s ⊠ M.sqrt (whole n)

  unfoldable pub sharpe_ratio : List A → Option ℕ → A
  unfolding moments
  sharpe_ratio xs periods =
      let m = moments xs in
      if ltb (length xs) 2
      then whole 0
      else if is_zero m.std
      then whole 0
      else annualized periods (m.mean ⊘ m.std)

  unfoldable pub sortino_ratio : List A → Option ℕ → A → A
  sortino_ratio xs periods target =
      let mean = mean_of xs in
      let downside = map (λ r. min (r ⊟ target) (whole 0)) xs in
      let dd = M.sqrt (sum (map (λ d. d ⊠ d) downside) ⊘ whole (length xs)) in
      if ltb (length xs) 2
      then whole 0
      else if is_zero dd
      then whole 0
      else annualized periods ((mean ⊟ target) ⊘ dd)

  unfoldable pub profit_factor : List A → A
  profit_factor xs =
      let gains = sum (keep (λ r. lt (whole 0) r) xs) in
      let losses = minus (sum (keep (λ r. lt r (whole 0)) xs)) in
      if lt (whole 0) losses then gains ⊘ losses else M.infinity

  -- The loop of `max_drawdown`.
  unfoldable pub drawdown_from : A → A → List A → A
  drawdown_from peak mdd [] = mdd
  drawdown_from peak mdd (v ∷ vs) =
      let peak' = max peak v in
      drawdown_from peak' (if lt (whole 0) peak' then max mdd ((peak' ⊟ v) ⊘ peak') else mdd) vs

  unfoldable pub max_drawdown : List A → A
  unfolding drawdown_from
  max_drawdown = drawdown_from (minus M.infinity) (whole 0)

  abbrev pub euler : A
  euler = F.lit 5772156649015329 16

  abbrev pub both : (A → A → A) → Option A → Option A → Option A
  both f (some a) (some b) = some (f a b)
  both f _ _ = none

  -- `none` is the ValueError of `_phi_inv`.
  unfoldable pub expected_max_sharpe : ℕ → A → Option A
  unfolding phi_inv
  expected_max_sharpe n_trials sr_std =
      let n : A = whole n_trials in
      if leb n_trials 1
      then some (whole 0)
      else both (λ a b. sr_std ⊠ (((whole 1 ⊟ euler) ⊠ a) ⊞ (euler ⊠ b)))
          (phi_inv (whole 1 ⊟ (whole 1 ⊘ n))) (phi_inv (whole 1 ⊟ (whole 1 ⊘ (n ⊠ M.e))))

  -- `max(n_trials or 2, 2)`
  abbrev pub trials_of : Option ℕ → ℕ
  trials_of none = 2
  trials_of (some n) = if ltb n 2 then 2 else n

  -- The Sharpe that a lucky search would produce, of the trials or of their number.
  abbrev pub lucky : Option ℕ → List A → Option A
  lucky n_trials trial_sharpes =
      let n = length trial_sharpes in
      let mt = mean_of trial_sharpes in
      let var = sum (map (λ s. power (s ⊟ mt) 2) trial_sharpes) ⊘ whole (n - 1) in
      if leb 2 n
      then expected_max_sharpe n (M.sqrt (max var (whole 0)))
      else expected_max_sharpe (trials_of n_trials) (whole 1)

  abbrev pub benchmark_of : Option A → Option ℕ → List A → Option A
  benchmark_of (some b) n_trials trial_sharpes = some b
  benchmark_of none n_trials trial_sharpes = lucky n_trials trial_sharpes

  abbrev pub deflated : Moments A → ℕ → A → A
  deflated m n benchmark =
      let sr = m.mean ⊘ m.std in
      let raw = (whole 1 ⊟ (m.skew ⊠ sr)) ⊞ ((((m.kurt ⊟ whole 1) ⊘ whole 4) ⊠ sr) ⊠ sr) in
      let denom = max raw (F.lit 1 12) in
      phi (((sr ⊟ benchmark) ⊠ M.sqrt (whole (n - 1))) ⊘ M.sqrt denom)

  -- `none` is the ValueError; no trials given is the empty list.
  unfoldable pub deflated_sharpe_ratio : List A → Option ℕ → Option A → List A → Option A
  unfolding phi moments expected_max_sharpe
  deflated_sharpe_ratio xs n_trials sr_benchmark trial_sharpes =
      let m = moments xs in
      if ltb (length xs) 2
      then some (whole 0)
      else if is_zero m.std
      then some (whole 0)
      else elim (benchmark_of sr_benchmark n_trials trial_sharpes) [
        | none ↦ none
        | some b ↦ some (deflated m (length xs) b)
      ]
