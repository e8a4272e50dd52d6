-- ===== src/Carry/Duty.antt =====
-- treasuryforge/opportunity_duty_cycle.py: how much of the time a spread is above the break-even.
use treasuryforge.Base.{
  ℕ, suc, ◌+◌, ◌≤◌, Bool, true, false, List, [], ◌∷◌, arith, if◌then◌else◌, ◌==◌, length, keep,
  larger,
}
use treasuryforge.Base.Float.{Float, ◌/◌ as ◌⊘◌, le, whole, sum}

pub record DutyCycle (A : Type 0) : Type 0 where
  pub n : ℕ
  pub n_on : ℕ
  pub breakeven_apr : A
  pub mean_spread_when_on : A
  pub max_consecutive_on : ℕ

abbrev pub nonempty {ℓ} : {B : Type ℓ} → List B → Bool
nonempty [] = false
nonempty (x ∷ xs) = true

module _ {A : Type 0} ⦃F : Float A⦄ where
  -- The loop: the streak so far and the best one.
  unfoldable pub longest : A → ℕ → ℕ → List A → ℕ
  longest breakeven streak best [] = best
  longest breakeven streak best (s ∷ rest) =
      let on = longest breakeven (suc streak) (larger best (suc streak)) rest in
      let off = longest breakeven 0 best rest in if le breakeven s then on else off

  unfoldable pub opportunity_duty_cycle : List A → A → DutyCycle A
  opportunity_duty_cycle spreads breakeven =
      let on = keep (λ s. le breakeven s) spreads in
      record {
        n = length spreads;
        n_on = length on;
        breakeven_apr = breakeven;
        mean_spread_when_on = if nonempty on then sum on ⊘ whole (length on) else whole 0;
        max_consecutive_on = longest breakeven 0 0 spreads;
      }

  -- `DutyCycle.fraction`
  abbrev pub fraction : DutyCycle A → A
  fraction d = if d.n == 0 then whole 0 else whole d.n_on ⊘ whole d.n

  longest-bounds :
      (breakeven : A) (streak best : ℕ) (xs : List A)
      → (best ≤ longest breakeven streak best xs)
        × (streak ≤ best
            → longest breakeven streak best xs ≤ best + length (keep (λ s. le breakeven s) xs))
  unfolding longest
  longest-bounds breakeven streak best [] = (omega arith, λ h. omega arith)
  longest-bounds breakeven streak best (x ∷ xs) =
      let (on_kept, on_most) =
        longest-bounds breakeven (suc streak) (larger best (suc streak)) xs in
      let (off_kept, off_most) = longest-bounds breakeven 0 best xs in
      let room : suc streak ≤ larger best (suc streak) = ground arith in
      let grown : best ≤ larger best (suc streak) = ground arith in
      let most = on_most room in
      let least = off_most (omega arith) in (ground arith, λ h. ground arith)

  -- The longest streak is of no more intervals than are on, and those are no more than all.
  pub opportunity_duty_cycle-bounds :
      (spreads : List A) (breakeven : A)
      → let d = opportunity_duty_cycle spreads breakeven in
        (d.max_consecutive_on ≤ d.n_on) × (d.n_on ≤ d.n)
  unfolding opportunity_duty_cycle
  opportunity_duty_cycle-bounds spreads breakeven =
      let most = (longest-bounds breakeven 0 0 spreads).1 (omega arith) in
      (omega (arith, most), length-keep spreads)
    where
      length-keep : (xs : List A) → length (keep (λ s. le breakeven s) xs) ≤ length xs
      length-keep [] = omega arith
      length-keep (x ∷ xs) = ground (arith, length-keep xs)
