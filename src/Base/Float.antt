-- ===== src/Base/Float.antt =====
-- What the code does with Python's `float`. The type and its operations are a parameter, since
-- nothing under treasuryforge/ implements them; `IsOrdered` holds the laws of IEEE 754 comparison
-- and addition that the safety arguments rest on, for numbers that are not NaN.
use Prim.Native.Nat.{ℕ}
use mathlib.Core.Path.{◌≡◌}
use mathlib.Core.Logic.{◌⊎◌}
use mathlib.Core.Bool.{Bool, true, not, ◌&&◌}
use mathlib.Core.List.{List, foldl}
use native.Mathlib.Omega.{arith}
use treasuryforge.Base.Tests.{if◌then◌else◌}
use treasuryforge.Base.Lists.{length}

pub record Float (A : Type 0) : Type 0 where
  -- `lit m e` is the decimal literal m * 10^-e
  pub lit : ℕ → ℕ → A
  pub add : A → A → A
  pub sub : A → A → A
  pub mul : A → A → A
  pub div : A → A → A
  pub negate : A → A
  pub magnitude : A → A
  -- `round(x, n)`
  pub round_to : A → ℕ → A
  pub less : A → A → Bool
  pub less_eq : A → A → Bool

module _ {A : Type 0} ⦃F : Float A⦄ where
  infixl 65 ◌+◌ ◌-◌
  infixl 70 ◌*◌ ◌/◌
  infix 4 ◌≼◌
  abbrev pub ◌+◌ : A → A → A
  ◌+◌ = F.add

  abbrev pub ◌-◌ : A → A → A
  ◌-◌ = F.sub

  abbrev pub ◌*◌ : A → A → A
  ◌*◌ = F.mul

  abbrev pub ◌/◌ : A → A → A
  ◌/◌ = F.div

  abbrev pub lt : A → A → Bool
  lt = F.less

  abbrev pub le : A → A → Bool
  le = F.less_eq

  abbrev pub ◌≼◌ : A → A → Type 0
  x ≼ y = F.less_eq x y ≡ true

  -- The whole number n.
  abbrev pub whole : ℕ → A
  whole n = F.lit n 0

  -- Python's `max(a, b)` and `min(a, b)`, which keep `a` unless `b` is strictly beyond it.
  abbrev pub max : A → A → A
  max a b = if F.less a b then b else a

  abbrev pub min : A → A → A
  min a b = if F.less b a then b else a

  -- Python's `sum`, from the left.
  abbrev pub sum : List A → A
  sum = foldl F.add (F.lit 0 0)

  -- `x == 0.0`
  abbrev pub is_zero : A → Bool
  is_zero x = F.less_eq x (F.lit 0 0) && F.less_eq (F.lit 0 0) x

  -- `sum(xs) / len(xs)`
  abbrev pub mean_of : List A → A
  mean_of xs = F.div (sum xs) (whole (length xs))

-- The numbers are totally ordered, strict comparison is its negation, addition is monotone in its
-- first argument, and adding a number that is at least zero does not lower the sum.
pub record IsOrdered (A : Type 0) ⦃F : Float A⦄ : Type 0 where
  pub le_refl : (x : A) → x ≼ x
  pub le_trans : (x y z : A) → x ≼ y → y ≼ z → x ≼ z
  pub lt-eq-not-le : (x y : A) → F.less x y ≡ not (F.less_eq y x)
  pub le_total : (x y : A) → (x ≼ y) ⊎ (y ≼ x)
  pub add_mono : (x y z : A) → x ≼ y → F.add x z ≼ F.add y z
  pub le-add : (x y : A) → F.lit 0 0 ≼ y → x ≼ F.add x y
  pub lit_nonneg : (m e : ℕ) → F.lit 0 0 ≼ F.lit m e

module _ {A : Type 0} ⦃F : Float A⦄ (laws : IsOrdered A) where
  pub le-max_right : (a b : A) → b ≼ max a b
  le-max_right a b = ground (arith, laws.lt-eq-not-le a b, laws.le_refl b)

  pub le-max_left : (a b : A) → a ≼ max a b
  le-max_left a b = ground (arith, laws.lt-eq-not-le a b, laws.le_refl a, laws.le_total a b)

  pub min-le_left : (a b : A) → min a b ≼ a
  min-le_left a b = ground (arith, laws.lt-eq-not-le b a, laws.le_refl a, laws.le_total b a)

  pub min-le_right : (a b : A) → min a b ≼ b
  min-le_right a b = ground (arith, laws.lt-eq-not-le b a, laws.le_refl b, laws.le_total b a)
