-- ===== src/Examples/Fixed.antt =====
-- Numbers for the examples: whole multiples of 1e-9, so that decimal literals are exact.
use treasuryforge.Base.{ℕ, ◌+◌, ◌-◌, ◌*◌, ◌^◌, arith}
use treasuryforge.Base.Int.{
  ℤ, pos, negsuc, pos_part, neg_part, sub_ℕ, div_ℕ, ◌+ℤ◌, ◌-ℤ◌, ◌*ℤ◌, ltb_ℤ, leb_ℤ, +ℤ_parts,
}
use treasuryforge.Base.Float.{Float, IsOrdered}

abbrev pub unit : ℕ
unit = 1000000000

abbrev opposite : ℤ → ℤ
opposite a = sub_ℕ (neg_part a) (pos_part a)

abbrev absolute : ℤ → ℤ
absolute a = pos (pos_part a + neg_part a)

abbrev quotient : ℤ → ℤ → ℤ
quotient a (pos b) = div_ℕ (a *ℤ pos unit) b
quotient a (negsuc b) = opposite (div_ℕ (a *ℤ pos unit) (b + 1))

instance abbrev pub fixed : Float ℤ
fixed = record {
  lit = λ m e. pos (m * 10 ^ (9 - e));
  add = ◌+ℤ◌;
  sub = ◌-ℤ◌;
  mul = λ a b. div_ℕ (a *ℤ b) unit;
  div = quotient;
  negate = opposite;
  magnitude = absolute;
  round_to = λ a n. div_ℕ a (10 ^ (9 - n)) *ℤ pos (10 ^ (9 - n));
  less = ltb_ℤ;
  less_eq = leb_ℤ;
}

pub fixed-IsOrdered : IsOrdered ℤ
fixed-IsOrdered = record {
  le_refl = λ x. ground arith;
  le_trans = λ x y z h k. ground arith;
  lt-eq-not-le = λ x y. ground arith;
  le_total = λ x y. ground arith;
  add_mono = λ x y z h. ground (arith, +ℤ_parts x z, +ℤ_parts y z);
  le-add = λ x y h. ground (arith, +ℤ_parts x y);
  lit_nonneg = λ m e. ground arith;
}
