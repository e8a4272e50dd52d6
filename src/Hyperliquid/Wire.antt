-- ===== src/Hyperliquid/Wire.antt =====
-- treasuryforge/exchanges/hyperliquid/wire.py: the rounding of an order and its payload. The decimal
-- texts of numbers are the numbers.
use treasuryforge.Base.{ℕ, ◌-◌, Bool, not, List, [], ◌∷◌, String, if◌then◌else◌, leb, contains}
use treasuryforge.Base.Float.{Float, ◌-◌ as ◌⊟◌, le, whole}
use treasuryforge.Base.Result.{Result, ok, err}

-- `float(f"{x:.5g}")`, and `round(x, -n)`
pub record Rounding (A : Type 0) : Type 0 where
  pub five_figures : A → A
  pub round_tens : A → ℕ → A

-- Why an order is not built: the errors of `_guard`, of the universe and of the wire format.
pub data Refusal (A : Type 0) : Type 0 where
  over_cap : A → A → Refusal A
  below_minimum : A → Refusal A
  cap_below_minimum : A → Refusal A
  not_listed : String → Refusal A
  unknown_tif : String → Refusal A
  price_not_positive : Refusal A
  rounds_to_zero : A → ℕ → Refusal A
  lossy : A → Refusal A

-- `build_order_action`'s one order.
pub record OrderAction (A : Type 0) : Type 0 where
  pub asset_index : ℕ
  pub is_buy : Bool
  pub price : A
  pub size : A
  pub reduce_only : Bool
  pub tif : String

abbrev pub tifs : List String
tifs = "Alo" ∷ "Ioc" ∷ "Gtc" ∷ []

module _ {A : Type 0} ⦃F : Float A⦄ (rounding : Rounding A) where
  -- `float_to_wire`, read back.
  unfoldable pub float_to_wire : A → Result (Refusal A) A
  float_to_wire x =
      let rounded = F.round_to x 8 in
      if le (F.lit 1 12) (F.magnitude (rounded ⊟ x)) then err (lossy x) else ok rounded

  abbrev pub rounded_to : A → ℕ → ℕ → A
  rounded_to x most less =
      if leb less most then F.round_to x (most - less) else rounding.round_tens x (less - most)

  unfoldable pub round_price : A → ℕ → Bool → Result (Refusal A) A
  round_price px sz_decimals is_perp =
      if le px (whole 0)
      then err price_not_positive
      else ok (rounded_to (rounding.five_figures px) (if is_perp then 6 else 8) sz_decimals)

  abbrev pub both_wired :
      OrderAction A
      → Result (Refusal A) A
      → Result (Refusal A) A
      → Result (Refusal A) (OrderAction A)
  both_wired o (err e) s = err e
  both_wired o (ok p) (err e) = err e
  both_wired o (ok p) (ok s) = ok (record o { price = p; size = s })

  abbrev pub wired : OrderAction A → ℕ → Result (Refusal A) A → Result (Refusal A) (OrderAction A)
  wired o d (err e) = err e
  wired o d (ok px) =
      let sz = F.round_to o.size d in
      if le sz (whole 0)
      then err (rounds_to_zero o.size d)
      else both_wired o (float_to_wire px) (float_to_wire sz)

  -- `build_order_action` of an order whose size and price are not rounded yet.
  unfoldable pub build_order_action : OrderAction A → ℕ → Bool → Result (Refusal A) (OrderAction A)
  build_order_action o sz_decimals is_perp =
      if not (contains o.tif tifs)
      then err (unknown_tif o.tif)
      else wired o sz_decimals (round_price o.price sz_decimals is_perp)
