-- ===== src/Wallet.antt =====
-- treasuryforge/wallet.py: the simulated wallet, whose balances change by `apply_fill` alone.
pub mod Laws
use treasuryforge.Base.{
  ℕ, ◌≡◌, Bool, true, false, not, Option, none, some, List, [], ◌∷◌, String, str_eq, if◌then◌else◌,
}
use treasuryforge.Base.Float.{Float, ◌+◌, ◌*◌, lt, max, whole}
use treasuryforge.Base.Dict.{Dict, lookup, get_or, insert}
use treasuryforge.Base.Result.{Result, ok, err}
use treasuryforge.Types.{Fill, quote_delta, base_delta}
use mathlib.Core.List.{foldl}
use mathlib.Core.Option

pub record SimWallet (A : Type 0) : Type 0 where
  pub quote : A
  pub positions : Dict A

-- `InsufficientFunds`, with the numbers that its message prints.
pub data InsufficientFunds (A : Type 0) : Type 0 where
  quote_negative : A → A → InsufficientFunds A
  base_negative : String → A → InsufficientFunds A

module _ {A : Type 0} ⦃F : Float A⦄ where
  unfoldable pub base_balance : SimWallet A → String → A
  base_balance w s = get_or s (whole 0) w.positions

  -- One round of the loop in `equity`.
  abbrev mark : Dict A → A → String × A → A
  mark prices total (s, amount) = total + amount * get_or s (whole 0) prices

  unfoldable pub equity : SimWallet A → Dict A → A
  equity w prices = foldl (mark prices) w.quote w.positions

  -- 1e-9, the tolerance of every balance test
  abbrev pub tolerance : A
  tolerance = F.lit 1 9

  -- A raise leaves the wallet as it was: nothing is assigned before the tests.
  unfoldable pub apply_fill : Fill A → SimWallet A → Result (InsufficientFunds A) (SimWallet A)
  unfolding base_balance
  apply_fill f w =
      let new_quote = w.quote + quote_delta f in
      let new_base = base_balance w f.symbol + base_delta f in
      if lt new_quote (F.negate tolerance)
      then err (quote_negative new_quote w.quote)
      else if lt new_base (F.negate tolerance)
      then err (base_negative f.symbol new_base)
      else ok (record {
        quote = max new_quote (whole 0);
        positions = insert f.symbol (max new_base (whole 0)) w.positions;
      })

-- `{**acc, **d}`
abbrev pub update {ℓ} : {V : Type ℓ} → Dict V → Dict V → Dict V
update acc [] = acc
update acc ((k, v) ∷ d) = update (insert k v acc) d

pub snapshot : {A : Type 0} → SimWallet A → Dict A
snapshot w = update (("quote", w.quote) ∷ []) w.positions

abbrev pub without_quote : {A : Type 0} → Dict A → Dict A
without_quote [] = []
without_quote ((k, v) ∷ d) =
    let rest = without_quote d in if str_eq k "quote" then rest else (k, v) ∷ rest

-- `none` is the KeyError of a snapshot without a quote balance.
pub from_snapshot : {A : Type 0} → Dict A → Option (SimWallet A)
from_snapshot snap =
    Option.map (λ q. record { quote = q; positions = without_quote snap }) (lookup "quote" snap)
