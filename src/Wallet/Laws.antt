-- ===== src/Wallet/Laws.antt =====
-- What `apply_fill` and the snapshots of treasuryforge/wallet.py keep.
use treasuryforge.Base.{
  ◌≡◌, refl, sym, ◌∙◌, inl, inr, Bool-cases, true, false, none, some, [], ◌∷◌, ◌++◌, String, str_eq,
  eq_iff, if◌then◌else◌, arith,
}
use treasuryforge.Base.Float.{Float, IsOrdered, ◌≼◌, whole, max, le-max_right, ◌+◌, lt}
use treasuryforge.Base.Dict.{Dict, lookup, insert, lookup-insert}
use treasuryforge.Base.Result.{Result, ok, err}
use treasuryforge.Types.{Fill, quote_delta, base_delta}
use treasuryforge.Wallet.{
  SimWallet, apply_fill, base_balance, tolerance, update, snapshot, without_quote, from_snapshot,
  InsufficientFunds,
}
use mathlib.Core.List.{append_assoc, append-nil}

module _ {A : Type 0} ⦃F : Float A⦄ where
  -- Every position of the dict is at least zero.
  abbrev pub NonNegDict : Dict A → Type 0
  NonNegDict [] = Unit
  NonNegDict ((k, v) ∷ d) = (whole 0 ≼ v) × NonNegDict d

  abbrev pub NonNeg : SimWallet A → Type 0
  NonNeg w = (whole 0 ≼ w.quote) × NonNegDict w.positions

  insert-NonNeg :
      (k : String) (v : A) (d : Dict A) → whole 0 ≼ v → NonNegDict d → NonNegDict (insert k v d)
  insert-NonNeg k v [] h n = (h, tt)
  insert-NonNeg k v ((j, w) ∷ d) h n = ground (arith, insert-NonNeg k v d h n.1)

  -- What a call of `apply_fill` that began at `w` has done: it raised because a balance would have
  -- gone below the tolerance, or each of the two balances is the sum clamped at zero and no other
  -- balance has changed.
  abbrev pub Applied : Fill A → SimWallet A → Result (InsufficientFunds A) (SimWallet A) → Type 0
  Applied f w (ok w') =
      (lt (w.quote + quote_delta f) (F.negate tolerance) ≡ false)
      × (lt (base_balance w f.symbol + base_delta f) (F.negate tolerance) ≡ false)
      × (w'.quote ≡ max (w.quote + quote_delta f) (whole 0))
      × ((s : String)
          → lookup s w'.positions ≡ (
              if str_eq f.symbol s
              then some (max (base_balance w f.symbol + base_delta f) (whole 0))
              else lookup s w.positions))
  Applied f w (err (InsufficientFunds.quote_negative new have)) =
      (new ≡ w.quote + quote_delta f) × (lt new (F.negate tolerance) ≡ true)
  Applied f w (err (InsufficientFunds.base_negative s new)) =
      (new ≡ base_balance w f.symbol + base_delta f) × (lt new (F.negate tolerance) ≡ true)

  pub apply_fill-Applied : (f : Fill A) (w : SimWallet A) → Applied f w (apply_fill f w)
  unfolding apply_fill base_balance
  apply_fill-Applied f w = elim (Bool-cases (lt new_quote floor)) [
    | inl short ↦ rw short (refl, short)
    | inr enough ↦ rw enough (elim (Bool-cases (lt new_base floor)) [
      | inl short ↦ rw short (refl, short)
      | inr held ↦ rw held (enough, held, refl, λ s. lookup-insert f.symbol s _ w.positions)
    ])
  ]
    where
      floor : A
      floor = F.negate tolerance

      new_quote : A
      new_quote = w.quote + quote_delta f

      new_base : A
      new_base = base_balance w f.symbol + base_delta f

  -- No fill drives a balance below zero.
  pub apply_fill-NonNeg :
      IsOrdered A
      → (f : Fill A) (w : SimWallet A) {w' : SimWallet A} → NonNeg w
      → apply_fill f w ≡ ok w'
      → NonNeg w'
  unfolding apply_fill
  apply_fill-NonNeg laws f w h e = ground (
    arith,
    le-max_right laws (w.quote + quote_delta f) (whole 0),
    insert-NonNeg f.symbol (max (base_balance w f.symbol + base_delta f) (whole 0)) w.positions
        (le-max_right laws (base_balance w f.symbol + base_delta f) (whole 0)) h.1,
  )

-- No key is listed twice, and none is the key of the quote balance.
abbrev pub Distinct {ℓ} : {V : Type ℓ} → Dict V → Type ℓ
Distinct [] = Unit
Distinct ((k, v) ∷ d) = (str_eq k "quote" ≡ false) × (lookup k d ≡ none) × Distinct d

module _ {ℓ} {V : Type ℓ} where
  insert_new :
      (k : String) (v : V) (d : Dict V) → lookup k d ≡ none → insert k v d ≡ d ++ (k, v) ∷ []
  insert_new k v [] h = refl
  insert_new k v ((j, w) ∷ d) h = ground (arith, insert_new k v d)

  lookup-append_none :
      (k : String) (c d : Dict V) → lookup k c ≡ none → lookup k d ≡ none → lookup k (c ++ d) ≡ none
  lookup-append_none k [] d h g = g
  lookup-append_none k ((j, w) ∷ c) d h g = ground (arith, lookup-append_none k c d)

  -- No key of `d` is a key of `acc`.
  abbrev Fresh : Dict V → Dict V → Type ℓ
  Fresh acc [] = Unit
  Fresh acc ((k, v) ∷ d) = (lookup k acc ≡ none) × Fresh acc d

  Fresh-snoc :
      (acc : Dict V) (k : String) (v : V) (d : Dict V)
      → Fresh acc d
      → lookup k d ≡ none
      → Fresh (acc ++ (k, v) ∷ []) d
  Fresh-snoc acc k v [] f h = tt
  Fresh-snoc acc k v ((j, w) ∷ d) f h = ground (
    arith,
    Fresh-snoc acc k v d f.1,
    eq_iff j k,
    eq_iff k j,
    lookup-append_none j acc ((k, v) ∷ []) f.0,
  )

  update-append : (acc d : Dict V) → Fresh acc d → Distinct d → update acc d ≡ acc ++ d
  update-append acc [] f u = sym (append-nil acc)
  update-append acc ((k, v) ∷ d) f u = rw (insert_new k v acc f.0) (
      update-append (acc ++ (k, v) ∷ []) d (Fresh-snoc acc k v d f.1 u.1) u.2
      ∙ append_assoc acc ((k, v) ∷ []) d)

  Fresh-quote : (q : V) (d : Dict V) → Distinct d → Fresh (("quote", q) ∷ []) d
  Fresh-quote q [] u = tt
  Fresh-quote q ((k, v) ∷ d) u =
      ground (arith, eq_iff k "quote", eq_iff "quote" k, Fresh-quote q d u.2)

without_quote-Distinct : {A : Type 0} (d : Dict A) → Distinct d → without_quote d ≡ d
without_quote-Distinct [] u = refl
without_quote-Distinct ((k, v) ∷ d) u = ground (arith, without_quote-Distinct d u.2)

-- A wallet comes back from its own snapshot, where its symbols are distinct and none is "quote".
pub from_snapshot-snapshot :
    {A : Type 0} (w : SimWallet A) → Distinct w.positions → from_snapshot (snapshot w) ≡ some w
unfolding from_snapshot snapshot
from_snapshot-snapshot w u =
    rw (update-append (("quote", w.quote) ∷ []) w.positions (Fresh-quote w.quote w.positions u) u)
      (rw (without_quote-Distinct w.positions u))
