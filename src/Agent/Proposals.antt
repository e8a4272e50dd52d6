-- ===== src/Agent/Proposals.antt =====
-- What the agent of treasuryforge/agent.py remembers and proposes.
use treasuryforge.Base.{
  ℕ, zero, suc, ◌-◌, ◌≤◌, ◌<◌, ◌≡◌, refl, sym, ap, ◌∙◌, inl, inr, true, false, none, some, List, [],
  ◌∷◌, ◌++◌, arith, if◌then◌else◌, ltb, leb, ◌==◌, Bool-cases, length, length-append, drop,
}
use treasuryforge.Base.Float.{
  Float, IsOrdered, ◌≼◌, ◌+◌ as ◌⊞◌, ◌/◌ as ◌⊘◌, sum, min, whole, min-le_left, min-le_right,
}
use treasuryforge.Types.{Intent, MarketTick, Side}
use treasuryforge.Wallet.{SimWallet, base_balance, tolerance}
use treasuryforge.Policy.{PolicyEngine, solvency}
use mathlib.Core.List.{append_assoc, append-nil}
use treasuryforge.Agent.{Format, MeanReversionAgent, popped, push, proposed, decide}

abbrev pub last {ℓ} : {B : Type ℓ} → ℕ → List B → List B
last n xs = drop (length xs - n) xs

module _ {ℓ} {B : Type ℓ} where
  drop-append : (k : ℕ) (xs ys : List B) → k ≤ length xs → drop k (xs ++ ys) ≡ drop k xs ++ ys
  drop-append zero xs ys h = refl
  drop-append (suc k) [] ys h = ground arith
  drop-append (suc k) (x ∷ xs) ys h = drop-append k xs ys (omega (arith, h))

  popped-drop : (k : ℕ) (xs : List B) → popped (drop k xs) ≡ drop (suc k) xs
  popped-drop zero [] = refl
  popped-drop zero (x ∷ xs) = refl
  popped-drop (suc k) [] = refl
  popped-drop (suc k) (x ∷ xs) = popped-drop k xs

  length-drop : (k : ℕ) (xs : List B) → length (drop k xs) ≡ length xs - k
  length-drop zero xs = omega arith
  length-drop (suc k) [] = omega arith
  length-drop (suc k) (x ∷ xs) = omega (arith, length-drop k xs)

  drop_empty : (k : ℕ) → drop {A = B} k [] ≡ []
  drop_empty zero = refl
  drop_empty (suc k) = refl

  length-last : (n : ℕ) (xs : List B) → length (last n xs) ≡ length xs - (length xs - n)
  length-last n xs = length-drop (length xs - n) xs

  push-last : (n : ℕ) (x : B) (xs : List B) → push n x (last n xs) ≡ last n (xs ++ x ∷ [])
  unfolding push
  push-last n x xs = elim (Bool-cases (leb n (length xs))) [
    | inl full ↦
        let k : ℕ = length xs - n in
        let kept = drop-append k xs (x ∷ []) (omega arith) in
        let more : ltb n (length (drop k xs ++ x ∷ [])) ≡ true =
          ground (arith, length-append (drop k xs) (x ∷ []), length-drop k xs) in
        let one : length (xs ++ x ∷ []) - n ≡ suc k = ground (arith, length-append xs (x ∷ [])) in
        rw (more, one) (ap popped (sym kept) ∙ popped-drop k (xs ++ x ∷ []))
    | inr short ↦
        let none_gone : length xs - n ≡ 0 = ground arith in
        let fits : ltb n (length (xs ++ x ∷ [])) ≡ false =
          ground (arith, length-append xs (x ∷ [])) in
        let none_goes : length (xs ++ x ∷ []) - n ≡ 0 = ground (arith, length-append xs (x ∷ [])) in
        rw (none_gone, fits, none_goes) refl
  ]

abbrev pub seen_prices : {A : Type 0} → List (MarketTick A × SimWallet A) → List A
seen_prices [] = []
seen_prices ((t, w) ∷ ts) = t.price ∷ seen_prices ts

module _ {A : Type 0} ⦃F : Float A⦄ (format : Format A) where
  -- The agent after it has decided on some ticks, each with the wallet of its time.
  unfoldable pub watched :
      List (MarketTick A × SimWallet A) → MeanReversionAgent A → MeanReversionAgent A
  watched [] a = a
  watched ((t, w) ∷ ts) a = watched ts (decide format t w a).1

  watched-last :
      (ts : List (MarketTick A × SimWallet A)) (a : MeanReversionAgent A) (seen : List A)
      → a.prices ≡ last a.window seen
      → watched ts a ≡ record a { prices = last a.window (seen ++ seen_prices ts) }
  unfolding watched decide
  watched-last [] a seen h =
      let same = h ∙ ap (last a.window) (sym (append-nil seen)) in λ i. record a { prices = same i }
  watched-last ((t, w) ∷ ts) a seen h =
      let b = record a { prices = push a.window t.price a.prices } in
      let kept = ap (push a.window t.price) h ∙ push-last a.window t.price seen in
      let rest = watched-last ts b (seen ++ t.price ∷ []) kept in
      rest
      ∙ ap (λ (xs : List A). record a { prices = last a.window xs })
          (append_assoc seen (t.price ∷ []) (seen_prices ts))

  -- A new agent with a window of at least one price never raises: before it has seen as many prices
  -- it proposes nothing, and then what it proposes is for the mean of the last of them.
  pub decide-last :
      (ts : List (MarketTick A × SimWallet A)) (t : MarketTick A) (w : SimWallet A)
      (a : MeanReversionAgent A)
      → a.prices ≡ []
      → 0 < a.window
      → let seen = seen_prices ts ++ t.price ∷ [] in
        (decide format t w (watched ts a)).0
        ≡ some (
            if ltb (length seen) a.window
            then none
            else proposed format a t.price
                (sum (last a.window seen) ⊘ whole a.window)
                (base_balance w a.symbol))
  unfolding decide proposed
  decide-last ts t w a new open_window =
      let seen = seen_prices ts ++ t.price ∷ [] in
      let nothing = new ∙ sym (drop_empty (0 - a.window)) in
      let before = watched-last ts a [] nothing in
      let few = length-last a.window seen in
      let kept = push-last a.window t.price (seen_prices ts) in
      rw (before, kept)
        (elim (Bool-cases (ltb (length seen) a.window)) [
          | inl warming ↦
              let short : ltb (length (last a.window seen)) a.window ≡ true = ground (arith, few) in
              rw (warming, short) refl
          | inr warm ↦
              let full : length (last a.window seen) ≡ a.window = ground (arith, few) in
              let enough : ltb a.window a.window ≡ false = ground arith in
              let open_ : (a.window == 0) ≡ false = ground arith in
              rw (warm, full, enough, open_) refl
        ])

  -- A sale that the agent proposes is of no more than the wallet holds, so no engine refuses it for
  -- want of the asset.
  pub proposed-solvency :
      IsOrdered A
      → (a : MeanReversionAgent A) (price ma n : A) (w : SimWallet A) (i : Intent A)
        (p : PolicyEngine A)
      → proposed format a price ma (base_balance w a.symbol) ≡ some i
      → i.side ≡ Side.sell
      → (i.base_amount ≼ base_balance w i.symbol)
        × (i.base_amount ≼ a.trade_base)
        × ((solvency Side.sell i w n p).0.allowed ≡ true)
  unfolding proposed solvency
  proposed-solvency laws a price ma n w i p h s =
      let held = base_balance w a.symbol in
      ground (
        arith,
        min-le_left laws a.trade_base held,
        min-le_right laws a.trade_base held,
        laws.lt-eq-not-le (held ⊞ tolerance) (min a.trade_base held),
        laws.le-add held tolerance (laws.lit_nonneg 1 9),
        laws.le_trans (min a.trade_base held) held (held ⊞ tolerance),
      )
