-- ===== src/Risk/Tax/Fifo.antt =====
-- The order in which a sale of treasuryforge/risk/tax.py uses up lots, and what a restart keeps.
use treasuryforge.Base.{
  ℕ, suc, ◌≤◌, ◌≡◌, refl, sym, subst, ◌∙◌, ◌⊎◌, inl, inr, Bool, true, false, not, List, [], ◌∷◌,
  ◌++◌, map, String, arith, Bool-cases, length, length-append, keep, take, drop, if◌then◌else◌,
}
use treasuryforge.Base.Float.{Float, ◌-◌ as ◌⊟◌, lt, le, min, whole, sum}
use mathlib.Core.List.{append_assoc}
use treasuryforge.Base.Result.{ok, err}
use treasuryforge.Risk.Tax.{
  BuyLot, MatchedTrade, FifoTaxLedger, FillError, not_saved, TaxFill, save, load, owned, inventory,
  match_entry, remnant, match_lots, sell, buy, add_fill,
}

keep-append {ℓ} :
    {B : Type ℓ} (p : B → Bool) (xs ys : List B) → keep p (xs ++ ys) ≡ keep p xs ++ keep p ys
keep-append p [] ys = refl
keep-append p (x ∷ xs) ys = ground (arith, keep-append p xs ys)

module _ {A : Type 0} ⦃F : Float A⦄ where
  -- The ids of the lots that a list of matches sold from, and of the lots of a list.
  abbrev pub sold_from : List (MatchedTrade A) → List String
  sold_from ms = map (λ t. t.buy_id) ms

  abbrev pub ids : List (BuyLot A) → List String
  ids lots = map (λ lot. lot.fill_id) lots

  -- The matches are with the oldest `n` lots of the coin, in order; the younger ones stay as they
  -- are, behind at most `n` remnants; and the lots of other coins stay as they are.
  pub record Fifo (coin : String) (n : ℕ) (lots : List (BuyLot A))
      (p : List (MatchedTrade A) × List (BuyLot A)) : Type 0 where
    pub oldest_first : sold_from p.0 ≡ ids (take n (inventory coin lots))
    pub remnants : List (BuyLot A)
    pub few : length remnants ≤ n
    pub younger_kept : inventory coin p.1 ≡ remnants ++ drop n (inventory coin lots)
    pub others_kept :
        keep (λ lot. not (owned coin lot)) p.1 ≡ keep (λ lot. not (owned coin lot)) lots

  match_lots_sold :
      (f : TaxFill A) (r : A) (lots : List (BuyLot A))
      → le r (whole 0) ≡ true
      → match_lots f r lots ≡ ([], lots)
  unfolding match_lots
  match_lots_sold f r [] h = refl
  match_lots_sold f r (lot ∷ lots) h = ground (arith, match_lots_sold f r lots h)

  remnant-owned :
      (coin : String) (part : A) (lot : BuyLot A)
      → owned coin lot ≡ true
      → (inventory coin (remnant part lot) ≡ remnant part lot)
        × (keep (λ l. not (owned coin l)) (remnant part lot) ≡ [])
        × (length (remnant part lot) ≤ 1)
  remnant-owned coin part lot h = ground arith

  unsold-Fifo : (coin : String) (lots : List (BuyLot A)) → Fifo coin 0 lots ([], lots)
  unsold-Fifo coin lots = record {
    oldest_first = refl;
    remnants = [];
    few = omega arith;
    younger_kept = refl;
    others_kept = refl;
  }

  skipped-Fifo :
      (coin : String) (n : ℕ) (lot : BuyLot A) (lots : List (BuyLot A))
      (p : List (MatchedTrade A) × List (BuyLot A))
      → owned coin lot ≡ false
      → Fifo coin n lots p
      → Fifo coin n (lot ∷ lots) (p.0, lot ∷ p.1)
  skipped-Fifo coin n lot lots p e v = record {
    oldest_first = rw e v.oldest_first;
    remnants = v.remnants;
    few = v.few;
    younger_kept = rw e v.younger_kept;
    others_kept = rw (e, v.others_kept) refl;
  }

  matched-Fifo :
      (f : TaxFill A) (n : ℕ) (part : A) (lot : BuyLot A) (lots : List (BuyLot A))
      (p : List (MatchedTrade A) × List (BuyLot A))
      → owned f.coin lot ≡ true
      → Fifo f.coin n lots p
      → Fifo f.coin (suc n) (lot ∷ lots) (match_entry f part lot ∷ p.0, remnant part lot ++ p.1)
  matched-Fifo f n part lot lots p e v =
      let (own, other, one) = remnant-owned f.coin part lot e in
      let left = remnant part lot in
      record {
        oldest_first = rw (e, v.oldest_first) refl;
        remnants = left ++ v.remnants;
        few = omega (arith, length-append left v.remnants, one, v.few);
        younger_kept =
            keep-append (owned f.coin) left p.1
            ∙ rw (e, own, v.younger_kept)
                (sym (append_assoc left v.remnants (drop n (inventory f.coin lots))));
        others_kept =
            keep-append (λ l. not (owned f.coin l)) left p.1 ∙ rw (e, other, v.others_kept) refl;
      }

  match_lots-Fifo :
      (f : TaxFill A) (r : A) (lots : List (BuyLot A))
      → (n : ℕ) × Fifo f.coin n lots (match_lots f r lots)
  unfolding match_lots
  match_lots-Fifo f r [] = (0, unsold-Fifo f.coin [])
  match_lots-Fifo f r (lot ∷ lots) = elim (Bool-cases (owned f.coin lot)) [
    | inr other ↦
        let (n, v) = match_lots-Fifo f r lots in
        rw other (n, skipped-Fifo f.coin n lot lots _ other v)
    | inl own ↦ elim (Bool-cases (le r (whole 0))) [
      | inl sold ↦
          subst (λ p. (n : ℕ) × Fifo f.coin n (lot ∷ lots) p)
            (sym (match_lots_sold f r (lot ∷ lots) sold)) (0, unsold-Fifo f.coin (lot ∷ lots))
      | inr left ↦
          let part = min r lot.qty in
          let (n, v) = match_lots-Fifo f (r ⊟ part) lots in
          rw (left, own) (suc n, matched-Fifo f n part lot lots _ own v)
    ]
  ]

  -- What a sale of `r` takes from each of some quantities, the oldest first, until it is sold.
  abbrev pub parts : A → List A → List A
  parts r [] = []
  parts r (q ∷ qs) =
      let later = parts (r ⊟ min r q) qs in if le r (whole 0) then [] else min r q ∷ later

  -- What it leaves of them, but dust.
  abbrev pub left : A → List A → List A
  left r [] = []
  left r (q ∷ qs) =
      let rest = q ⊟ min r q in
      let later = left (r ⊟ min r q) qs in
      if le r (whole 0) then q ∷ qs else if lt (F.lit 1 10) rest then rest ∷ later else later

  abbrev pub quantities : List (BuyLot A) → List A
  quantities lots = map (λ lot. lot.qty) lots

  match_lots-parts :
      (f : TaxFill A) (r : A) (lots : List (BuyLot A))
      → let (matches, kept) = match_lots f r lots in
        (map (λ t. t.qty) matches ≡ parts r (quantities (inventory f.coin lots)))
        × (quantities (inventory f.coin kept) ≡ left r (quantities (inventory f.coin lots)))
  unfolding match_lots
  match_lots-parts f r [] = (refl, refl)
  match_lots-parts f r (lot ∷ lots) = ground (
    arith,
    match_lots-parts f r lots,
    match_lots-parts f (r ⊟ min r lot.qty) lots,
    match_lots_sold f r lots,
  )

  -- A sale that returns takes from the lots of its coin, the oldest first, what each has until the
  -- quantity is sold, and leaves the rest of them, but dust; it matches them in that order; it leaves
  -- the younger lots of the coin and all lots of other coins as they were, and adds its matches to
  -- those on record.
  pub sell-Fifo :
      (written : Bool) (f : TaxFill A) (l : FifoTaxLedger A) {ms : List (MatchedTrade A)}
      → (sell written f l).0 ≡ ok ms
      → let l' = (sell written f l).1 in
        let held = quantities (inventory f.coin l.active_lots) in
        ((n : ℕ) × Fifo f.coin n l.active_lots (ms, l'.active_lots))
        × (map (λ t. t.qty) ms ≡ parts f.qty held)
        × (quantities (inventory f.coin l'.active_lots) ≡ left f.qty held)
        × (l'.matched_trades ≡ l.matched_trades ++ ms)
  unfolding sell save
  sell-Fifo false f l {ms} e =
      elim (Bool-cases (lt (sum (map (λ lot. lot.qty) (inventory f.coin l.active_lots))) f.qty)) [
        | inl short ↦ absurd (cc (rw short at e))
        | inr enough ↦ absurd (cc (rw enough at e))
      ]
  sell-Fifo true f l {ms} e =
      elim (Bool-cases (lt (sum (map (λ lot. lot.qty) (inventory f.coin l.active_lots))) f.qty)) [
        | inl short ↦ cc
        | inr enough ↦
            let sold : (match_lots f f.qty l.active_lots).0 ≡ ms = cc in
            let (taken, rest) = match_lots-parts f f.qty l.active_lots in
            rw (enough, sym sold) (match_lots-Fifo f f.qty l.active_lots, taken, rest, refl)
      ]

  -- On a ledger that agrees with its file: a fill that raises is not in the file, from which a new
  -- process loads the ledger of before, and it has changed nothing in memory either unless it was the
  -- save that raised; and after a fill that returns, a new process loads the ledger as it is.
  pub load-add_fill :
      (upper : String → String) (side : String) (written : Bool) (f : TaxFill A)
      (l : FifoTaxLedger A)
      → load l.file ≡ l
      → let (result, l') = add_fill upper side written f l in
        ((e : FillError A) → result ≡ err e → (load l'.file ≡ l) × ((e ≡ not_saved) ⊎ (l' ≡ l)))
        × ((ms : List (MatchedTrade A)) → result ≡ ok ms → load l'.file ≡ l')
  unfolding add_fill buy sell save load
  load-add_fill upper side written f l h = ground arith
