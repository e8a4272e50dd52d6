-- ===== src/Risk/Tax.antt =====
-- treasuryforge/risk/tax.py: the FIFO ledger of lots and matched sales. The file is the state that it
-- holds, `none` where there is no file; `save` replaces it whole, or raises and leaves it. The fields
-- that it writes as JSON read back as they were. Python's `str.upper` is a parameter.
pub mod Fifo
use treasuryforge.Base.{
  ℕ, zero, suc, ◌+◌, ◌-◌, ◌≤◌, ◌<◌, ◌≡◌, ◌≢◌, refl, sym, subst, ap, ◌∙◌, ◌↔◌, ◌⊎◌, inl, inr, Bool,
  true, false, not, ◌&&◌, ◌||◌, Option, none, some, List, [], ◌∷◌, ◌++◌, map, String, str_eq,
  eq_iff, eq_refl, arith, if◌then◌else◌, ltb, leb, ◌==◌, Bool-cases, Option-cases, is_some, length,
  length-append, all, any, keep, All, All-append, contains, take,
}
use treasuryforge.Base.Float.{
  Float, ◌+◌ as ◌⊞◌, ◌-◌ as ◌⊟◌, ◌*◌ as ◌⊠◌, ◌/◌ as ◌⊘◌, lt, le, min, whole, sum,
}
use treasuryforge.Base.Result.{Result, ok, err}

pub record BuyLot (A : Type 0) : Type 0 where
  pub coin : String
  pub qty : A
  pub price : A
  pub ts : ℕ
  pub fee : A
  pub fill_id : String

pub record MatchedTrade (A : Type 0) : Type 0 where
  pub coin : String
  pub qty : A
  pub buy_ts : ℕ
  pub sell_ts : ℕ
  pub buy_price : A
  pub sell_price : A
  pub buy_fee : A
  pub sell_fee : A
  pub buy_id : String
  pub sell_id : String
  pub realized_pnl : A

-- What `save` writes.
pub record SavedLedger (A : Type 0) : Type 0 where
  pub lots : List (BuyLot A)
  pub trades : List (MatchedTrade A)

pub record FifoTaxLedger (A : Type 0) : Type 0 where
  pub active_lots : List (BuyLot A)
  pub matched_trades : List (MatchedTrade A)
  pub file : Option (SavedLedger A)

-- The ValueErrors of `add_fill`, in the order of the code, and an exception of `save`.
pub data FillError (A : Type 0) : Type 0 where
  quantity_not_positive : A → FillError A
  price_not_positive : A → FillError A
  fee_negative : A → FillError A
  insufficient_inventory : String → A → A → FillError A
  unknown_side : String → FillError A
  not_saved : FillError A

-- The arguments of a fill, after the side.
pub record TaxFill (A : Type 0) : Type 0 where
  pub fill_id : String
  pub ts : ℕ
  pub coin : String
  pub qty : A
  pub price : A
  pub fee : A

-- `save`, which `written` says to return or to raise; the ledger in memory has changed by then.
unfoldable pub save :
    {A : Type 0}
    → Bool
    → List (MatchedTrade A)
    → FifoTaxLedger A
    → Result (FillError A) (List (MatchedTrade A)) × FifoTaxLedger A
save false ms l = (err not_saved, l)
save true ms l =
    (ok ms, record l { file = some (record { lots = l.active_lots; trades = l.matched_trades }) })

-- A new process: `__init__` and `load`.
unfoldable pub load : {A : Type 0} → Option (SavedLedger A) → FifoTaxLedger A
load none = record { active_lots = []; matched_trades = []; file = none }
load (some s) = record { active_lots = s.lots; matched_trades = s.trades; file = some s }

module _ {A : Type 0} ⦃F : Float A⦄ where
  abbrev pub owned : String → BuyLot A → Bool
  owned coin lot = str_eq lot.coin coin

  -- `get_inventory`, of an upper-case coin
  abbrev pub inventory : String → List (BuyLot A) → List (BuyLot A)
  inventory coin lots = keep (owned coin) lots

  unfoldable pub get_unrealized_cost_basis : String → List (BuyLot A) → A
  get_unrealized_cost_basis coin lots = sum (map (λ lot. lot.qty ⊠ lot.price) (inventory coin lots))

  -- A share of a fee; nothing is shared out of a quantity that is not positive.
  abbrev share : A → A → A → A
  share fee part qty = if lt (whole 0) qty then fee ⊠ (part ⊘ qty) else whole 0

  abbrev pub match_entry : TaxFill A → A → BuyLot A → MatchedTrade A
  match_entry f part lot =
      let buy_fee = share lot.fee part lot.qty in
      let sell_fee = share f.fee part f.qty in
      record {
        coin = f.coin;
        qty = part;
        buy_ts = lot.ts;
        sell_ts = f.ts;
        buy_price = lot.price;
        sell_price = f.price;
        buy_fee = buy_fee;
        sell_fee = sell_fee;
        buy_id = lot.fill_id;
        sell_id = f.fill_id;
        realized_pnl = part ⊠ f.price ⊟ part ⊠ lot.price ⊟ buy_fee ⊟ sell_fee;
      }

  -- What is left of a lot, which is dropped when it is dust.
  abbrev pub remnant : A → BuyLot A → List (BuyLot A)
  remnant part lot =
      let left = lot.qty ⊟ part in
      if lt (F.lit 1 10) left
      then record lot { qty = left; fee = lot.fee ⊟ share lot.fee part lot.qty } ∷ []
      else []

  -- The loop of `_match_sell`, with what remains to be sold.
  unfoldable pub match_lots :
      TaxFill A → A → List (BuyLot A) → List (MatchedTrade A) × List (BuyLot A)
  match_lots f remaining [] = ([], [])
  match_lots f remaining (lot ∷ lots) =
      let skip = not (owned f.coin lot) || le remaining (whole 0) in
      let part = min remaining lot.qty in
      let (matches, kept) = match_lots f (if skip then remaining else remaining ⊟ part) lots in
      if skip
      then (matches, lot ∷ kept)
      else (match_entry f part lot ∷ matches, remnant part lot ++ kept)

  -- `_match_sell` and the branch of `add_fill` that calls it.
  unfoldable pub sell :
      Bool
      → TaxFill A
      → FifoTaxLedger A
      → Result (FillError A) (List (MatchedTrade A)) × FifoTaxLedger A
  sell written f l =
      let available = sum (map (λ lot. lot.qty) (inventory f.coin l.active_lots)) in
      let (matches, kept) = match_lots f f.qty l.active_lots in
      if lt available f.qty
      then (err (insufficient_inventory f.coin f.qty available), l)
      else save written matches
          (record l { active_lots = kept; matched_trades = l.matched_trades ++ matches })

  unfoldable pub buy :
      Bool
      → TaxFill A
      → FifoTaxLedger A
      → Result (FillError A) (List (MatchedTrade A)) × FifoTaxLedger A
  buy written f l =
      let lot : BuyLot A = record {
        coin = f.coin;
        qty = f.qty;
        price = f.price;
        ts = f.ts;
        fee = f.fee;
        fill_id = f.fill_id;
      } in
      save written [] (record l { active_lots = l.active_lots ++ lot ∷ [] })

  unfoldable pub add_fill :
      (String → String)
      → String
      → Bool
      → TaxFill A
      → FifoTaxLedger A
      → Result (FillError A) (List (MatchedTrade A)) × FifoTaxLedger A
  add_fill upper side written f l =
      let f' = record f { coin = upper f.coin } in
      if le f.qty (whole 0)
      then (err (quantity_not_positive f.qty), l)
      else if le f.price (whole 0)
      then (err (price_not_positive f.price), l)
      else if lt f.fee (whole 0)
      then (err (fee_negative f.fee), l)
      else if str_eq (upper side) "BUY"
      then buy written f' l
      else if str_eq (upper side) "SELL"
      then sell written f' l
      else (err (unknown_side (upper side)), l)
