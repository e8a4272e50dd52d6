-- ===== src/Examples/Taxes.antt =====
-- Runs of the tax ledger.
use treasuryforge.Base.{ℕ, ◌*◌, ◌≡◌, refl, ◌⊎◌, true, false, some, List, [], ◌∷◌, map, String}
use treasuryforge.Base.Int.{ℤ, pos, ◌+ℤ◌}
use treasuryforge.Base.Result.{ok, err}
use treasuryforge.Risk.Tax.{
  BuyLot, FifoTaxLedger, MatchedTrade, FillError, not_saved, TaxFill, inventory, load, save,
  match_lots, sell, add_fill,
}
use treasuryforge.Risk.Tax.Fifo.{Fifo, parts, left, quantities, sell-Fifo, load-add_fill}
use treasuryforge.Examples.Fixed.{fixed}

-- n units
abbrev units : ℕ → ℤ
units n = pos (n * 1000000000)

abbrev lot : String → String → ℕ → BuyLot ℤ
lot coin id n = record {
  coin = coin;
  qty = units n;
  price = units 10;
  ts = 1;
  fee = units 1;
  fill_id = id;
}

abbrev lots : List (BuyLot ℤ)
lots = lot "BTC" "b1" 2 ∷ lot "ETH" "b2" 5 ∷ lot "BTC" "b3" 4 ∷ []

abbrev ledger : FifoTaxLedger ℤ
ledger = record {
  active_lots = lots;
  matched_trades = [];
  file = some (record { lots = lots; trades = [] });
}

abbrev sale : TaxFill ℤ
sale = record {
  fill_id = "s1";
  ts = 9;
  coin = "BTC";
  qty = units 3;
  price = units 12;
  fee = units 1;
}

one_sale :
    let l' = (sell true sale ledger).1 in
    let ms = (match_lots sale (units 3) lots).0 in
    let held = quantities (inventory "BTC" lots) in
    ((n : ℕ) × Fifo "BTC" n lots (ms, l'.active_lots))
    × (map (λ t. t.qty) ms ≡ parts (units 3) held)
    × (quantities (inventory "BTC" l'.active_lots) ≡ left (units 3) held)
    × (l'.matched_trades ≡ ms)
unfolding sell save ◌+ℤ◌
one_sale = sell-Fifo true sale ledger refl

-- A sale whose save fails.
sale_survives :
    let (result, l') = add_fill (λ s. s) "SELL" false sale ledger in
    ((e : FillError ℤ)
      → result ≡ err e
      → (load l'.file ≡ ledger) × ((e ≡ not_saved) ⊎ (l' ≡ ledger)))
    × ((ms : List (MatchedTrade ℤ)) → result ≡ ok ms → load l'.file ≡ l')
unfolding load
sale_survives = load-add_fill (λ s. s) "SELL" false sale ledger refl
