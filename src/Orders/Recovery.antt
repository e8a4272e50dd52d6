-- ===== src/Orders/Recovery.antt =====
-- `recover` and the replay of settled orders, of treasuryforge/orders.py.
use treasuryforge.Base.{ℕ, ◌≡◌, refl, true, some, [], ◌∷◌, ◌++◌, String, arith}
use treasuryforge.Base.Dict.{Dict, lookup}
use treasuryforge.Base.Result.{Result, ok}
use treasuryforge.Types.{Intent}
use treasuryforge.Orders.{
  OrderHandle, Raised, TwoPhaseExecutor, OrderRecord, Orders, Manager, outcome, ◌>>=◌, pure,
  is_terminal, try_fill, resolve_in, submit, recover_one, recover_all, recover,
}

module _ {A W : Type 0} (ex : TwoPhaseExecutor A W) where
  -- The same venue with another way to place orders.
  abbrev replacing : (Intent A → String → W → Result Raised OrderHandle × W) → TwoPhaseExecutor A W
  replacing place = record { place_order = place; reconcile = ex.reconcile }

  recover_one-replacing :
      (place : Intent A → String → W → Result Raised OrderHandle × W) (symbol_of : Dict String)
      (k : String) (r : OrderRecord A)
      → recover_one (replacing place) symbol_of k r ≡ recover_one ex symbol_of k r
  unfolding recover_one try_fill
  recover_one-replacing place symbol_of k r = refl

  recover_all-replacing :
      (place : Intent A → String → W → Result Raised OrderHandle × W) (symbol_of : Dict String)
      (orders : Orders A)
      → recover_all (replacing place) symbol_of orders ≡ recover_all ex symbol_of orders
  unfolding recover_all
  recover_all-replacing place symbol_of [] = refl
  recover_all-replacing place symbol_of ((k, r) ∷ rest) = λ j.
      recover_one-replacing place symbol_of k r j >>= λ first.
      recover_all-replacing place symbol_of rest j >>= λ others. pure (first ++ others)

  -- A restart never places an order: what recovery returns, writes and does at the venue is the same
  -- whatever placing an order would do.
  pub recover-replacing :
      (place : Intent A → String → W → Result Raised OrderHandle × W) (symbol_of : Dict String)
      (s : Manager A W)
      → recover (record { place_order = place; reconcile = ex.reconcile }) symbol_of s
        ≡ recover ex symbol_of s
  unfolding recover
  recover-replacing place symbol_of s = λ j. recover_all-replacing place symbol_of s.orders j s

  -- A settled order is replayed: the recorded outcome comes back, and neither the venue, the journal
  -- nor the records change.
  pub submit_settled :
      (i : Intent A) (origin_id symbol : String) (max_attempts : ℕ) (s : Manager A W)
      {r : OrderRecord A}
      → lookup origin_id s.orders ≡ some r
      → is_terminal r.state ≡ true
      → submit ex i origin_id symbol max_attempts s ≡ (ok (outcome r), s)
  unfolding submit resolve_in
  submit_settled i origin_id symbol max_attempts s {r} e t = ground arith
