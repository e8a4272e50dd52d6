-- ===== src/Examples/OrderRuns.antt =====
-- Runs of the order manager against a venue that counts its calls.
use treasuryforge.Base.{ℕ, suc, ◌≤◌, ◌≡◌, refl, zero, none, some, List, [], ◌∷◌, String, arith}
use treasuryforge.Base.Int.{ℤ, pos}
use treasuryforge.Base.Result.{Result, ok, err}
use treasuryforge.Types.{Intent, Side, OrderType, Fill}
use treasuryforge.Bitso.Errors.{Category}
use treasuryforge.Orders.{
  OrderHandle, Raised, bitso_error, TwoPhaseExecutor, OrderState, OrderRecord, Orders, Manager,
  Reconciled, filled, unfilled, submit, recover,
}
use treasuryforge.Orders.Attempts.{Submission, submit_all, new_manager, placed-le-limit}
use treasuryforge.Orders.Accepted.{Call, submits, recovers, call_all, landed_at, accepted-le-one}
use treasuryforge.Orders.Progress.{Settles, fills, times_out, Ends, submit-Settles}
use treasuryforge.Orders.Recovery.{recover-replacing}
use treasuryforge.Orders.Crash.{answering, submit_placing}

abbrev intent : Intent ℤ
intent = record {
  symbol = "BTC_MXN";
  side = Side.buy;
  base_amount = pos 1;
  reason = "signal";
  order_type = OrderType.market;
  limit_price = none;
  quote_amount = none;
}

-- A venue whose state counts the calls: it times out on every order, and has no fill of any.
abbrev timing_out : Intent ℤ → String → ℕ → Result Raised OrderHandle × ℕ
timing_out i id n = (err (bitso_error Category.indeterminate "timeout"), suc n)

abbrev no_fill : OrderHandle → String → ℕ → Result Raised (Reconciled ℤ) × ℕ
no_fill h symbol n = (ok unfilled, suc n)

abbrev venue : TwoPhaseExecutor ℤ ℕ
venue = record { place_order = timing_out; reconcile = no_fill }

abbrev submission : Submission ℤ
submission = record { intent = intent; origin_id = "a1"; symbol = "BTC_MXN"; max_attempts = 3 }

twice_submitted :
    (submit_all "a1" 3 venue (submission ∷ submission ∷ []) (new_manager "a1" 3 venue 0)).venue.1
    ≤ 3
twice_submitted =
    placed-le-limit "a1" 3 venue (submission ∷ submission ∷ []) 0
      ((λ _. omega arith), ((λ _. omega arith), tt))

abbrev record_in : OrderState → OrderRecord ℤ
record_in st = record {
  origin_id = "a1";
  state = st;
  symbol = "BTC_MXN";
  book = "btc_mxn";
  side = Side.buy;
  oid = none;
  attempts = 1;
  reason = "";
  fill = none;
}

abbrev manager_in : OrderState → Manager ℤ ℕ
manager_in st =
    let orders : Orders ℤ = ("a1", record_in st) ∷ [] in
    record { orders = orders; journal = record { ledger = []; state = some orders }; venue = 0 }

recovered_without_placing :
    recover
      (record { place_order = timing_out; reconcile = no_fill })
      []
      (manager_in OrderState.unknown)
    ≡ recover venue [] (manager_in OrderState.unknown)
recovered_without_placing = recover-replacing venue timing_out [] (manager_in OrderState.unknown)

-- A venue that knows the first order and refuses a second under its id.
abbrev refusing : Intent ℤ → String → ℕ → Result Raised OrderHandle × ℕ
refusing i id n = (err (bitso_error Category.non_retryable "duplicate origin_id"), suc n)

placing_resent :
    let (result, s') =
      submit (answering refusing no_fill) intent "a1" "BTC_MXN" 3 (manager_in OrderState.placing) in
    (result
      ≡ ok (record {
        origin_id = "a1";
        state = OrderState.rejected;
        fill = none;
        reason = "duplicate origin_id";
      }))
    × (s'.venue ≡ 1)
placing_resent =
    submit_placing refusing no_fill intent "a1" "BTC_MXN" 3 (manager_in OrderState.placing) refl
      refl (omega arith) refl refl

abbrev bought : Fill ℤ
bought = record {
  symbol = "BTC_MXN";
  side = Side.buy;
  base_amount = pos 1;
  price = pos 5;
  fee = pos 0;
  ts = 7;
  fee_currency = "base";
}

-- A venue whose state counts down the orders that time out; then it accepts one and reports its fill.
abbrev moody : TwoPhaseExecutor ℤ ℕ
moody = record {
  place_order = λ i id n. elim n [
    | zero ↦ (ok (record { origin_id = id; oid = some "o7"; book = "btc_mxn"; side = Side.buy }), 0)
    | suc k ↦ (err (bitso_error Category.indeterminate "timeout"), suc k)
  ];
  reconcile = λ h symbol n. elim n [ zero ↦ (ok (filled bought), 0) | suc k ↦ (ok unfilled, k) ];
}

abbrev calls : List (Call ℤ)
calls = submits submission ∷ recovers [] ∷ submits submission ∷ []

accepted_once :
    ((call_all "a1" moody calls (new_manager "a1" 0 moody 1)).venue.1 ≤ 1)
    × ((call_all "a1" moody calls (new_manager "a1" 0 moody 1)).venue.1
        ≤ landed_at "a1" (call_all "a1" moody calls (new_manager "a1" 0 moody 1)).orders)
accepted_once = accepted-le-one "a1" moody calls 1

moody-Settles : Settles moody intent "a1" bought 1 1
moody-Settles =
    times_out 0 1 1 0 Category.indeterminate "timeout" refl refl (λ h s. refl)
      (fills 0 0 0 _ refl (λ h s. refl))

filled_at_last :
    Ends moody bought "a1"
      (submit moody intent "a1" "BTC_MXN" 3
        (record { orders = []; journal = record { ledger = []; state = none }; venue = 1 })).0
filled_at_last =
    submit-Settles moody 1 intent "a1" "BTC_MXN" 3
      (record { orders = []; journal = record { ledger = []; state = none }; venue = 1 }) bought
      refl (omega arith) moody-Settles
