-- ===== src/Examples/Exchange.antt =====
-- Runs of the order manager and of the validation ladder against the emulated exchange.
use treasuryforge.Base.{
  ℕ, zero, suc, ◌*◌, ◌+◌, ◌<◌, ◌≤◌, ◌≡◌, refl, true, false, none, some, List, [], ◌∷◌,
}
use treasuryforge.Base.Int.{ℤ, pos, ◌+ℤ◌, ◌-ℤ◌, ◌*ℤ◌}
use treasuryforge.Types.{Intent, Side, OrderType}
use treasuryforge.Orders.Attempts.{new_manager}
use treasuryforge.Orders.Accepted.{Call, submits, recovers, call_all}
use treasuryforge.Bitso.Executor.{bitso_executor, place_order, to_params, reconcile}
use treasuryforge.Bitso.Mock.{
  MockBitsoApi, mock_client, mock_executor, call_mock, place, match_side,
}
use treasuryforge.Bitso.Mock.AtMostOnce.{held_under, bitso, held-le-one}
use treasuryforge.Bitso.Mock.Refusals.{Untouched, place_order-Untouched}
use treasuryforge.Bitso.Errors.{classify}
use treasuryforge.Bitso.Validation.{
  Ladder, Rung, RungStatus, rung, run_ladder, balance_rung, withdraw_rung, withdraw_verdict,
  fee_rung, order_rungs, cancelled_path, tiny_buy,
}
use treasuryforge.Base.Result.{ok}
use treasuryforge.Bitso.Validation.Gated.{
  none_sent, counting_client, counting_executor, Halts, MayTrade, run_ladder-Gated,
}
use treasuryforge.Examples.Fixed.{fixed}

-- n / 1000
abbrev mills : ℕ → ℤ
mills n = pos (n * 1000000)

-- Two hundred pesos, a bitcoin at a million, and one rate limit to come.
abbrev exchange : MockBitsoApi ℤ
exchange = record {
  balances = ("mxn", mills 200000) ∷ ("btc", mills 0) ∷ [];
  fee_taker = pos 7800000;
  fee_maker = mills 6;
  prices = ("btc_mxn", mills 1000000000) ∷ [];
  withdrawals_allowed = false;
  books =
      (
        "btc_mxn",
        record { name = "btc_mxn"; minimum_amount = some (pos 6000); minimum_price = none },
      )
      ∷ [];
  tid = 0;
  oid = 0;
  orders = [];
  trades = [];
  calls = [];
  rate_limits = 1;
  oid_text = λ n. elim n [ zero ↦ "oid0" | suc k ↦ "oid1" ];
}

abbrev purchase : Intent ℤ
purchase = record {
  symbol = "BTC";
  side = Side.buy;
  base_amount = pos 0;
  reason = "signal";
  order_type = OrderType.market;
  limit_price = none;
  quote_amount = some (mills 20000);
}

abbrev purchases : List (Call ℤ)
purchases =
    submits (record { intent = purchase; origin_id = "a1"; symbol = "BTC"; max_attempts = 3 })
    ∷ recovers []
    ∷ submits (record { intent = purchase; origin_id = "a1"; symbol = "BTC"; max_attempts = 3 })
    ∷ []

bought_once :
    held_under "a1"
      (call_all "a1" (bitso "a1" (("BTC", "btc_mxn") ∷ []) (λ s. s)) purchases (
        new_manager "a1" 0 (bitso "a1" (("BTC", "btc_mxn") ∷ []) (λ s. s)) exchange)).venue.0.orders
    ≤ 1
bought_once = held-le-one "a1" (("BTC", "btc_mxn") ∷ []) (λ s. s) purchases exchange refl

-- The same without a rate limit.
abbrev calm_exchange : MockBitsoApi ℤ
calm_exchange = record exchange { rate_limits = 0 }

abbrev ladder : Ladder ℤ
ladder = record {
  symbol = "BTC";
  book = "btc_mxn";
  arm = true;
  max_mxn = mills 20000;
  origin_prefix = "tf-val";
}

armed_ladder :
    let (results, v) =
      run_ladder
        (counting_client mock_client)
        (counting_executor (bitso_executor (mock_executor (("BTC", "btc_mxn") ∷ []) (λ s. s))))
        ladder
        (calm_exchange, none_sent) in
    let sent = v.1 in
    (sent.orders ≤ 2)
    × (sent.cancels ≤ 1)
    × ((0 < sent.orders + sent.cancels)
        → MayTrade mock_client
            (bitso_executor (mock_executor (("BTC", "btc_mxn") ∷ []) (λ s. s)))
            ladder
            calm_exchange)
    × Halts results
armed_ladder =
    run_ladder-Gated mock_client (bitso_executor (mock_executor (("BTC", "btc_mxn") ∷ []) (λ s. s)))
      ladder calm_exchange

all_rungs_pass :
    (run_ladder mock_client
      (bitso_executor (mock_executor (("BTC", "btc_mxn") ∷ []) (λ s. s)))
      ladder
      calm_exchange).0
    ≡ ok (
        rung Rung.available_books RungStatus.pass
        ∷ rung Rung.balance RungStatus.pass
        ∷ rung Rung.no_withdraw RungStatus.pass
        ∷ rung Rung.fees RungStatus.pass
        ∷ rung Rung.kill_path RungStatus.pass
        ∷ rung Rung.tiny_order RungStatus.pass
        ∷ [])
unfolding run_ladder balance_rung withdraw_rung fee_rung order_rungs cancelled_path tiny_buy
    withdraw_verdict mock_client mock_executor bitso_executor call_mock place place_order to_params
    match_side reconcile ◌+ℤ◌ ◌-ℤ◌ ◌*ℤ◌
all_rungs_pass = refl

-- The rate limit refuses the purchase.
refused_purchase :
    Untouched exchange
      ((bitso_executor (mock_executor (("BTC", "btc_mxn") ∷ []) (λ s. s))).place_order purchase "a1"
        exchange).1
unfolding mock_client mock_executor bitso_executor call_mock place place_order to_params classify
refused_purchase =
    place_order-Untouched (("BTC", "btc_mxn") ∷ []) (λ s. s) purchase "a1" exchange refl
