-- ===== src/Examples/Policies.antt =====
-- Runs of the policy engine, the wallet and the risk ladder.
use treasuryforge.Base.{
  ℕ, ◌*◌, ◌≤◌, ◌≡◌, refl, ◌↔◌, true, false, none, some, List, [], ◌∷◌, arith, length, keep,
}
use treasuryforge.Base.Int.{ℤ, pos}
use treasuryforge.Types.{Intent, MarketTick, Side, OrderType}
use treasuryforge.Wallet.{SimWallet}
use treasuryforge.Policy.{PolicyConfig, PolicyEngine, evaluate, fresh_engine}
use treasuryforge.Policy.Admission.{Admissible, evaluate-Admissible}
use treasuryforge.Policy.Latches.{Event, evaluates, registers, restarts, evaluate-run_tripped}
use treasuryforge.Policy.Latches
use treasuryforge.Policy.Window.{in_window}
use treasuryforge.Policy.Rate.{Request, trade_all, trade_all-rate}
use treasuryforge.Examples.Fixed.{fixed}

-- n / 100
abbrev cents : ℕ → ℤ
cents n = pos (n * 10000000)

abbrev config : PolicyConfig ℤ
config = record {
  allowed_symbols = "BTC_MXN" ∷ [];
  max_notional_per_tx = cents 10000;
  max_tx_per_window = 2;
  window_steps = 10;
  max_drawdown_pct = cents 20;
  fee_rate = cents 1;
  kill_switch = false;
  min_notional_per_tx = some (cents 100);
  max_notional_per_window = some (cents 15000);
  spend_window_steps = none;
  max_staleness_ns = none;
}

abbrev wallet : SimWallet ℤ
wallet = record { quote = cents 100000; positions = ("BTC_MXN", cents 200) ∷ [] }

abbrev tick : ℕ → MarketTick ℤ
tick ts = record { symbol = "BTC_MXN"; price = cents 5000; ts = ts }

abbrev intent : Intent ℤ
intent = record {
  symbol = "BTC_MXN";
  side = Side.buy;
  base_amount = cents 100;
  reason = "signal";
  order_type = OrderType.market;
  limit_price = none;
  quote_amount = none;
}

evaluate_allows :
    ((evaluate (fresh_engine config) intent (tick 7) wallet (some (pos 3))).0.allowed ≡ true)
    ↔ Admissible (fresh_engine config) intent (tick 7) wallet (some (pos 3))
evaluate_allows = evaluate-Admissible (fresh_engine config) intent (tick 7) wallet (some (pos 3))

abbrev request : ℕ → Request ℤ
request ts = record {
  intent = intent;
  tick = tick ts;
  wallet = wallet;
  data_age = none;
  filled = cents 5000;
}

abbrev requests : List (Request ℤ)
requests = request 1 ∷ request 2 ∷ request 3 ∷ request 12 ∷ []

four_requests :
    length (
      keep
        (in_window 10 4)
        (trade_all requests (record { engine = fresh_engine config; fills = [] })).fills)
    ≤ 2
four_requests =
    trade_all-rate config requests 4 (omega arith, (omega arith, (omega arith, (omega arith, tt))))

abbrev tripped_engine : PolicyEngine ℤ
tripped_engine = record (fresh_engine config) { tripped = true }

abbrev history : List (Event ℤ)
history = evaluates intent (tick 3) wallet none ∷ restarts ∷ registers 5 (cents 5000) ∷ []

tripped_denies :
    (evaluate (Latches.run history tripped_engine) intent (tick 9) wallet none).0.allowed ≡ false
tripped_denies = evaluate-run_tripped history tripped_engine intent (tick 9) wallet none refl
