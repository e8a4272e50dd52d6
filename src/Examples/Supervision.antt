-- ===== src/Examples/Supervision.antt =====
-- Runs of the supervisor, the service and the runner.
use treasuryforge.Base.{
  ℕ, suc, ◌+◌, ◌*◌, ◌≡◌, refl, Bool, true, false, ◌==◌, none, some, List, [], ◌∷◌, String, length,
}
use treasuryforge.Base.Int.{ℤ, pos}
use treasuryforge.Base.Result.{ok}
use treasuryforge.Types.{Intent, MarketTick, Side, OrderType}
use treasuryforge.Wallet.{SimWallet}
use treasuryforge.Journal.{empty_journal}
use treasuryforge.Policy.{PolicyConfig, fresh_engine}
use treasuryforge.Orders.{TwoPhaseExecutor, Orders, unfilled}
use treasuryforge.Safety.Preflight.{PreflightInputs}
use treasuryforge.Live.{Strategy, LiveSupervisor, StepInput, step}
use treasuryforge.Live.Guarded.{Guarded, step-Guarded}
use treasuryforge.Live.Budget.{Uncounted, steps, steps-Uncounted}
use treasuryforge.Service.{HaltReason, Service, FeedItem, run}
use treasuryforge.Executor.{SimExecutor, execute}
use treasuryforge.Runner.{Runner, RunReport}
use treasuryforge.Runner
use treasuryforge.Runner.Persistence.{Persisted, run-Persisted}
use treasuryforge.Wallet.Laws.{NonNeg}
use treasuryforge.Runner.Solvency.{run-NonNeg}
use treasuryforge.Examples.Fixed.{fixed, fixed-IsOrdered}

-- n / 100
abbrev cents : ℕ → ℤ
cents n = pos (n * 10000000)

abbrev config : PolicyConfig ℤ
config = record {
  allowed_symbols = "BTC_MXN" ∷ [];
  max_notional_per_tx = cents 10000;
  max_tx_per_window = 2;
  window_steps = 10;
  max_drawdown_pct = cents 20;
  fee_rate = cents 1;
  kill_switch = false;
  min_notional_per_tx = none;
  max_notional_per_window = some (cents 15000);
  spend_window_steps = none;
  max_staleness_ns = none;
}

abbrev wallet : SimWallet ℤ
wallet = record { quote = cents 100000; positions = [] }

abbrev intent : Intent ℤ
intent = record {
  symbol = "BTC_MXN";
  side = Side.buy;
  base_amount = cents 100;
  reason = "signal";
  order_type = OrderType.market;
  limit_price = none;
  quote_amount = none;
}

-- A strategy that buys at every tick, and counts its decisions.
abbrev buying : Strategy ℤ ℕ
buying = record { decide = λ t w n. (some intent, suc n) }

-- A venue that accepts every order, and has filled none.
abbrev accepting : TwoPhaseExecutor ℤ ℕ
accepting = record {
  place_order = λ i id n.
      (ok (record { origin_id = id; oid = some "o1"; book = "btc_mxn"; side = i.side }), suc n);
  reconcile = λ h symbol n. (ok unfilled, n);
}

abbrev origin_for : Intent ℤ → MarketTick ℤ → String
origin_for i t = "a1"

abbrev tick : ℕ → MarketTick ℤ
tick ts = record { symbol = "BTC_MXN"; price = cents 5000; ts = ts }

abbrev input : ℕ → StepInput ℤ
input n = record { tick = tick n; wallet = wallet; wall_ns = 1000 + n; mono_ns = 10 + n }

abbrev supervisor : Orders ℤ → LiveSupervisor ℤ ℕ ℕ ℕ
supervisor orders = record {
  policy = fresh_engine config;
  agent = 0;
  orders = record {
    orders = orders;
    journal = record { ledger = []; state = some orders };
    venue = 0;
  };
  watchdog = record { heartbeat = none; timeout_s = cents 3000; outside = 0 };
  staleness = record {
    max_data_age_ns = 60;
    max_clock_drift_ns = 5;
    last_data_ns = some 999;
    prev_wall_ns = none;
    prev_mono_ns = none;
  };
}

first_step :
    Guarded buying accepting origin_for
      (input 1)
      (supervisor [])
      (step buying accepting origin_for (input 1) (supervisor [])).1
first_step = step-Guarded buying accepting origin_for (input 1) (supervisor [])

two_steps :
    Uncounted buying accepting origin_for
      (steps buying accepting origin_for (input 1 ∷ input 2 ∷ []) (supervisor []))
two_steps =
    steps-Uncounted buying accepting origin_for (input 1 ∷ input 2 ∷ []) (supervisor []) refl

abbrev inputs : String → PreflightInputs ℤ
inputs mode = record {
  mode = some mode;
  config = some config;
  journal_dir = some "journal";
  writes = λ _. true;
  has_credentials = true;
  now_wall = pos 2000;
  exchange_reachable = true;
  data_age_s = some (pos 3);
  max_data_age_s = pos 60;
  clock_skew_s = some (pos 1);
  max_clock_skew_s = pos 2;
  min_sane_epoch = pos 1000;
}

abbrev service : Orders ℤ → Service ℤ ℕ ℕ ℕ
service orders = record { supervisor = supervisor orders; halts = []; steps = [] }

abbrev feed : List (FeedItem ℤ)
feed = record { input = input 1; data_wall_ns = 1000 } ∷ []

-- A fail-safe that returns at its first call only.
abbrev first_call : List (HaltReason ℤ) → HaltReason ℤ → Bool
first_call calls r = length calls == 0

abbrev simulated : SimExecutor ℤ
simulated = record { fee_rate = cents 1; slippage_bps = cents 500 }

abbrev runner : Runner ℤ ℕ
runner = record {
  policy = fresh_engine config;
  agent = 0;
  wallet = wallet;
  journal = some empty_journal;
  audit = none;
  last_prices = [];
  report = record {
    initial_equity = pos 0;
    final_equity = pos 0;
    fills = [];
    ledger = [];
    denials = [];
    breaker_tripped = false;
  };
  first = true;
  pending = none;
}

abbrev fall : List (MarketTick ℤ)
fall = tick 1 ∷ record (tick 2) { price = cents 10 } ∷ []

fallen_market :
    Persisted (Runner.run buying (execute simulated) 0 fall runner)
    × ((Runner.run buying (execute simulated) 0 fall runner).report.breaker_tripped
        ≡ (Runner.run buying (execute simulated) 0 fall runner).policy.tripped)
fallen_market = run-Persisted buying (execute simulated) 0 fall runner refl

solvent_market : NonNeg (Runner.run buying (execute simulated) 0 fall runner).wallet
solvent_market = run-NonNeg fixed-IsOrdered buying simulated 0 fall runner (refl, tt)
