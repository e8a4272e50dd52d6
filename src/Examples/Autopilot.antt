-- ===== src/Examples/Autopilot.antt =====
-- Runs of the unattended trader and of its paper book.
use treasuryforge.Base.{ℕ, suc, ◌*◌, ◌≡◌, ◌⊎◌, Bool, true, false, none, List, [], ◌∷◌, String}
use treasuryforge.Base.Int.{ℤ, pos}
use treasuryforge.Base.Result.{ok}
use treasuryforge.Policy.{fresh_engine}
use treasuryforge.Journal.{empty_journal}
use treasuryforge.Hyperliquid.{HlTwoPhaseExecutor, error}
use treasuryforge.Shadow.Scalp.{
  ScalpAction, enter, exit_stop, MomentumParams, Bar, new_book, observe_all, Run, phase_of,
  observe_all-Run,
}
use treasuryforge.Autonomous.{
  Arguments, Account, LiveTrader, Clock, Coin, build_policy, policy_config, maybe_execute,
}
use treasuryforge.Autonomous.Discipline.{Idle, Entered, maybe_execute-Entered}
use treasuryforge.Autonomous.Scan.{ScalpEvent}
use treasuryforge.Autonomous.Forgetting.{LiveRound, live_rounds, live_rounds-Forgotten}
use treasuryforge.Base.Float.{whole}
use treasuryforge.Examples.Fixed.{fixed}

-- n / 100
abbrev cents : ℕ → ℤ
cents n = pos (n * 10000000)

abbrev rule : MomentumParams ℤ
rule = record {
  enter_1m = cents 1;
  confirm_1m = cents 0;
  trail_frac = cents 4;
  stop_frac = cents 5;
  max_hold = 2;
  cost = cents 1;
}

abbrev bar : ℕ → Bar ℤ
bar price = record { high = cents price; low = cents price; close = cents price }

abbrev bars : List (Bar ℤ)
bars = bar 100 ∷ bar 100 ∷ bar 103 ∷ bar 104 ∷ bar 104 ∷ bar 90 ∷ []

ignition :
    Run 2
      (phase_of (new_book rule))
      (observe_all bars (new_book rule)).0
      (phase_of (observe_all bars (new_book rule)).1)
ignition = observe_all-Run bars (new_book rule)

-- An exchange that lists one coin and refuses every order; its state counts the orders.
abbrev exchange : HlTwoPhaseExecutor ℤ ℕ
exchange = record {
  order = λ s n. (ok (error "Insufficient margin"), suc n);
  all_mids = λ n. (ok (("BTC", cents 5000) ∷ []), n);
  meta = λ n. (ok (record { name = "BTC"; sz_decimals = 5 } ∷ []), n);
  user_fills = λ n. (ok [], n);
  rounding = record { five_figures = λ x. x; round_tens = λ x n. x };
  sha256 = λ s. "e3b0c44298fc1c149afbf4c8996fb924";
  first = λ n s. s;
  lower = λ s. s;
  in_text = λ s t. false;
  explain = λ r. "refused";
  max_notional_usd = none;
  slippage = cents 2;
  reduce_only = false;
}

abbrev account : Account ℤ ℕ
account = record {
  available_collateral = λ n. (ok (cents 100000), n);
  open_positions = λ n. (ok [], n);
}

abbrev decimal : ℕ → String
decimal n = "1700000000"

abbrev args : Arguments ℤ
args = record {
  tier = cents 2;
  max_notional_pct = cents 20;
  max_spend_pct = cents 50;
  max_dd = cents 10;
  max_tx = 5;
  policy_window = 3600;
}

abbrev clock : Clock
clock = record { tick_at = 1000; origin_at = 1000; fill_at = 1001 }

abbrev trader : LiveTrader ℤ ℕ
trader = record {
  policy = fresh_engine (policy_config args ("BTC" ∷ []) (cents 100000));
  policy_journal = [];
  orders_journal = empty_journal;
  venue = 0;
}

first_entry :
    let l' =
      (maybe_execute exchange account decimal true enter clock "BTC"
        (cents 5000)
        (cents 2)
        trader).1 in
    Idle exchange account decimal trader l'
    ⊎ (◌≡◌ {A = Bool} true true
        × Entered exchange account decimal clock "BTC" (cents 5000) (cents 2) trader l')
first_entry =
    maybe_execute-Entered exchange account decimal true clock "BTC" (cents 5000) (cents 2) trader

abbrev coin : Coin ℤ
coin = record {
  name = "BTC";
  book = new_book rule;
  journal = [];
  last_bar = none;
  trade_eq = whole 1;
}

abbrev round : ScalpAction → LiveRound ℤ
round action = record {
  armed = true;
  action = action;
  clock = clock;
  price = cents 5000;
  tier = cents 2;
  coin = coin;
}

-- A gate that every record of paper trades opens.
abbrev opened : List (ScalpEvent ℤ) → Bool
opened events = true

entry_and_exit :
    let l' =
      live_rounds exchange account decimal opened (round enter ∷ round exit_stop ∷ []) trader in
    let engine = build_policy args ("BTC" ∷ []) (cents 100000) in
    (l'.policy_journal ≡ [])
    × (engine l'.policy_journal ≡ engine [])
    × (trader.policy.recent_ts ≡ [] → l'.policy.recent_ts ≡ [])
entry_and_exit =
    live_rounds-Forgotten exchange account decimal opened (round enter ∷ round exit_stop ∷ [])
      trader args ("BTC" ∷ []) (cents 100000)
