-- ===== src/Examples/Guards.antt =====
-- Runs of the staleness gate, the dead-man's switch and the preflight.
use treasuryforge.Base.{ℕ, suc, ◌≡◌, ◌↔◌, Bool, true, false, none, some, List, [], ◌∷◌, leb}
use treasuryforge.Base.Int.{ℤ, pos}
use treasuryforge.Policy.{PolicyConfig}
use treasuryforge.Safety.Staleness.{StalenessGate}
use treasuryforge.Safety.Watchdog.{DeadMansSwitch, Watch, beats, supervises, tripped}
use treasuryforge.Safety.Preflight.{
  PreflightInputs, IsClear, run_preflight, is_ready, failures, run_preflight-IsClear,
}
use treasuryforge.Examples.Fixed.{fixed}

abbrev gate : StalenessGate
gate = record {
  max_data_age_ns = 60;
  max_clock_drift_ns = 5;
  last_data_ns = some 990;
  prev_wall_ns = some 980;
  prev_mono_ns = some 30;
}

-- A fail-safe that counts its calls, and raises at the first.
abbrev fail_safe : ℤ × ℤ → ℕ → Bool × ℕ
fail_safe reason n = (leb 1 n, suc n)

abbrev switch_at : Bool → DeadMansSwitch ℤ (ℕ × ℕ)
switch_at b = record {
  heartbeat = some (record { ts = pos 100; seq = 4; tripped = b; reason = none });
  timeout_s = pos 30;
  outside = (0, 0);
}

-- Of the three supervisions the first raises in the fail-safe and the second in the write.
abbrev night : List (Watch ℤ)
night =
    beats (pos 110)
    ∷ supervises (pos 150) true
    ∷ supervises (pos 160) false
    ∷ supervises (pos 170) true
    ∷ []

abbrev morning : List (Watch ℤ)
morning = supervises (pos 300) true ∷ beats (pos 310) ∷ []

abbrev config : PolicyConfig ℤ
config = record {
  allowed_symbols = "BTC_MXN" ∷ [];
  max_notional_per_tx = pos 100;
  max_tx_per_window = 2;
  window_steps = 10;
  max_drawdown_pct = pos 1;
  fee_rate = pos 0;
  kill_switch = false;
  min_notional_per_tx = none;
  max_notional_per_window = some (pos 1000);
  spend_window_steps = none;
  max_staleness_ns = none;
}

abbrev inputs : PreflightInputs ℤ
inputs = record {
  mode = some "live";
  config = some config;
  journal_dir = some "journal";
  writes = λ _. true;
  has_credentials = true;
  now_wall = pos 2000;
  exchange_reachable = true;
  data_age_s = some (pos 3);
  max_data_age_s = pos 60;
  clock_skew_s = some (pos 1);
  max_clock_skew_s = pos 2;
  min_sane_epoch = pos 1000;
}

live_preflight :
    ((is_ready (run_preflight inputs) ≡ true) ↔ ((c : PolicyConfig ℤ) × IsClear inputs c))
    × ((is_ready (run_preflight inputs) ≡ true) ↔ (failures (run_preflight inputs) ≡ []))
live_preflight = run_preflight-IsClear inputs
