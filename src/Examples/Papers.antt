-- ===== src/Examples/Papers.antt =====
-- Runs of the paper book, of the agent, and of an order at Hyperliquid.
use treasuryforge.Base.{ℕ, suc, ◌*◌, ◌≡◌, Bool, true, false, none, some, List, [], ◌∷◌}
use treasuryforge.Base.Int.{ℤ, pos}
use treasuryforge.Base.Result.{ok}
use treasuryforge.Types.{Intent, Side, OrderType}
use treasuryforge.Journal.{Journal}
use treasuryforge.Shadow.{
  Action, FundingCarrySignal, ShadowEvent, shadow, other, Track, Observation, observe_all, new_book,
}
use treasuryforge.Shadow.Replay.{new_book-observe_all}
use treasuryforge.Agent.{MeanReversionAgent}
use treasuryforge.Hyperliquid.{HlTwoPhaseExecutor, error}
use treasuryforge.Examples.Fixed.{fixed}

-- n / 100
abbrev cents : ℕ → ℤ
cents n = pos (n * 10000000)

abbrev signal : FundingCarrySignal ℤ
signal = record {
  params = record {
    enter_rate = cents 2;
    exit_rate = cents 1;
    fee_per_leg = cents 1;
    legs_round_trip = 4;
  };
  min_age = 0;
  in_position = false;
  age = 0;
}

abbrev observed : ℕ → Bool → Observation ℤ
observed rate allowed = record { funding_rate = cents rate; ts = 7; allow_entry = allowed }

abbrev observations : List (Observation ℤ)
observations = observed 3 false ∷ observed 3 true ∷ observed 2 true ∷ observed 0 true ∷ []

abbrev old_journal : Journal (ShadowEvent ℤ) (Track ℤ)
old_journal = record {
  ledger =
      other "basis"
      ∷ shadow (record { ts = 1; action = Action.enter; funding = cents 3; r = cents 1; age = 1 })
      ∷ [];
  state = none;
}

book_reopened :
    let b = observe_all observations (new_book signal (some old_journal)) in
    new_book signal b.journal ≡ b
book_reopened = new_book-observe_all signal old_journal observations

abbrev agent : MeanReversionAgent ℤ
agent = record {
  symbol = "TOKEN";
  window = 2;
  threshold = cents 2;
  trade_base = cents 100;
  prices = [];
}

-- An exchange that lists one coin and refuses every order; its state counts the orders.
abbrev exchange : HlTwoPhaseExecutor ℤ ℕ
exchange = record {
  order = λ s n. (ok (error "Insufficient margin"), suc n);
  all_mids = λ n. (ok (("BTC", cents 5000) ∷ []), n);
  meta = λ n. (ok (record { name = "BTC"; sz_decimals = 5 } ∷ []), n);
  user_fills = λ n. (ok [], n);
  rounding = record { five_figures = λ x. x; round_tens = λ x n. x };
  sha256 = λ s. "e3b0c44298fc1c149afbf4c8996fb924";
  first = λ n s. s;
  lower = λ s. s;
  in_text = λ s t. false;
  explain = λ r. "refused";
  max_notional_usd = some (cents 10000);
  slippage = cents 2;
  reduce_only = false;
}

abbrev perp : Intent ℤ
perp = record {
  symbol = "BTC";
  side = Side.buy;
  base_amount = cents 100;
  reason = "signal";
  order_type = OrderType.market;
  limit_price = none;
  quote_amount = none;
}
