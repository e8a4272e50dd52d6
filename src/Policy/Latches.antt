-- ===== src/Policy/Latches.antt =====
-- The latched state of `PolicyEngine` (treasuryforge/policy.py): the breaker and the drawdown anchor.
use treasuryforge.Base.{ℕ, ◌≡◌, true, false, Option, none, some, List, [], ◌∷◌, arith}
use treasuryforge.Base.Int.{ℤ}
use treasuryforge.Base.Float.{Float}
use treasuryforge.Types.{Intent, MarketTick, Side, notional}
use treasuryforge.Wallet.{SimWallet, equity}
use treasuryforge.Policy.{
  or_default, PolicyEngine, prune, stamp, spend_window, solvency, spend_budget, rate_limit, screen,
  staleness, evaluate, register_fill, snapshot, restore, fresh_engine,
}

-- What a caller does to an engine; `restart` is a crash after a snapshot, with a new engine.
pub data Event (A : Type 0) : Type 0 where
  evaluates : Intent A → MarketTick A → SimWallet A → Option ℤ → Event A
  registers : ℕ → A → Event A
  restarts : Event A

-- What no rule touches.
pub record SameLatches {A : Type 0} (p q : PolicyEngine A) : Type 0 where
  pub same_config : q.config ≡ p.config
  pub same_start : q.starting_equity ≡ p.starting_equity
  pub same_tripped : q.tripped ≡ p.tripped

module _ {A : Type 0} ⦃F : Float A⦄ where
  solvency-SameLatches :
      (s : Side) (i : Intent A) (w : SimWallet A) (n : A) (p : PolicyEngine A)
      → SameLatches p (solvency s i w n p).1
  unfolding solvency
  solvency-SameLatches Side.buy i w n p = ground arith
  solvency-SameLatches Side.sell i w n p = ground arith

  spend_budget-SameLatches :
      (cap : Option A) (t : MarketTick A) (i : Intent A) (w : SimWallet A) (n : A)
      (p : PolicyEngine A)
      → SameLatches p (spend_budget cap t i w n p).1
  unfolding spend_budget
  spend_budget-SameLatches none t i w n p = solvency-SameLatches i.side i w n p
  spend_budget-SameLatches (some cap) t i w n p = ground (
    arith,
    solvency-SameLatches i.side i w n
        (record p { spend = prune stamp t.ts (spend_window p.config) p.spend }),
  )

  screen-SameLatches :
      (t : MarketTick A) (i : Intent A) (w : SimWallet A) (p : PolicyEngine A)
      → SameLatches p (screen t i w p).1
  unfolding screen rate_limit
  screen-SameLatches t i w p = ground (
    arith,
    spend_budget-SameLatches p.config.max_notional_per_window t i w (notional i t.price)
        (record p { recent_ts = prune (λ ts. ts) t.ts p.config.window_steps p.recent_ts }),
  )

  staleness-SameLatches :
      (budget age : Option ℤ) (t : MarketTick A) (i : Intent A) (w : SimWallet A)
      (p : PolicyEngine A)
      → SameLatches p (staleness budget age t i w p).1
  unfolding staleness
  staleness-SameLatches (some b) (some a) t i w p = ground (arith, screen-SameLatches t i w p)
  staleness-SameLatches (some b) none t i w p = screen-SameLatches t i w p
  staleness-SameLatches none age t i w p = screen-SameLatches t i w p

  -- The breaker, once tripped, denies and stays tripped.
  evaluate_tripped :
      (p : PolicyEngine A) (i : Intent A) (t : MarketTick A) (w : SimWallet A) (age : Option ℤ)
      → p.tripped ≡ true
      → let (v, q) = evaluate p i t w age in (v.allowed ≡ false) × (q.tripped ≡ true)
  unfolding evaluate
  evaluate_tripped p i t w age h = ground arith

  -- The configuration is never changed.
  pub evaluate-config :
      (p : PolicyEngine A) (i : Intent A) (t : MarketTick A) (w : SimWallet A) (age : Option ℤ)
      → (evaluate p i t w age).1.config ≡ p.config
  unfolding evaluate
  evaluate-config p i t w age = ground (
    arith,
    staleness-SameLatches p.config.max_staleness_ns age t i w (record p {
      starting_equity = some (or_default p.starting_equity (equity w ((t.symbol, t.price) ∷ [])));
    }),
  )

  -- An evaluation that allows its intent leaves the breaker untripped, as it was.
  pub evaluate_untripped :
      (p : PolicyEngine A) (i : Intent A) (t : MarketTick A) (w : SimWallet A) (age : Option ℤ)
      → (evaluate p i t w age).0.allowed ≡ true
      → (evaluate p i t w age).1.tripped ≡ false
  unfolding evaluate
  evaluate_untripped p i t w age h = ground (
    arith,
    staleness-SameLatches p.config.max_staleness_ns age t i w (record p {
      starting_equity = some (or_default p.starting_equity (equity w ((t.symbol, t.price) ∷ [])));
    }),
  )

  abbrev pub handle : Event A → PolicyEngine A → PolicyEngine A
  handle (evaluates i t w age) p = (evaluate p i t w age).1
  handle (registers ts n) p = register_fill ts n p
  handle restarts p = restore (snapshot p) (fresh_engine p.config)

  pub run : List (Event A) → PolicyEngine A → PolicyEngine A
  run [] p = p
  run (e ∷ es) p = run es (handle e p)

  handle_tripped :
      (e : Event A) (p : PolicyEngine A) → p.tripped ≡ true → (handle e p).tripped ≡ true
  unfolding register_fill snapshot restore
  handle_tripped (evaluates i t w age) p h = (evaluate_tripped p i t w age h).1
  handle_tripped (registers ts n) p h = h
  handle_tripped restarts p h = h

  run_tripped :
      (es : List (Event A)) (p : PolicyEngine A) → p.tripped ≡ true → (run es p).tripped ≡ true
  unfolding run
  run_tripped [] p h = h
  run_tripped (e ∷ es) p h = run_tripped es (handle e p) (handle_tripped e p h)

  -- After the breaker has tripped, no evaluation allows anything, whatever evaluations, fills and
  -- restarts from a snapshot come between.
  pub evaluate-run_tripped :
      (es : List (Event A)) (p : PolicyEngine A) (i : Intent A) (t : MarketTick A) (w : SimWallet A)
      (age : Option ℤ)
      → p.tripped ≡ true
      → (evaluate (run es p) i t w age).0.allowed ≡ false
  evaluate-run_tripped es p i t w age h =
      (evaluate_tripped (run es p) i t w age (run_tripped es p h)).0
