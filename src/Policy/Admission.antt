-- ===== src/Policy/Admission.antt =====
-- When `PolicyEngine.evaluate` (treasuryforge/policy.py) lets an intent through.
use treasuryforge.Base.{
  ◌<◌, ◌≡◌, ◌↔◌, true, false, Option, none, some, [], ◌∷◌, map, arith, length, contains,
}
use treasuryforge.Base.Int.{ℤ, ◌≤ℤ◌}
use treasuryforge.Base.Float.{Float, ◌+◌ as ◌⊞◌, ◌-◌ as ◌⊟◌, ◌*◌ as ◌⊠◌, lt, whole, sum}
use treasuryforge.Types.{Intent, MarketTick, Side, notional}
use treasuryforge.Wallet.{SimWallet, equity, base_balance, tolerance}
use treasuryforge.Policy.{
  PolicyEngine, spend_window, prune, amount, stamp, or_default, below_floor, solvency, spend_budget,
  rate_limit, screen, staleness, evaluate,
}

-- Rule 3: the data is not known to be older than its budget.
abbrev pub NotStale : Option ℤ → Option ℤ → Type 0
NotStale (some budget) (some age) = age ≤ℤ budget
NotStale _ _ = Unit

module _ {A : Type 0} ⦃F : Float A⦄ where
  -- Rule 7, where there is a budget: what the window holds and the new trade fit it.
  abbrev pub InBudget : Option A → A → A → Type 0
  InBudget none spent n = Unit
  InBudget (some cap) spent n = lt (cap ⊞ tolerance) (spent ⊞ n) ≡ false

  -- Rule 8: the wallet covers the trade.
  abbrev pub IsSolvent : Side → Intent A → SimWallet A → A → A → Type 0
  IsSolvent Side.buy i w fee n = lt (w.quote ⊞ tolerance) (n ⊠ (whole 1 ⊞ fee)) ≡ false
  IsSolvent Side.sell i w fee n = lt (base_balance w i.symbol ⊞ tolerance) i.base_amount ≡ false

  -- The eight rules as a specification, each by itself and in no order.
  pub record Admissible (p : PolicyEngine A) (i : Intent A) (t : MarketTick A) (w : SimWallet A)
      (age : Option ℤ) : Type 0 where
    pub alive : p.config.kill_switch ≡ false
    pub untripped : p.tripped ≡ false
    pub above_floor :
        lt (equity w ((t.symbol, t.price) ∷ [])) (
          or_default p.starting_equity (equity w ((t.symbol, t.price) ∷ []))
          ⊠ (whole 1 ⊟ p.config.max_drawdown_pct))
        ≡ false
    pub fresh : NotStale p.config.max_staleness_ns age
    pub listed : contains i.symbol p.config.allowed_symbols ≡ true
    pub capped : lt p.config.max_notional_per_tx (notional i t.price) ≡ false
    pub floored : below_floor p.config.min_notional_per_tx (notional i t.price) ≡ false
    pub rated :
        length (prune (λ ts. ts) t.ts p.config.window_steps p.recent_ts)
        < p.config.max_tx_per_window
    pub budgeted :
        InBudget p.config.max_notional_per_window
          (sum (map amount (prune stamp t.ts (spend_window p.config) p.spend)))
          (notional i t.price)
    pub solvent : IsSolvent i.side i w p.config.fee_rate (notional i t.price)

  abbrev Allows : Side → Option A → PolicyEngine A → Intent A → MarketTick A → SimWallet A → Type 0
  Allows s cap p i t w =
      InBudget cap (sum (map amount (prune stamp t.ts (spend_window p.config) p.spend)))
        (notional i t.price)
      × IsSolvent s i w p.config.fee_rate (notional i t.price)

  solvency-allowed :
      (s : Side) (i : Intent A) (w : SimWallet A) (n : A) (p : PolicyEngine A)
      → ((solvency s i w n p).0.allowed ≡ true) ↔ IsSolvent s i w p.config.fee_rate n
  unfolding solvency
  solvency-allowed Side.buy i w n p = ground arith
  solvency-allowed Side.sell i w n p = ground arith

  spend_budget-allowed :
      (cap : Option A) (t : MarketTick A) (i : Intent A) (w : SimWallet A) (p : PolicyEngine A)
      → ((spend_budget cap t i w (notional i t.price) p).0.allowed ≡ true)
        ↔ Allows i.side cap p i t w
  unfolding spend_budget
  spend_budget-allowed none t i w p =
      ground (arith, solvency-allowed i.side i w (notional i t.price) p)
  spend_budget-allowed (some cap) t i w p = ground (
    arith,
    solvency-allowed i.side i w (notional i t.price)
        (record p { spend = prune stamp t.ts (spend_window p.config) p.spend }),
  )

  abbrev Passes : PolicyEngine A → Intent A → MarketTick A → SimWallet A → Type 0
  Passes p i t w =
      (contains i.symbol p.config.allowed_symbols ≡ true)
      × (lt p.config.max_notional_per_tx (notional i t.price) ≡ false)
      × (below_floor p.config.min_notional_per_tx (notional i t.price) ≡ false)
      × (length (prune (λ ts. ts) t.ts p.config.window_steps p.recent_ts)
          < p.config.max_tx_per_window)
      × Allows i.side p.config.max_notional_per_window p i t w

  screen-allowed :
      (t : MarketTick A) (i : Intent A) (w : SimWallet A) (p : PolicyEngine A)
      → ((screen t i w p).0.allowed ≡ true) ↔ Passes p i t w
  unfolding screen rate_limit
  screen-allowed t i w p = ground (
    arith,
    spend_budget-allowed p.config.max_notional_per_window t i w
        (record p { recent_ts = prune (λ ts. ts) t.ts p.config.window_steps p.recent_ts }),
  )

  staleness-allowed :
      (budget age : Option ℤ) (t : MarketTick A) (i : Intent A) (w : SimWallet A)
      (p : PolicyEngine A)
      → ((staleness budget age t i w p).0.allowed ≡ true) ↔ NotStale budget age × Passes p i t w
  unfolding staleness
  staleness-allowed (some b) (some a) t i w p = ground (arith, screen-allowed t i w p)
  staleness-allowed (some b) none t i w p = ground (arith, screen-allowed t i w p)
  staleness-allowed none age t i w p = ground (arith, screen-allowed t i w p)

  -- `evaluate` allows an intent exactly when all eight rules hold.
  pub evaluate-Admissible :
      (p : PolicyEngine A) (i : Intent A) (t : MarketTick A) (w : SimWallet A) (age : Option ℤ)
      → ((evaluate p i t w age).0.allowed ≡ true) ↔ Admissible p i t w age
  unfolding evaluate
  evaluate-Admissible p i t w age = ground (
    arith,
    staleness-allowed p.config.max_staleness_ns age t i w (record p {
      starting_equity = some (or_default p.starting_equity (equity w ((t.symbol, t.price) ∷ [])));
    }),
  )
