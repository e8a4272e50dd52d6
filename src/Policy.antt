-- ===== src/Policy.antt =====
-- treasuryforge/policy.py: the guard rules between a proposed intent and any execution. Each rule is
-- a function that denies or hands the engine on, chained in the order of the source.
pub mod Admission
pub mod Latches
pub mod Window
pub mod Rate
use treasuryforge.Base.{
  ℕ, ◌+◌, ◌≡◌, Bool, true, false, not, ◌&&◌, ◌||◌, Option, none, some, List, [], ◌∷◌, ◌++◌, map,
  String, if◌then◌else◌, leb, length, contains,
}
use treasuryforge.Base.Int.{ℤ, ltb_ℤ}
use treasuryforge.Base.Float.{Float, ◌+◌ as ◌⊞◌, ◌-◌ as ◌⊟◌, ◌*◌ as ◌⊠◌, lt, whole, sum}
use treasuryforge.Base.Dict.{Dict}
use treasuryforge.Types.{Intent, MarketTick, Verdict, Reason, Side, notional}
use treasuryforge.Wallet.{SimWallet, equity, base_balance, tolerance}

pub record PolicyConfig (A : Type 0) : Type 0 where
  pub allowed_symbols : List String
  pub max_notional_per_tx : A
  pub max_tx_per_window : ℕ
  pub window_steps : ℕ
  pub max_drawdown_pct : A
  pub fee_rate : A
  pub kill_switch : Bool
  pub min_notional_per_tx : Option A
  pub max_notional_per_window : Option A
  pub spend_window_steps : Option ℕ
  pub max_staleness_ns : Option ℤ

-- `PolicyConfig._spend_window`
abbrev pub spend_window : {A : Type 0} → PolicyConfig A → ℕ
spend_window c = elim c.spend_window_steps [ none ↦ c.window_steps | some n ↦ n ]

pub record PolicyEngine (A : Type 0) : Type 0 where
  pub config : PolicyConfig A
  pub starting_equity : Option A
  pub tripped : Bool
  pub recent_ts : List ℕ
  pub spend : List (ℕ × A)

-- `PolicyEngine._prune`, on a queue whose entries are stamped by `stamp`: pop from the left while
-- the stamp is at most `now - window`. `ts <= now - window` is written without the subtraction.
unfoldable pub prune {ℓ} : {B : Type ℓ} → (B → ℕ) → ℕ → ℕ → List B → List B
prune stamp now window [] = []
prune stamp now window (x ∷ xs) =
    if leb (stamp x + window) now then prune stamp now window xs else x ∷ xs

-- A ruling, and the engine that is left behind.
abbrev pub Ruling : Type 0 → Type 0
Ruling A = Verdict A × PolicyEngine A

abbrev pub deny : {A : Type 0} → Reason A → PolicyEngine A → Ruling A
deny r p = (record { allowed = false; reason = r }, p)

abbrev pub admit : {A : Type 0} → PolicyEngine A → Ruling A
admit p = (record { allowed = true; reason = Reason.allow }, p)

abbrev pub amount : {A : Type 0} → ℕ × A → A
amount (_, n) = n

abbrev pub stamp : {A : Type 0} → ℕ × A → ℕ
stamp (ts, _) = ts

abbrev pub or_default {ℓ} : {B : Type ℓ} → Option B → B → B
or_default none b = b
or_default (some a) _ = a

module _ {A : Type 0} ⦃F : Float A⦄ where
  -- Rule 8.
  unfoldable pub solvency : Side → Intent A → SimWallet A → A → PolicyEngine A → Ruling A
  solvency Side.buy i w n p =
      let cost = n ⊠ (whole 1 ⊞ p.config.fee_rate) in
      if lt (w.quote ⊞ tolerance) cost
      then deny (Reason.insufficient_quote cost w.quote) p
      else admit p
  solvency Side.sell i w n p =
      let held = base_balance w i.symbol in
      if lt (held ⊞ tolerance) i.base_amount
      then deny (Reason.insufficient_base i.base_amount held) p
      else admit p

  -- Rule 7, then rule 8.
  unfoldable pub spend_budget :
      Option A → MarketTick A → Intent A → SimWallet A → A → PolicyEngine A → Ruling A
  spend_budget none t i w n p = solvency i.side i w n p
  spend_budget (some cap) t i w n p =
      let q = record p { spend = prune stamp t.ts (spend_window p.config) p.spend } in
      let spent = sum (map amount q.spend) in
      if lt (cap ⊞ tolerance) (spent ⊞ n)
      then deny (Reason.spend_budget (spent ⊞ n) cap (spend_window p.config)) q
      else solvency i.side i w n q

  -- Rule 6, then the rest.
  unfoldable pub rate_limit : MarketTick A → Intent A → SimWallet A → A → PolicyEngine A → Ruling A
  rate_limit t i w n p =
      let c = p.config in
      let q = record p { recent_ts = prune (λ ts. ts) t.ts c.window_steps p.recent_ts } in
      if leb c.max_tx_per_window (length q.recent_ts)
      then deny (Reason.rate_limit c.max_tx_per_window c.window_steps) q
      else spend_budget c.max_notional_per_window t i w n q

  abbrev pub below_floor : Option A → A → Bool
  below_floor none n = false
  below_floor (some floor) n = lt n (floor ⊟ tolerance)

  -- Rules 4 and 5, then the rest.
  unfoldable pub screen : MarketTick A → Intent A → SimWallet A → PolicyEngine A → Ruling A
  screen t i w p =
      let c = p.config in
      let n = notional i t.price in
      if not (contains i.symbol c.allowed_symbols)
      then deny (Reason.symbol i.symbol) p
      else if lt c.max_notional_per_tx n
      then deny (Reason.notional_cap n c.max_notional_per_tx) p
      else if below_floor c.min_notional_per_tx n
      then deny (Reason.min_notional n (elim c.min_notional_per_tx [ none ↦ n | some f ↦ f ])) p
      else rate_limit t i w n p

  -- Rule 3, then the rest: both the budget and an age must be there for the rule to bind.
  unfoldable pub staleness :
      Option ℤ → Option ℤ → MarketTick A → Intent A → SimWallet A → PolicyEngine A → Ruling A
  staleness (some budget) (some age) t i w p =
      if ltb_ℤ budget age then deny (Reason.stale_data age budget) p else screen t i w p
  staleness _ _ t i w p = screen t i w p

  unfoldable pub evaluate :
      PolicyEngine A → Intent A → MarketTick A → SimWallet A → Option ℤ → Ruling A
  evaluate p i t w data_age =
      let c = p.config in
      let e = equity w ((t.symbol, t.price) ∷ []) in
      let start = or_default p.starting_equity e in
      let q = record p { starting_equity = some start } in
      if c.kill_switch
      then deny Reason.kill_switch q
      else (let floor = start ⊠ (whole 1 ⊟ c.max_drawdown_pct) in
          if p.tripped || lt e floor
          then deny (Reason.circuit_breaker e floor) (record q { tripped = true })
          else staleness c.max_staleness_ns data_age t i w q)

  unfoldable pub register_fill : ℕ → A → PolicyEngine A → PolicyEngine A
  register_fill ts n p = record p {
    recent_ts = p.recent_ts ++ ts ∷ [];
    spend = p.spend ++ (ts, n) ∷ [];
  }

-- The latched state that a checkpoint holds.
pub record PolicySnapshot (A : Type 0) : Type 0 where
  pub starting_equity : Option A
  pub tripped : Bool
  pub recent_ts : List ℕ
  pub spend : List (ℕ × A)

unfoldable pub snapshot : {A : Type 0} → PolicyEngine A → PolicySnapshot A
snapshot p = record {
  starting_equity = p.starting_equity;
  tripped = p.tripped;
  recent_ts = p.recent_ts;
  spend = p.spend;
}

unfoldable pub restore : {A : Type 0} → PolicySnapshot A → PolicyEngine A → PolicyEngine A
restore s p = record p {
  starting_equity = s.starting_equity;
  tripped = s.tripped;
  recent_ts = s.recent_ts;
  spend = s.spend;
}

-- An engine as the constructor makes it.
abbrev pub fresh_engine : {A : Type 0} → PolicyConfig A → PolicyEngine A
fresh_engine c = record {
  config = c;
  starting_equity = none;
  tripped = false;
  recent_ts = [];
  spend = [];
}
