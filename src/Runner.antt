-- ===== src/Runner.antt =====
-- treasuryforge/runner.py: the loop that asks the agent, lets the policy dispose, settles at the next
-- tick, and keeps the report, the journal and the audit log.
pub mod Persistence
pub mod Solvency
use treasuryforge.Base.{
  ℕ, zero, suc, ◌+◌, ◌-◌, ◌≤◌, ◌<◌, ◌≡◌, ◌≢◌, refl, sym, subst, ap, ◌∙◌, ◌↔◌, ◌⊎◌, inl, inr, Bool,
  true, false, not, ◌&&◌, ◌||◌, Option, none, some, List, [], ◌∷◌, ◌++◌, map, String, str_eq,
  eq_iff, eq_refl, arith, if◌then◌else◌, ltb, leb, ◌==◌, Bool-cases, Option-cases, is_some, length,
  length-append, all, any, keep, All, All-append, contains, take,
}
use mathlib.Core.Option
use treasuryforge.Base.Dict.{Dict, get_or, insert}
use treasuryforge.Base.Float.{Float, ◌*◌ as ◌⊠◌, whole}
use treasuryforge.Base.Result.{Result, ok, err}
use treasuryforge.Types.{Intent, MarketTick, Fill, Side, Verdict, Reason}
use treasuryforge.Wallet.{SimWallet, InsufficientFunds, equity}
use treasuryforge.Policy.{PolicyEngine, PolicySnapshot, evaluate, register_fill, snapshot}
use treasuryforge.Journal.{Journal, append_event, checkpoint}
use treasuryforge.Executor.{Executor}
use treasuryforge.Live.{Strategy}

pub data LedgerKind : Type 0 where
  fill denied hold : LedgerKind

-- What the detail of a ledger event prints.
pub data Detail (A : Type 0) : Type 0 where
  no_signal : Detail A
  ruled : Intent A → Reason A → Detail A
  settled : Fill A → String → Detail A

pub record LedgerEvent (A : Type 0) : Type 0 where
  pub ts : ℕ
  pub price : A
  pub kind : LedgerKind
  pub detail : Detail A
  pub equity : A

pub record RunReport (A : Type 0) : Type 0 where
  pub initial_equity : A
  pub final_equity : A
  pub fills : List (Fill A)
  pub ledger : List (LedgerEvent A)
  pub denials : Dict ℕ
  pub breaker_tripped : Bool

-- The state that a checkpoint holds, and an event of the journal.
pub record RunState (A : Type 0) : Type 0 where
  pub last_ts : ℕ
  pub policy : PolicySnapshot A
  pub wallet : SimWallet A

pub record AuditEntry (A : Type 0) : Type 0 where
  pub ts : ℕ
  pub price : A
  pub intent : Intent A
  pub verdict : Verdict A

-- The runner and the local variables of `run`; `S` is the agent's state. A journal and an audit log
-- are optional.
pub record Runner (A S : Type 0) : Type 0 where
  pub policy : PolicyEngine A
  pub agent : S
  pub wallet : SimWallet A
  pub journal : Option (Journal (Fill A) (RunState A))
  pub audit : Option (List (AuditEntry A))
  pub last_prices : Dict A
  pub report : RunReport A
  pub first : Bool
  pub pending : Option (Intent A)

-- The text of a reason before its first space.
abbrev pub rule_name : {A : Type 0} → Reason A → String
rule_name Reason.allow = "ALLOW"
rule_name Reason.kill_switch = "DENY:kill_switch"
rule_name (Reason.circuit_breaker e f) = "DENY:circuit_breaker"
rule_name (Reason.stale_data a b) = "DENY:stale_data"
rule_name (Reason.symbol s) = "DENY:symbol"
rule_name (Reason.notional_cap n c) = "DENY:notional"
rule_name (Reason.min_notional n c) = "DENY:min_notional"
rule_name (Reason.rate_limit m w) = "DENY:rate_limit"
rule_name (Reason.spend_budget n c w) = "DENY:spend_budget"
rule_name (Reason.insufficient_quote n h) = "DENY:insufficient_quote"
rule_name (Reason.insufficient_base n h) = "DENY:insufficient_base"
rule_name Reason.fill_aborted = "DENY:fill_aborted"

-- `_tally_denial`
abbrev pub tally_denial : {A : Type 0} → Reason A → RunReport A → RunReport A
tally_denial r p =
    let key = rule_name r in
    record p { denials = insert key (suc (get_or key 0 p.denials)) p.denials }

module _ {A S : Type 0} where
  -- `_state`
  abbrev pub state_of : ℕ → Runner A S → RunState A
  state_of ts r = record { last_ts = ts; policy = snapshot r.policy; wallet = r.wallet }

  unfoldable pub save : ℕ → Runner A S → Runner A S
  save ts r = record r { journal = Option.map (λ j. checkpoint (state_of ts r) j) r.journal }

  unfoldable pub journal_fill : Fill A → Runner A S → Runner A S
  journal_fill f r = record r { journal = Option.map (λ j. append_event f j) r.journal }

  unfoldable pub audit_verdict : AuditEntry A → Runner A S → Runner A S
  audit_verdict e r = record r { audit = Option.map (λ log. log ++ e ∷ []) r.audit }

module _ {A S : Type 0} ⦃F : Float A⦄ where
  -- `_log`, for the symbol of the market.
  unfoldable pub log : MarketTick A → LedgerKind → Detail A → Runner A S → Runner A S
  log t kind detail r =
      let prices = (t.symbol, t.price) ∷ [] in
      let event : LedgerEvent A = record {
        ts = t.ts;
        price = t.price;
        kind = kind;
        detail = detail;
        equity = equity r.wallet prices;
      } in
      record r {
        last_prices = prices;
        report = record (r.report) { ledger = r.report.ledger ++ event ∷ [] };
      }

  unfoldable pub tally : Reason A → Runner A S → Runner A S
  tally reason r = record r { report = tally_denial reason r.report }

  -- The two ends of `_settle`, by what the executor did.
  unfoldable pub settled_by :
      Result (InsufficientFunds A) (Fill A × SimWallet A)
      → Intent A
      → MarketTick A
      → Runner A S
      → Runner A S
  settled_by (err e) i t r =
      log t LedgerKind.denied (Detail.ruled i Reason.fill_aborted) (tally Reason.fill_aborted r)
  settled_by (ok (f, w)) i t r =
      let r' = record r {
        wallet = w;
        policy = register_fill t.ts (f.base_amount ⊠ f.price) r.policy;
        report = record (r.report) { fills = r.report.fills ++ f ∷ [] };
      } in
      save f.ts (journal_fill f (log t LedgerKind.fill (Detail.settled f i.reason) r'))

module _ {A S : Type 0} ⦃F : Float A⦄ (strategy : Strategy A S) (execute : Executor A)
    (execution_delay : ℕ) where
  abbrev pub settle : Intent A → MarketTick A → Runner A S → Runner A S
  settle i t r = settled_by (execute i t r.wallet) i t r

  abbrev pub settle_pending : Option (Intent A) → MarketTick A → Runner A S → Runner A S
  settle_pending none t r = r
  settle_pending (some i) t r = settle i t (record r { pending = none })

  -- What follows the ruling on an intent.
  unfoldable pub ruled_on : Verdict A → Intent A → MarketTick A → Runner A S → Runner A S
  ruled_on v i t r =
      if v.allowed
      then (if leb execution_delay 0 then settle i t r else record r { pending = some i })
      else (let r' = log t LedgerKind.denied (Detail.ruled i v.reason) (tally v.reason r) in
          if r'.policy.tripped then save t.ts r' else r')

  unfoldable pub decided : Option (Intent A) → MarketTick A → Runner A S → Runner A S
  decided none t r = log t LedgerKind.hold Detail.no_signal r
  decided (some i) t r =
      let (v, p) = evaluate r.policy i t r.wallet none in
      ruled_on v i t (
        audit_verdict (record { ts = t.ts; price = t.price; intent = i; verdict = v })
          (record r { policy = p }))

  unfoldable pub start : MarketTick A → Runner A S → Runner A S
  start t r =
      if r.first
      then record r {
        first = false;
        report = record (r.report) { initial_equity = equity r.wallet ((t.symbol, t.price) ∷ []) };
      }
      else r

  -- One round of the loop.
  unfoldable pub tick : MarketTick A → Runner A S → Runner A S
  tick t r =
      let r' = settle_pending r.pending t (start t r) in
      let (intent, a) = strategy.decide t r'.wallet r'.agent in
      decided intent t (record r' { agent = a })

  unfoldable pub loop : List (MarketTick A) → Runner A S → Runner A S
  loop [] r = r
  loop (t ∷ ts) r = loop ts (tick t r)

  unfoldable pub finish : Runner A S → Runner A S
  finish r = record r {
    report = record (r.report) {
      final_equity = equity r.wallet r.last_prices;
      breaker_tripped = r.policy.tripped;
    };
  }

  unfoldable pub run : List (MarketTick A) → Runner A S → Runner A S
  run ticks r = finish (loop ticks r)
