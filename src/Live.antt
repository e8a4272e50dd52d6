-- ===== src/Live.antt =====
-- treasuryforge/live.py: the supervisor that runs the guards around one step of live trading.
pub mod Guarded
pub mod Budget
use treasuryforge.Base.{
  ℕ, zero, suc, ◌+◌, ◌-◌, ◌≤◌, ◌<◌, ◌≡◌, ◌≢◌, refl, sym, subst, ap, ◌∙◌, ◌↔◌, ◌⊎◌, inl, inr, Bool,
  true, false, not, ◌&&◌, ◌||◌, Option, none, some, List, [], ◌∷◌, ◌++◌, map, String, str_eq,
  eq_iff, eq_refl, arith, if◌then◌else◌, ltb, leb, ◌==◌, Bool-cases, Option-cases, is_some, length,
  length-append, all, any, keep, All, All-append, contains, take,
}
use treasuryforge.Base.Int.{ℤ}
use treasuryforge.Base.Float.{Float, ◌/◌ as ◌⊘◌, whole}
use treasuryforge.Base.Result.{Result, ok, err}
use treasuryforge.Types.{Intent, MarketTick, Verdict, Reason}
use treasuryforge.Wallet.{SimWallet}
use treasuryforge.Policy.{PolicyEngine, evaluate, Ruling}
use treasuryforge.Safety.Staleness.{StalenessGate, GateReason, GateVerdict, check, observe_data}
use treasuryforge.Safety.Watchdog.{DeadMansSwitch, IsTripped, Heartbeat, beat, tripped}
use treasuryforge.Orders.{TwoPhaseExecutor, Manager, Outcome, OrderState, Raised, submit}

pub data StepKind : Type 0 where
  halted_dead halted_stale hold denied submitted filled open_order rejected : StepKind

-- Why a step ended as it did.
pub data StepReason (A : Type 0) : Type 0 where
  dead_man no_signal : StepReason A
  stale : GateReason → StepReason A
  policy : Reason A → StepReason A
  venue : String → StepReason A

pub record StepResult (A : Type 0) : Type 0 where
  pub kind : StepKind
  pub reason : StepReason A
  pub outcome : Option (Outcome A)

-- `_OUTCOME_KIND`, with its default.
abbrev pub outcome_kind : OrderState → StepKind
outcome_kind OrderState.filled = StepKind.filled
outcome_kind OrderState.resting = StepKind.open_order
outcome_kind OrderState.rejected = StepKind.rejected
outcome_kind _ = StepKind.submitted

-- `Strategy`, over its own state.
pub record Strategy (A S : Type 0) : Type 0 where
  pub decide : MarketTick A → SimWallet A → S → Option (Intent A) × S

-- The supervisor's parts: `S` is the agent's state, `W` the venue's, `X` what the fail-safe acts on.
pub record LiveSupervisor (A S W X : Type 0) : Type 0 where
  pub policy : PolicyEngine A
  pub agent : S
  pub orders : Manager A W
  pub watchdog : DeadMansSwitch A X
  pub staleness : StalenessGate

-- What a step raises.
pub data StepError (A : Type 0) : Type 0 where
  dead_man_error : IsTripped A → StepError A
  order_error : Raised → StepError A

-- One iteration's inputs: the tick, the wallet, and the two clocks when the step reads them.
pub record StepInput (A : Type 0) : Type 0 where
  pub tick : MarketTick A
  pub wallet : SimWallet A
  pub wall_ns : ℕ
  pub mono_ns : ℕ

abbrev pub ns_per_s : ℕ
ns_per_s = 1_000_000_000

-- What a step gives back, and the supervisor that it leaves.
abbrev pub Stepped : Type 0 → Type 0 → Type 0 → Type 0 → Type 0
Stepped A S W X = Result (StepError A) (StepResult A) × LiveSupervisor A S W X

abbrev pub ended :
    {A S W X : Type 0} → StepKind → StepReason A → LiveSupervisor A S W X → Stepped A S W X
ended k r s = (ok (record { kind = k; reason = r; outcome = none }), s)

abbrev pub routed :
    {A S W X : Type 0} → Result Raised (Outcome A) → LiveSupervisor A S W X → Stepped A S W X
routed (ok o) s = (
  ok (record { kind = outcome_kind o.state; reason = StepReason.venue o.reason; outcome = some o }),
  s,
)
routed (err e) s = (err (order_error e), s)

-- The strategy, the venue's executor and `origin_for` are handed in; `submit` has its default of
-- three attempts.
module _ {A S W X : Type 0} ⦃F : Float A⦄ (strategy : Strategy A S) (ex : TwoPhaseExecutor A W)
    (origin_for : Intent A → MarketTick A → String) where
  unfoldable pub submit_order : StepInput A → Intent A → LiveSupervisor A S W X → Stepped A S W X
  submit_order x i s =
      let (r, m) = submit ex i (origin_for i x.tick) x.tick.symbol 3 s.orders in
      routed r (record s { orders = m })

  -- The policy disposes of what the agent proposes.
  unfoldable pub dispose :
      StepInput A → Option ℤ → Option (Intent A) → LiveSupervisor A S W X → Stepped A S W X
  dispose x age none s = ended StepKind.hold StepReason.no_signal s
  dispose x age (some i) s =
      let (v, p) = evaluate s.policy i x.tick x.wallet age in
      let s' = record s { policy = p } in
      if v.allowed
      then submit_order x i s'
      else ended StepKind.denied (StepReason.policy v.reason) s'

  -- The agent is asked only behind an open gate.
  unfoldable pub propose : StepInput A → GateVerdict → LiveSupervisor A S W X → Stepped A S W X
  propose x fresh s =
      let (intent, a) = strategy.decide x.tick x.wallet s.agent in
      if fresh.ok
      then dispose x fresh.data_age_ns intent (record s { agent = a })
      else ended StepKind.halted_stale (StepReason.stale fresh.reason) s

  abbrev after_beat :
      StepInput A → Result (IsTripped A) (Heartbeat A) → LiveSupervisor A S W X → Stepped A S W X
  after_beat x (err e) s = (err (dead_man_error e), s)
  after_beat x (ok hb) s =
      let (fresh, g) = check x.wall_ns x.mono_ns s.staleness in
      propose x fresh (record s { staleness = g })

  unfoldable pub step : StepInput A → LiveSupervisor A S W X → Stepped A S W X
  step x s =
      if tripped s.watchdog
      then ended StepKind.halted_dead StepReason.dead_man s
      else (let (r, d) = beat (whole x.wall_ns ⊘ whole ns_per_s) s.watchdog in
          after_beat x r (record s { watchdog = d }))

-- `LiveSupervisor.observe_data`
abbrev pub data_arrived : {A S W X : Type 0} → ℕ → LiveSupervisor A S W X → LiveSupervisor A S W X
data_arrived wall s = record s { staleness = observe_data wall s.staleness }
