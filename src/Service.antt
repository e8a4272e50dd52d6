-- ===== src/Service.antt =====
-- treasuryforge/service.py: the outer process around the supervisor. `halts` are the calls of
-- `on_halt`, oldest first, which a parameter says to return or to raise; what the feed yields comes with the clock readings of its step.
pub mod Exits
use treasuryforge.Base.{
  ℕ, zero, suc, ◌+◌, ◌-◌, ◌≤◌, ◌<◌, ◌≡◌, ◌≢◌, refl, sym, subst, ap, ◌∙◌, ◌↔◌, ◌⊎◌, inl, inr, Bool,
  true, false, not, ◌&&◌, ◌||◌, Option, none, some, List, [], ◌∷◌, ◌++◌, map, String, str_eq,
  eq_iff, eq_refl, arith, if◌then◌else◌, ltb, leb, ◌==◌, Bool-cases, Option-cases, is_some, length,
  length-append, all, any, keep, All, All-append, contains, take,
}
use treasuryforge.Base.Float.{Float}
use treasuryforge.Base.Result.{Result, ok, err}
use treasuryforge.Types.{Intent, MarketTick}
use treasuryforge.Safety.Preflight.{PreflightInputs, Check, failures, is_ready, run_preflight}
use treasuryforge.Orders.{TwoPhaseExecutor, Manager, Outcome, Raised, recover}
use treasuryforge.Live.{
  StepKind, StepResult, Strategy, LiveSupervisor, StepInput, StepError, step, data_arrived,
}

pub data ServiceExit : Type 0 where
  finished safe_halted dead_man error : ServiceExit

abbrev pub exit_code : ServiceExit → ℕ
exit_code ServiceExit.finished = 0
exit_code ServiceExit.safe_halted = 10
exit_code ServiceExit.dead_man = 20
exit_code ServiceExit.error = 30

-- What `on_halt` is told.
pub data HaltReason (A : Type 0) : Type 0 where
  preflight : List Check → HaltReason A
  switch_tripped : HaltReason A
  unexpected : StepError A → HaltReason A
  -- the exception of `on_halt` itself, caught
  unexpected_halt : HaltReason A

-- What leaves `run`: an exception of the recovery, or one of `on_halt`.
pub data RunError : Type 0 where
  recovery_raised : Raised → RunError
  halt_raised : RunError

pub record FeedItem (A : Type 0) : Type 0 where
  pub input : StepInput A
  pub data_wall_ns : ℕ

pub record Service (A S W X : Type 0) : Type 0 where
  pub supervisor : LiveSupervisor A S W X
  pub halts : List (HaltReason A)
  pub steps : List (StepResult A)

abbrev pub is_dead : StepKind → Bool
is_dead StepKind.halted_dead = true
is_dead _ = false

module _ {A S W X : Type 0} (returns : List (HaltReason A) → HaltReason A → Bool) where
  -- A call of `on_halt`: whether it returns, given the calls before, and the service after it.
  abbrev pub on_halt : HaltReason A → Service A S W X → Bool × Service A S W X
  on_halt r s = (returns s.halts r, record s { halts = s.halts ++ r ∷ [] })

  -- A call outside the `try`, before the exit.
  abbrev pub halted :
      ServiceExit → HaltReason A → Service A S W X → Result RunError ServiceExit × Service A S W X
  halted exit r s =
      let (returned, s') = on_halt r s in (if returned then ok exit else err halt_raised, s')

  -- The call inside the `try`, whose exception the `except` reports in turn.
  abbrev pub dead_man_halt : Service A S W X → Result RunError ServiceExit × Service A S W X
  dead_man_halt s =
      let (returned, s') = on_halt HaltReason.switch_tripped s in
      let caught = halted ServiceExit.error HaltReason.unexpected_halt s' in
      if returned then (ok ServiceExit.dead_man, s') else caught

  -- What follows one step: an exception and a tripped switch end the loop, all else goes on.
  abbrev pub after_step :
      (Service A S W X → Result RunError ServiceExit × Service A S W X)
      → Result (StepError A) (StepResult A)
      → Service A S W X
      → Result RunError ServiceExit × Service A S W X
  after_step continue (err e) s = halted ServiceExit.error (HaltReason.unexpected e) s
  after_step continue (ok result) s =
      let s' = record s { steps = s.steps ++ result ∷ [] } in
      let rest = continue s' in if is_dead result.kind then dead_man_halt s' else rest

module _ {A S W X : Type 0} ⦃F : Float A⦄ (strategy : Strategy A S) (ex : TwoPhaseExecutor A W)
    (origin_for : Intent A → MarketTick A → String)
    (returns : List (HaltReason A) → HaltReason A → Bool) where
  abbrev pub take_step :
      FeedItem A → Service A S W X → Result (StepError A) (StepResult A) × LiveSupervisor A S W X
  take_step x s = step strategy ex origin_for x.input (data_arrived x.data_wall_ns s.supervisor)

  -- The loop of `run`, its `except` included.
  unfoldable pub drive :
      List (FeedItem A) → Service A S W X → Result RunError ServiceExit × Service A S W X
  drive [] s = (ok ServiceExit.finished, s)
  drive (x ∷ xs) s =
      let (r, l) = take_step x s in after_step returns (drive xs) r (record s { supervisor = l })

  abbrev pub recovered :
      List (FeedItem A)
      → Result Raised (List (Outcome A))
      → Service A S W X
      → Result RunError ServiceExit × Service A S W X
  recovered feed (err e) s = (err (recovery_raised e), s)
  recovered feed (ok outcomes) s = drive feed s

  -- `run`. A raise of the recovery goes through: it stands outside the `try`.
  unfoldable pub run :
      PreflightInputs A
      → List (FeedItem A)
      → Service A S W X
      → Result RunError ServiceExit × Service A S W X
  run inputs feed s =
      let report = run_preflight inputs in
      let (r, m) = recover ex [] s.supervisor.orders in
      if is_ready report
      then recovered feed r (record s { supervisor = record s.supervisor { orders = m } })
      else halted returns ServiceExit.safe_halted (HaltReason.preflight (failures report)) s
