-- ===== src/Live/Budget.antt =====
-- The policy's budgets on the path of treasuryforge/live.py.
use treasuryforge.Base.{
  ◌≡◌, refl, ap, ◌∙◌, inl, inr, Option, none, some, List, [], ◌∷◌, String, Bool-cases,
}
use treasuryforge.Base.Int.{ℤ}
use treasuryforge.Base.Float.{Float, ◌/◌ as ◌⊘◌, whole}
use treasuryforge.Base.Result.{Result, ok, err}
use treasuryforge.Types.{Intent, MarketTick}
use treasuryforge.Wallet.{SimWallet}
use treasuryforge.Policy.{PolicyEngine, evaluate, prune}
use treasuryforge.Policy.Rate.{evaluate-recent}
use treasuryforge.Safety.Staleness.{GateVerdict, check}
use treasuryforge.Safety.Watchdog.{IsTripped, Heartbeat, beat, tripped}
use treasuryforge.Orders.{TwoPhaseExecutor, Outcome, Raised, submit}
use treasuryforge.Live.{
  Strategy, LiveSupervisor, StepInput, ns_per_s, routed, submit_order, dispose, propose, after_beat,
  step,
}

pub evaluate_uncounted :
    {A : Type 0} ⦃F : Float A⦄ (p : PolicyEngine A) (i : Intent A) (t : MarketTick A)
    (w : SimWallet A) (age : Option ℤ)
    → p.recent_ts ≡ []
    → (evaluate p i t w age).1.recent_ts ≡ []
unfolding prune
evaluate_uncounted p i t w age h = elim (evaluate-recent p i t w age).0 [
  | inl same ↦ same ∙ h
  | inr pruned ↦ pruned ∙ ap (prune (λ ts. ts) t.ts p.config.window_steps) h
]

module _ {A S W X : Type 0} ⦃F : Float A⦄ (strategy : Strategy A S) (ex : TwoPhaseExecutor A W)
    (origin_for : Intent A → MarketTick A → String) where
  abbrev pub Uncounted : LiveSupervisor A S W X → Type 0
  Uncounted s = s.policy.recent_ts ≡ []

  routed-policy :
      (r : Result Raised (Outcome A)) (s : LiveSupervisor A S W X)
      → (routed r s).1.policy ≡ s.policy
  routed-policy (ok o) s = refl
  routed-policy (err e) s = refl

  dispose-Uncounted :
      (x : StepInput A) (age : Option ℤ) (o : Option (Intent A)) (s : LiveSupervisor A S W X)
      → Uncounted s
      → Uncounted (dispose strategy ex origin_for x age o s).1
  unfolding dispose submit_order
  dispose-Uncounted x age none s h = h
  dispose-Uncounted x age (some i) s h =
      let none_counted = evaluate_uncounted s.policy i x.tick x.wallet age h in
      elim (Bool-cases (evaluate s.policy i x.tick x.wallet age).0.allowed) [
        | inl e ↦ rw e (
            rw (routed-policy (submit ex i (origin_for i x.tick) x.tick.symbol 3 s.orders).0 _)
              none_counted)
        | inr e ↦ rw e none_counted
      ]

  propose-Uncounted :
      (x : StepInput A) (v : GateVerdict) (s : LiveSupervisor A S W X)
      → Uncounted s
      → Uncounted (propose strategy ex origin_for x v s).1
  unfolding propose
  propose-Uncounted x v s h = elim (Bool-cases v.ok) [
    | inl e ↦ rw e (
        dispose-Uncounted x v.data_age_ns (strategy.decide x.tick x.wallet s.agent).0
          (record s { agent = (strategy.decide x.tick x.wallet s.agent).1 }) h)
    | inr e ↦ rw e h
  ]

  after_beat-Uncounted :
      (x : StepInput A) (r : Result (IsTripped A) (Heartbeat A)) (s : LiveSupervisor A S W X)
      → Uncounted s
      → Uncounted (after_beat strategy ex origin_for x r s).1
  after_beat-Uncounted x (err e) s h = h
  after_beat-Uncounted x (ok hb) s h =
      let (v, g) = check x.wall_ns x.mono_ns s.staleness in
      propose-Uncounted x v (record s { staleness = g }) h

  step-Uncounted :
      (x : StepInput A) (s : LiveSupervisor A S W X)
      → Uncounted s
      → Uncounted (step strategy ex origin_for x s).1
  unfolding step
  step-Uncounted x s h =
      let (r, d) = beat (whole x.wall_ns ⊘ whole ns_per_s) s.watchdog in
      elim (Bool-cases (tripped s.watchdog)) [
        | inl e ↦ rw e h
        | inr e ↦ rw e (after_beat-Uncounted x r (record s { watchdog = d }) h)
      ]

  pub steps : List (StepInput A) → LiveSupervisor A S W X → LiveSupervisor A S W X
  steps [] s = s
  steps (x ∷ xs) s = steps xs (step strategy ex origin_for x s).1

  -- The steps of the supervisor register no fill: whatever the venue fills on the way, a policy that
  -- had counted no trade has still counted none.
  pub steps-Uncounted :
      (xs : List (StepInput A)) (s : LiveSupervisor A S W X) → Uncounted s → Uncounted (steps xs s)
  unfolding steps
  steps-Uncounted [] s h = h
  steps-Uncounted (x ∷ xs) s h =
      steps-Uncounted xs (step strategy ex origin_for x s).1 (step-Uncounted x s h)
