-- ===== src/Live/Guarded.antt =====
-- What a step of treasuryforge/live.py does to the orders and to the policy's budgets.
use treasuryforge.Base.{
  ◌≡◌, refl, ◌⊎◌, inl, inr, true, false, Option, none, some, String, Bool-cases,
}
use treasuryforge.Base.Int.{ℤ}
use treasuryforge.Base.Float.{Float, ◌/◌ as ◌⊘◌, whole}
use treasuryforge.Base.Result.{Result, ok, err}
use treasuryforge.Types.{Intent, MarketTick}
use treasuryforge.Policy.{evaluate}
use treasuryforge.Safety.Staleness.{GateVerdict, check}
use treasuryforge.Safety.Watchdog.{DeadMansSwitch, IsTripped, Heartbeat, beat, tripped}
use treasuryforge.Orders.{TwoPhaseExecutor, Outcome, Raised, submit}
use treasuryforge.Live.{
  Strategy, LiveSupervisor, StepInput, ns_per_s, routed, submit_order, dispose, propose, after_beat,
  step,
}

module _ {A S W X : Type 0} ⦃F : Float A⦄ (strategy : Strategy A S) (ex : TwoPhaseExecutor A W)
    (origin_for : Intent A → MarketTick A → String) where
  -- Every guard has let the step through to an order.
  pub record Cleared (x : StepInput A) (s : LiveSupervisor A S W X) (i : Intent A) : Type 0 where
    pub alive : tripped s.watchdog ≡ false
    pub fresh : (check x.wall_ns x.mono_ns s.staleness).0.ok ≡ true
    pub proposed : (strategy.decide x.tick x.wallet s.agent).0 ≡ some i
    pub allowed :
        (evaluate s.policy i x.tick x.wallet
          (check x.wall_ns x.mono_ns s.staleness).0.data_age_ns).0.allowed
        ≡ true

  -- The orders are those of the start, or all guards have passed and one submission was made.
  abbrev pub Guarded : StepInput A → LiveSupervisor A S W X → LiveSupervisor A S W X → Type 0
  Guarded x s s' =
      (s'.orders ≡ s.orders)
      ⊎ ((i : Intent A) × Cleared x s i
          × (s'.orders ≡ (submit ex i (origin_for i x.tick) x.tick.symbol 3 s.orders).1))

  routed-orders : (r : Result Raised (Outcome A)) (s : LiveSupervisor A S W X) → (routed r s).1 ≡ s
  routed-orders (ok o) s = refl
  routed-orders (err e) s = refl

  dispose-Guarded :
      (x : StepInput A) (age : Option ℤ) (o : Option (Intent A)) (s : LiveSupervisor A S W X)
      → ((dispose strategy ex origin_for x age o s).1.orders ≡ s.orders)
        ⊎ ((i : Intent A) × (o ≡ some i)
            × ((evaluate s.policy i x.tick x.wallet age).0.allowed ≡ true)
            × ((dispose strategy ex origin_for x age o s).1.orders
                ≡ (submit ex i (origin_for i x.tick) x.tick.symbol 3 s.orders).1))
  unfolding dispose submit_order
  dispose-Guarded x age none s = inl refl
  dispose-Guarded x age (some i) s =
      elim (Bool-cases (evaluate s.policy i x.tick x.wallet age).0.allowed) [
        | inl e ↦ inr (
          i,
          refl,
          e,
          rw e
              (rw (routed-orders (submit ex i (origin_for i x.tick) x.tick.symbol 3 s.orders).0 _)),
        )
        | inr e ↦ inl (rw e)
      ]

  propose-Guarded :
      (x : StepInput A) (v : GateVerdict) (s : LiveSupervisor A S W X)
      → ((propose strategy ex origin_for x v s).1.orders ≡ s.orders)
        ⊎ ((i : Intent A) × (v.ok ≡ true)
            × ((strategy.decide x.tick x.wallet s.agent).0 ≡ some i)
            × ((evaluate s.policy i x.tick x.wallet v.data_age_ns).0.allowed ≡ true)
            × ((propose strategy ex origin_for x v s).1.orders
                ≡ (submit ex i (origin_for i x.tick) x.tick.symbol 3 s.orders).1))
  unfolding propose
  propose-Guarded x v s = elim (Bool-cases v.ok) [
    | inr e ↦ inl (rw e refl)
    | inl e ↦
        let (intent, a) = strategy.decide x.tick x.wallet s.agent in
        elim (dispose-Guarded x v.data_age_ns intent (record s { agent = a })) [
          | inl same ↦ inl (rw e same)
          | inr (i, found, admitted, sent) ↦ inr (i, e, found, admitted, rw e sent)
        ]
  ]

  after_beat-Guarded :
      (x : StepInput A) (r : Result (IsTripped A) (Heartbeat A)) (s : LiveSupervisor A S W X)
      (d : DeadMansSwitch A X)
      → tripped s.watchdog ≡ false
      → Guarded x s (after_beat strategy ex origin_for x r (record s { watchdog = d })).1
  after_beat-Guarded x (err e) s d alive = inl refl
  after_beat-Guarded x (ok hb) s d alive =
      let (v, g) = check x.wall_ns x.mono_ns s.staleness in
      elim (propose-Guarded x v (record s { watchdog = d; staleness = g })) [
        | inl same ↦ inl same
        | inr (i, open_gate, found, admitted, sent) ↦ inr (
          i,
          record { alive = alive; fresh = open_gate; proposed = found; allowed = admitted },
          sent,
        )
      ]

  -- A step touches the orders only by one submission of what the agent proposed, and only when the
  -- dead-man's switch is untripped, the staleness gate is open, and the policy allows the intent.
  pub step-Guarded :
      (x : StepInput A) (s : LiveSupervisor A S W X)
      → Guarded x s (step strategy ex origin_for x s).1
  unfolding step
  step-Guarded x s =
      let (r, d) = beat (whole x.wall_ns ⊘ whole ns_per_s) s.watchdog in
      elim (Bool-cases (tripped s.watchdog)) [
        | inl e ↦ rw e (inl refl)
        | inr e ↦ rw e (after_beat-Guarded x r s d e)
      ]
