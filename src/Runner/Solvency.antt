-- ===== src/Runner/Solvency.antt =====
-- That a run of treasuryforge/runner.py against the simulated executor never overdraws the wallet.
use treasuryforge.Base.{ℕ, ◌≡◌, refl, inl, inr, Option, none, some, List, [], ◌∷◌, leb, Bool-cases}
use treasuryforge.Base.Float.{Float, IsOrdered}
use treasuryforge.Base.Result.{Result, ok, err}
use treasuryforge.Types.{Intent, MarketTick, Fill, Verdict}
use treasuryforge.Wallet.{SimWallet, InsufficientFunds, apply_fill}
use treasuryforge.Wallet.Laws.{NonNeg, apply_fill-NonNeg}
use treasuryforge.Policy.{evaluate}
use treasuryforge.Executor.{SimExecutor, execute, sim_fill, with_fill}
use treasuryforge.Live.{Strategy}
use treasuryforge.Runner.{
  Runner, save, journal_fill, audit_verdict, log, tally, settled_by, settle_pending, ruled_on,
  decided, start, tick, loop, finish, run,
}

module _ {A : Type 0} ⦃F : Float A⦄ where
  -- The wallet that an execution leaves.
  abbrev Solvent : Result (InsufficientFunds A) (Fill A × SimWallet A) → Type 0
  Solvent (err e) = Unit
  Solvent (ok (f, w)) = NonNeg w

  execute-Solvent :
      IsOrdered A
      → (x : SimExecutor A) (i : Intent A) (t : MarketTick A) (w : SimWallet A) → NonNeg w
      → Solvent (execute x i t w)
  unfolding execute
  execute-Solvent laws x i t w h = go (apply_fill (sim_fill x i t) w) refl
    where
      go :
          (a : Result (InsufficientFunds A) (SimWallet A))
          → apply_fill (sim_fill x i t) w ≡ a
          → Solvent (with_fill (sim_fill x i t) a)
      go (ok w') e = apply_fill-NonNeg laws (sim_fill x i t) w h e
      go (err f) e = tt

module _ {A S : Type 0} ⦃F : Float A⦄ where
  settled_by-NonNeg :
      (x : Result (InsufficientFunds A) (Fill A × SimWallet A)) (i : Intent A) (t : MarketTick A)
      (r : Runner A S)
      → Solvent x
      → NonNeg r.wallet
      → NonNeg (settled_by x i t r).wallet
  unfolding settled_by log tally save journal_fill
  settled_by-NonNeg (err e) i t r s h = h
  settled_by-NonNeg (ok (f, w)) i t r s h = s

module _ {A S : Type 0} ⦃F : Float A⦄ (laws : IsOrdered A) (strategy : Strategy A S)
    (x : SimExecutor A) (execution_delay : ℕ) where
  settle-NonNeg :
      (i : Intent A) (t : MarketTick A) (r : Runner A S)
      → NonNeg r.wallet
      → NonNeg (settled_by (execute x i t r.wallet) i t r).wallet
  settle-NonNeg i t r h =
      settled_by-NonNeg (execute x i t r.wallet) i t r (execute-Solvent laws x i t r.wallet h) h

  ruled_on-NonNeg :
      (v : Verdict A) (i : Intent A) (t : MarketTick A) (r : Runner A S)
      → NonNeg r.wallet
      → NonNeg (ruled_on strategy (execute x) execution_delay v i t r).wallet
  unfolding ruled_on log tally save
  ruled_on-NonNeg v i t r h = elim (Bool-cases v.allowed) [
    | inl e ↦ elim (Bool-cases (leb execution_delay 0)) [
      | inl now ↦ rw (e, now) (settle-NonNeg i t r h)
      | inr later ↦ rw (e, later) h
    ]
    | inr e ↦ elim (Bool-cases r.policy.tripped) [ inl k ↦ rw (e, k) h | inr k ↦ rw (e, k) h ]
  ]

  decided-NonNeg :
      (o : Option (Intent A)) (t : MarketTick A) (r : Runner A S)
      → NonNeg r.wallet
      → NonNeg (decided strategy (execute x) execution_delay o t r).wallet
  unfolding decided log audit_verdict
  decided-NonNeg none t r h = h
  decided-NonNeg (some i) t r h = ruled_on-NonNeg (evaluate r.policy i t r.wallet none).0 i t _ h

  settle_pending-NonNeg :
      (o : Option (Intent A)) (t : MarketTick A) (r : Runner A S)
      → NonNeg r.wallet
      → NonNeg (settle_pending strategy (execute x) execution_delay o t r).wallet
  settle_pending-NonNeg none t r h = h
  settle_pending-NonNeg (some i) t r h = settle-NonNeg i t (record r { pending = none }) h

  start-NonNeg :
      (t : MarketTick A) (r : Runner A S)
      → NonNeg r.wallet
      → NonNeg (start strategy (execute x) execution_delay t r).wallet
  unfolding start
  start-NonNeg t r h = elim (Bool-cases r.first) [ inl e ↦ rw e h | inr e ↦ rw e h ]

  loop-NonNeg :
      (ts : List (MarketTick A)) (r : Runner A S)
      → NonNeg r.wallet
      → NonNeg (loop strategy (execute x) execution_delay ts r).wallet
  unfolding loop tick
  loop-NonNeg [] r h = h
  loop-NonNeg (t ∷ ts) r h =
      let s = start strategy (execute x) execution_delay t r in
      let r' = settle_pending strategy (execute x) execution_delay r.pending t s in
      let (intent, a) = strategy.decide t r'.wallet r'.agent in
      loop-NonNeg ts (tick strategy (execute x) execution_delay t r) (
        decided-NonNeg intent t (record r' { agent = a })
          (settle_pending-NonNeg r.pending t s (start-NonNeg t r h)))

  -- Whatever the agent proposes over a run against the simulated executor, and whatever the executor's
  -- fee and slippage, a wallet that starts with no balance below zero ends with none.
  pub run-NonNeg :
      (ts : List (MarketTick A)) (r : Runner A S)
      → NonNeg r.wallet
      → NonNeg (run strategy (execute x) execution_delay ts r).wallet
  unfolding run finish
  run-NonNeg ts r h = loop-NonNeg ts r h
