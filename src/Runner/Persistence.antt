-- ===== src/Runner/Persistence.antt =====
-- That a run of treasuryforge/runner.py leaves a tripped breaker in its checkpoint.
use treasuryforge.Base.{
  ℕ, ◌≡◌, refl, inl, inr, Bool, true, false, Option, none, some, List, [], ◌∷◌, leb, Bool-cases,
}
use mathlib.Core.Option
use treasuryforge.Base.Float.{Float}
use treasuryforge.Base.Result.{Result, ok, err}
use treasuryforge.Types.{Intent, MarketTick, Fill, Verdict}
use treasuryforge.Wallet.{SimWallet, InsufficientFunds}
use treasuryforge.Policy.{evaluate, snapshot}
use treasuryforge.Policy.Latches.{evaluate_untripped}
use treasuryforge.Journal.{Journal, checkpoint}
use treasuryforge.Executor.{Executor}
use treasuryforge.Live.{Strategy}
use treasuryforge.Runner.{
  RunState, Runner, state_of, save, audit_verdict, log, tally, settled_by, settle_pending, ruled_on,
  decided, start, tick, loop, finish, run,
}

-- The last checkpoint has the breaker tripped, where there is a journal.
abbrev pub saved_tripped : {A : Type 0} → Option (Journal (Fill A) (RunState A)) → Bool
saved_tripped none = true
saved_tripped (some j) = elim j.state [ none ↦ false | some st ↦ st.policy.tripped ]

abbrev pub Persisted : {A S : Type 0} → Runner A S → Type 0
Persisted r = r.policy.tripped ≡ true → saved_tripped r.journal ≡ true

module _ {A S : Type 0} where
  save-Persisted : (ts : ℕ) (r : Runner A S) → Persisted (save ts r)
  unfolding save snapshot
  save-Persisted ts r = go r.journal
    where
      go :
          (j : Option (Journal (Fill A) (RunState A)))
          → r.policy.tripped ≡ true
          → saved_tripped (Option.map (checkpoint {E = Fill A} (state_of ts r)) j) ≡ true
      go none t = refl
      go (some j) t = t

module _ {A S : Type 0} ⦃F : Float A⦄ where
  settled_by-Persisted :
      (x : Result (InsufficientFunds A) (Fill A × SimWallet A)) (i : Intent A) (t : MarketTick A)
      (r : Runner A S)
      → Persisted r
      → Persisted (settled_by x i t r)
  unfolding settled_by log tally
  settled_by-Persisted (err e) i t r h = h
  settled_by-Persisted (ok (f, w)) i t r h = save-Persisted f.ts _

module _ {A S : Type 0} ⦃F : Float A⦄ (strategy : Strategy A S) (execute : Executor A)
    (execution_delay : ℕ) where
  ruled_on-Persisted :
      (v : Verdict A) (i : Intent A) (t : MarketTick A) (r : Runner A S)
      → (v.allowed ≡ true → r.policy.tripped ≡ false)
      → Persisted (ruled_on strategy execute execution_delay v i t r)
  unfolding ruled_on log tally
  ruled_on-Persisted v i t r h = elim (Bool-cases v.allowed) [
    | inl e ↦ elim (Bool-cases (leb execution_delay 0)) [
      | inl now ↦ rw (e, now) (settled_by-Persisted (execute i t r.wallet) i t r (λ k. cc (h e)))
      | inr later ↦ rw (e, later) (λ k. cc (h e))
    ]
    | inr e ↦ elim (Bool-cases r.policy.tripped) [
      | inl k ↦ rw (e, k) (save-Persisted t.ts _)
      | inr k ↦ rw (e, k) (λ k'. cc)
    ]
  ]

  decided-Persisted :
      (o : Option (Intent A)) (t : MarketTick A) (r : Runner A S)
      → Persisted r
      → Persisted (decided strategy execute execution_delay o t r)
  unfolding decided log audit_verdict
  decided-Persisted none t r h = h
  decided-Persisted (some i) t r h =
      ruled_on-Persisted (evaluate r.policy i t r.wallet none).0 i t _
        (evaluate_untripped r.policy i t r.wallet none)

  settle_pending-Persisted :
      (o : Option (Intent A)) (t : MarketTick A) (r : Runner A S)
      → Persisted r
      → Persisted (settle_pending strategy execute execution_delay o t r)
  settle_pending-Persisted none t r h = h
  settle_pending-Persisted (some i) t r h =
      settled_by-Persisted (execute i t r.wallet) i t (record r { pending = none }) h

  start-Persisted :
      (t : MarketTick A) (r : Runner A S)
      → Persisted r
      → Persisted (start strategy execute execution_delay t r)
  unfolding start
  start-Persisted t r h = elim (Bool-cases r.first) [ inl e ↦ rw e h | inr e ↦ rw e h ]

  loop-Persisted :
      (ts : List (MarketTick A)) (r : Runner A S)
      → Persisted r
      → Persisted (loop strategy execute execution_delay ts r)
  unfolding loop tick
  loop-Persisted [] r h = h
  loop-Persisted (t ∷ ts) r h =
      let r' =
        settle_pending strategy execute execution_delay r.pending t
          (start strategy execute execution_delay t r) in
      let (intent, a) = strategy.decide t r'.wallet r'.agent in
      loop-Persisted ts (tick strategy execute execution_delay t r) (
        decided-Persisted intent t (record r' { agent = a })
          (settle_pending-Persisted r.pending t (start strategy execute execution_delay t r)
            (start-Persisted t r h)))

  -- However a run goes, if it started with the breaker untripped and ends with it tripped, then the
  -- last checkpoint of its journal has it tripped, and the report says so.
  pub run-Persisted :
      (ts : List (MarketTick A)) (r : Runner A S)
      → r.policy.tripped ≡ false
      → let r' = run strategy execute execution_delay ts r in
        Persisted r' × (r'.report.breaker_tripped ≡ r'.policy.tripped)
  unfolding run finish
  run-Persisted ts r h = (loop-Persisted ts r (λ k. cc), refl)
