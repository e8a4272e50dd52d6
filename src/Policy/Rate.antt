-- ===== src/Policy/Rate.antt =====
-- The rate limit of treasuryforge/policy.py: what its rolling window of fills guarantees.
use treasuryforge.Base.{
  ℕ, ◌+◌, ◌≤◌, ◌<◌, ◌≡◌, refl, subst, ap, ◌∙◌, ◌⊎◌, inl, inr, true, Option, none, some, List, [],
  ◌∷◌, ◌++◌, arith, if◌then◌else◌, ltb, Bool-cases, length, length-append, keep,
}
use treasuryforge.Base.Int.{ℤ}
use treasuryforge.Base.Float.{Float}
use treasuryforge.Types.{Intent, MarketTick, Side, notional}
use treasuryforge.Wallet.{SimWallet, equity}
use treasuryforge.Policy.{
  PolicyConfig, PolicyEngine, prune, stamp, spend_window, solvency, spend_budget, rate_limit,
  screen, staleness, evaluate, register_fill, fresh_engine, or_default, Ruling,
}
use treasuryforge.Policy.Admission.{evaluate-Admissible}
use treasuryforge.Policy.Latches.{evaluate-config}
use treasuryforge.Policy.Window.{
  live, prune_ts, Sorted, in_window, prune-prune, prune-snoc_live, prune-snoc_dead, keep-append,
  keep_dead, window-le-live, Sorted-snoc, Sorted-mono,
}

-- What an evaluation may do to the queue of fills.
abbrev pub Queued : ℕ → ℕ → List ℕ → List ℕ → Type 0
Queued w now xs ys = (ys ≡ xs) ⊎ (ys ≡ prune_ts w now xs)

module _ {A : Type 0} ⦃F : Float A⦄ where
  solvency-recent :
      (s : Side) (i : Intent A) (w : SimWallet A) (n : A) (p : PolicyEngine A)
      → (solvency s i w n p).1.recent_ts ≡ p.recent_ts
  unfolding solvency
  solvency-recent Side.buy i w n p = ground arith
  solvency-recent Side.sell i w n p = ground arith

  spend_budget-recent :
      (cap : Option A) (t : MarketTick A) (i : Intent A) (w : SimWallet A) (n : A)
      (p : PolicyEngine A)
      → (spend_budget cap t i w n p).1.recent_ts ≡ p.recent_ts
  unfolding spend_budget
  spend_budget-recent none t i w n p = solvency-recent i.side i w n p
  spend_budget-recent (some cap) t i w n p = ground (
    arith,
    solvency-recent i.side i w n
        (record p { spend = prune stamp t.ts (spend_window p.config) p.spend }),
  )

  screen-recent :
      (t : MarketTick A) (i : Intent A) (w : SimWallet A) (p : PolicyEngine A)
      → let (v, q) = screen t i w p in
        Queued p.config.window_steps t.ts p.recent_ts q.recent_ts
        × (v.allowed ≡ true → q.recent_ts ≡ prune_ts p.config.window_steps t.ts p.recent_ts)
  unfolding screen rate_limit
  screen-recent t i w p = ground (
    arith,
    spend_budget-recent p.config.max_notional_per_window t i w (notional i t.price)
        (record p { recent_ts = prune (λ ts. ts) t.ts p.config.window_steps p.recent_ts }),
  )

  staleness-recent :
      (budget age : Option ℤ) (t : MarketTick A) (i : Intent A) (w : SimWallet A)
      (p : PolicyEngine A)
      → let (v, q) = staleness budget age t i w p in
        Queued p.config.window_steps t.ts p.recent_ts q.recent_ts
        × (v.allowed ≡ true → q.recent_ts ≡ prune_ts p.config.window_steps t.ts p.recent_ts)
  unfolding staleness
  staleness-recent (some b) (some a) t i w p = ground (arith, screen-recent t i w p)
  staleness-recent (some b) none t i w p = screen-recent t i w p
  staleness-recent none age t i w p = screen-recent t i w p

  pub evaluate-recent :
      (p : PolicyEngine A) (i : Intent A) (t : MarketTick A) (w : SimWallet A) (age : Option ℤ)
      → let (v, q) = evaluate p i t w age in
        Queued p.config.window_steps t.ts p.recent_ts q.recent_ts
        × (v.allowed ≡ true → q.recent_ts ≡ prune_ts p.config.window_steps t.ts p.recent_ts)
  unfolding evaluate
  evaluate-recent p i t w age = ground (
    arith,
    staleness-recent p.config.max_staleness_ns age t i w (record p {
      starting_equity = some (or_default p.starting_equity (equity w ((t.symbol, t.price) ∷ [])));
    }),
  )

-- One turn of a caller that registers each fill when its intent was allowed.
pub record Request (A : Type 0) : Type 0 where
  pub intent : Intent A
  pub tick : MarketTick A
  pub wallet : SimWallet A
  pub data_age : Option ℤ
  pub filled : A

-- The engine, and the times of all fills so far.
pub record Trading (A : Type 0) : Type 0 where
  pub engine : PolicyEngine A
  pub fills : List ℕ

module _ {A : Type 0} ⦃F : Float A⦄ where
  pub trade : Request A → Trading A → Trading A
  trade r s =
      let (v, q) = evaluate s.engine r.intent r.tick r.wallet r.data_age in
      if v.allowed
      then record { engine = register_fill r.tick.ts r.filled q; fills = s.fills ++ r.tick.ts ∷ [] }
      else record { engine = q; fills = s.fills }

  pub trade_all : List (Request A) → Trading A → Trading A
  trade_all [] s = s
  trade_all (r ∷ rs) s = trade_all rs (trade r s)

  -- The times of the ticks do not fall, from `last` on.
  abbrev pub InOrder : ℕ → List (Request A) → Type 0
  InOrder last [] = Unit
  InOrder last (r ∷ rs) = (last ≤ r.tick.ts) × InOrder r.tick.ts rs

  module _ (c : PolicyConfig A) where
    -- The queue holds what of all fills any later window still counts, and no window has held
    -- more than the limit.
    record Tracks (last : ℕ) (s : Trading A) : Type 0 where
      configured : s.engine.config ≡ c
      sorted : Sorted last s.fills
      tracked :
          (now : ℕ)
          → last ≤ now
          → prune_ts c.window_steps now s.engine.recent_ts ≡ keep (live c.window_steps now) s.fills
      bounded :
          (now : ℕ) → length (keep (in_window c.window_steps now) s.fills) ≤ c.max_tx_per_window

    trade-tracked :
        (last t now : ℕ) (xs ys fills : List ℕ)
        → last ≤ t
        → t ≤ now
        → Queued c.window_steps t xs ys
        → prune_ts c.window_steps now xs ≡ keep (live c.window_steps now) fills
        → prune_ts c.window_steps now ys ≡ keep (live c.window_steps now) fills
    trade-tracked last t now xs ys fills h k (inl e) p = rw e p
    trade-tracked last t now xs ys fills h k (inr e) p =
        rw e (prune-prune c.window_steps t now xs k ∙ p)

    snoc-tracked :
        (t now : ℕ) (ys fills : List ℕ)
        → t ≤ now
        → Sorted t fills
        → prune_ts c.window_steps now ys ≡ keep (live c.window_steps now) fills
        → prune_ts c.window_steps now (ys ++ t ∷ [])
          ≡ keep (live c.window_steps now) (fills ++ t ∷ [])
    snoc-tracked t now ys fills k s p = elim (Bool-cases (ltb now (t + c.window_steps))) [
      | inl counted ↦
          rw (keep-append (live c.window_steps now) fills (t ∷ []), counted)
            (prune-snoc_live c.window_steps now t ys (ground arith) ∙ ap (λ zs. zs ++ t ∷ []) p)
      | inr past ↦
          let gone = keep_dead c.window_steps now t fills (ground arith) s in
          rw (keep-append (live c.window_steps now) fills (t ∷ []), past, gone)
            (prune-snoc_dead c.window_steps now t ys (ground arith) (p ∙ gone))
    ]

    snoc-bounded :
        (t now : ℕ) (fills : List ℕ)
        → length (keep (live c.window_steps t) fills) < c.max_tx_per_window
        → length (keep (in_window c.window_steps now) fills) ≤ c.max_tx_per_window
        → length (keep (in_window c.window_steps now) (fills ++ t ∷ [])) ≤ c.max_tx_per_window
    snoc-bounded t now fills room h =
        rw (keep-append (in_window c.window_steps now) fills (t ∷ [])) (
          ground (
            arith,
            window-le-live c.window_steps now t fills,
            length-append (keep (in_window c.window_steps now) fills) (t ∷ []),
            length-append (keep (in_window c.window_steps now) fills) [],
          ))

    denied-Tracks :
        (last t : ℕ) (s : Trading A) (q : PolicyEngine A)
        → last ≤ t
        → Tracks last s
        → q.config ≡ c
        → Queued c.window_steps t s.engine.recent_ts q.recent_ts
        → Tracks t (record { engine = q; fills = s.fills })
    denied-Tracks last t s q h k e m = record {
      configured = e;
      sorted = Sorted-mono last t s.fills h k.sorted;
      tracked = λ now le.
          trade-tracked last t now s.engine.recent_ts q.recent_ts s.fills h le m
            (k.tracked now (omega arith));
      bounded = k.bounded;
    }

    filled-Tracks :
        (last t : ℕ) (n : A) (s : Trading A) (q : PolicyEngine A)
        → last ≤ t
        → Tracks last s
        → q.config ≡ c
        → q.recent_ts ≡ prune_ts c.window_steps t s.engine.recent_ts
        → length (prune_ts c.window_steps t s.engine.recent_ts) < c.max_tx_per_window
        → Tracks t (record { engine = register_fill t n q; fills = s.fills ++ t ∷ [] })
    unfolding register_fill
    filled-Tracks last t n s q h k e m room = record {
      configured = e;
      sorted = Sorted-snoc last t s.fills h k.sorted;
      tracked = λ now le.
          snoc-tracked t now q.recent_ts s.fills le (Sorted-mono last t s.fills h k.sorted) (
            trade-tracked last t now s.engine.recent_ts q.recent_ts s.fills h le (inr m)
              (k.tracked now (omega arith)));
      bounded = λ now.
          snoc-bounded t now s.fills
            (subst (λ (xs : List ℕ). length xs < c.max_tx_per_window) (k.tracked t h) room)
            (k.bounded now);
    }

    trade-Tracks :
        (last : ℕ) (r : Request A) (s : Trading A)
        → last ≤ r.tick.ts
        → Tracks last s
        → Tracks r.tick.ts (trade r s)
    unfolding trade
    trade-Tracks last r s h k = elim (Bool-cases ruling.0.allowed) [
      | inl yes_allowed ↦ rw yes_allowed (
          filled-Tracks last r.tick.ts r.filled s ruling.1 h k same
            (subst
              (λ (d : PolicyConfig A).
                ruling.1.recent_ts ≡ prune_ts d.window_steps r.tick.ts s.engine.recent_ts)
              k.configured (queue.1 yes_allowed))
            (subst
              (λ (d : PolicyConfig A).
                length (prune_ts d.window_steps r.tick.ts s.engine.recent_ts) < d.max_tx_per_window)
              k.configured
              ((evaluate-Admissible s.engine r.intent r.tick r.wallet r.data_age).0
                yes_allowed).rated))
      | inr refused ↦ rw refused (
          denied-Tracks last r.tick.ts s ruling.1 h k same (
            subst
              (λ (d : PolicyConfig A).
                Queued d.window_steps r.tick.ts s.engine.recent_ts ruling.1.recent_ts)
              k.configured queue.0))
    ]
      where
        ruling : Ruling A
        ruling = evaluate s.engine r.intent r.tick r.wallet r.data_age

        same : ruling.1.config ≡ c
        same = evaluate-config s.engine r.intent r.tick r.wallet r.data_age ∙ k.configured

        queue :
            Queued s.engine.config.window_steps r.tick.ts s.engine.recent_ts ruling.1.recent_ts
            × (ruling.0.allowed ≡ true
                → ruling.1.recent_ts
                  ≡ prune_ts s.engine.config.window_steps r.tick.ts s.engine.recent_ts)
        queue = evaluate-recent s.engine r.intent r.tick r.wallet r.data_age

    trade_all-Tracks :
        (last : ℕ) (rs : List (Request A)) (s : Trading A)
        → InOrder last rs
        → Tracks last s
        → (now : ℕ)
        → length (keep (in_window c.window_steps now) (trade_all rs s).fills) ≤ c.max_tx_per_window
    unfolding trade_all
    trade_all-Tracks last [] s o k = k.bounded
    trade_all-Tracks last (r ∷ rs) s o k =
        trade_all-Tracks r.tick.ts rs (trade r s) o.1 (trade-Tracks last r s o.0 k)

    -- From a new engine, over requests in order of time, with a fill registered for each that is
    -- allowed: no window of `window_steps` that ends at any time holds more fills than
    -- `max_tx_per_window`.
    pub trade_all-rate :
        (rs : List (Request A)) (now : ℕ)
        → InOrder 0 rs
        → length (
            keep
              (in_window c.window_steps now)
              (trade_all rs (record { engine = fresh_engine c; fills = [] })).fills)
          ≤ c.max_tx_per_window
    unfolding prune
    trade_all-rate rs now o =
        trade_all-Tracks 0 rs (record { engine = fresh_engine c; fills = [] }) o
          (record {
            configured = refl;
            sorted = tt;
            tracked = λ later h. refl;
            bounded = λ later. omega arith;
          })
          now
