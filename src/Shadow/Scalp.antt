-- ===== src/Shadow/Scalp.antt =====
-- treasuryforge/scalp_shadow.py and the entry rule of treasuryforge/signals/momentum.py: the paper
-- book that steps the momentum rule one bar at a time. The prices of its bars are above zero, so that
-- no division of the source raises.
use treasuryforge.Base.{
  ℕ, suc, ◌≤◌, ◌<◌, ◌≡◌, refl, sym, subst, inl, inr, Bool, true, false, ◌&&◌, ◌||◌, List, [], ◌∷◌,
  arith, if◌then◌else◌, leb, Bool-cases,
}
use treasuryforge.Base.Float.{Float, ◌-◌ as ◌⊟◌, ◌*◌ as ◌⊠◌, ◌/◌ as ◌⊘◌, le, lt, whole, max}

pub record MomentumParams (A : Type 0) : Type 0 where
  pub enter_1m : A
  pub confirm_1m : A
  pub trail_frac : A
  pub stop_frac : A
  pub max_hold : ℕ
  pub cost : A

pub data ScalpAction : Type 0 where
  enter exit_stop exit_trail exit_time hold flat : ScalpAction

pub record ScalpBook (A : Type 0) : Type 0 where
  pub params : MomentumParams A
  pub in_pos : Bool
  pub entry : A
  pub peak : A
  pub bars_held : ℕ
  pub prev : A
  pub prev2 : A

pub record Bar (A : Type 0) : Type 0 where
  pub high : A
  pub low : A
  pub close : A

-- The rule as a state machine: out of the market, or in a position held for some bars.
pub data Phase : Type 0 where
  outside : Phase
  inside : ℕ → Phase

-- Its steps, for a position that is held at most `m` bars: it enters from outside alone, holds while a
-- bar is left, and leaves by the time stop only when none is.
pub data Moves (m : ℕ) : Phase → ScalpAction → Phase → Type 0 where
  waits : Moves m outside flat outside
  enters : Moves m outside enter (inside 0)
  holds : (n : ℕ) → suc n < m → Moves m (inside n) hold (inside (suc n))
  stops : (n : ℕ) → Moves m (inside n) exit_stop outside
  trails : (n : ℕ) → Moves m (inside n) exit_trail outside
  times_out : (n : ℕ) → m ≤ suc n → Moves m (inside n) exit_time outside

pub data Run (m : ℕ) : Phase → List ScalpAction → Phase → Type 0 where
  done : {p : Phase} → Run m p [] p
  next :
      {p q r : Phase} {a : ScalpAction} {as_ : List ScalpAction}
      → Moves m p a q
      → Run m q as_ r
      → Run m p (a ∷ as_) r

abbrev pub phase : Bool → ℕ → Phase
phase true n = inside n
phase false n = outside

module _ {A : Type 0} ⦃F : Float A⦄ where
  abbrev pub entry_ok : A → A → A → MomentumParams A → Bool
  entry_ok prev2_close prev_close close p =
      let r_now = (close ⊘ prev_close) ⊟ whole 1 in
      let r_prev = (prev_close ⊘ prev2_close) ⊟ whole 1 in
      if le prev2_close (whole 0) || le prev_close (whole 0)
      then false
      else le p.enter_1m r_now && le p.confirm_1m r_prev

  -- `_flatten`
  abbrev pub flatten : ScalpBook A → ScalpBook A
  flatten b = record b { in_pos = false; entry = whole 0; peak = whole 0; bars_held = 0 }

  -- A bar while the position is held, counted already.
  abbrev pub held : Bar A → ScalpBook A → (ScalpAction × A) × ScalpBook A
  held x b =
      let p = b.params in
      let half_cost = p.cost ⊘ whole 2 in
      let trail_level = b.peak ⊠ (whole 1 ⊟ p.trail_frac) in
      let stop_level = b.entry ⊠ (whole 1 ⊟ p.stop_frac) in
      let mtm = if lt (whole 0) b.prev then (x.close ⊘ b.prev) ⊟ whole 1 else whole 0 in
      if le x.low stop_level && le stop_level trail_level
      then ((exit_stop, ((stop_level ⊘ b.prev) ⊟ whole 1) ⊟ half_cost), flatten b)
      else if le x.low trail_level
      then ((exit_trail, ((trail_level ⊘ b.prev) ⊟ whole 1) ⊟ half_cost), flatten b)
      else if leb p.max_hold b.bars_held
      then ((exit_time, mtm ⊟ half_cost), flatten b)
      else ((hold, mtm), record b { peak = max b.peak x.high })

  -- A bar while no position is held.
  abbrev pub waiting : Bar A → ScalpBook A → (ScalpAction × A) × ScalpBook A
  waiting x b =
      if entry_ok b.prev2 b.prev x.close b.params
      then (
        (enter, F.negate (b.params.cost ⊘ whole 2)),
        record b { in_pos = true; entry = x.close; peak = x.close; bars_held = 0 },
      )
      else ((flat, whole 0), b)

  abbrev pub acted : Bar A → ScalpBook A → (ScalpAction × A) × ScalpBook A
  acted x b = if b.in_pos then held x (record b { bars_held = suc b.bars_held }) else waiting x b

  -- The last line of `observe`.
  abbrev pub shifted : Bar A → A → (ScalpAction × A) × ScalpBook A → (ScalpAction × A) × ScalpBook A
  shifted x prev (out, b) = (out, record b { prev2 = prev; prev = x.close })

  unfoldable pub observe : Bar A → ScalpBook A → (ScalpAction × A) × ScalpBook A
  observe x b = shifted x b.prev (acted x b)

  abbrev pub new_book : MomentumParams A → ScalpBook A
  new_book p = record {
    params = p;
    in_pos = false;
    entry = whole 0;
    peak = whole 0;
    bars_held = 0;
    prev = whole 0;
    prev2 = whole 0;
  }

  -- The actions over some bars, and the book that they leave.
  unfoldable pub observe_all : List (Bar A) → ScalpBook A → List ScalpAction × ScalpBook A
  observe_all [] b = ([], b)
  observe_all (x ∷ xs) b =
      let (out, b') = observe x b in let (rest, b'') = observe_all xs b' in (out.0 ∷ rest, b'')

  abbrev pub phase_of : ScalpBook A → Phase
  phase_of b = phase b.in_pos b.bars_held

  held-Moves :
      (x : Bar A) (b : ScalpBook A) (n : ℕ)
      → b.in_pos ≡ true
      → b.bars_held ≡ suc n
      → let (out, b') = held x b in
        Moves b.params.max_hold (inside n) out.0 (phase_of b') × (b'.params ≡ b.params)
  held-Moves x b n at count =
      let p = b.params in
      let trail_level = b.peak ⊠ (whole 1 ⊟ p.trail_frac) in
      let stop_level = b.entry ⊠ (whole 1 ⊟ p.stop_frac) in
      elim (Bool-cases (le x.low stop_level && le stop_level trail_level)) [
        | inl stopped ↦ rw stopped (stops n, refl)
        | inr unstopped ↦ elim (Bool-cases (le x.low trail_level)) [
          | inl trailed ↦ rw (unstopped, trailed) (trails n, refl)
          | inr untrailed ↦ elim (Bool-cases (leb p.max_hold b.bars_held)) [
            | inl over ↦
                rw (unstopped, untrailed, over) (times_out n (ground (arith, over, count)), refl)
            | inr on ↦
                let room : suc n < p.max_hold = ground (arith, on, count) in
                rw (unstopped, untrailed, on, at, count) (holds n room, refl)
          ]
        ]
      ]

  acted-Moves :
      (x : Bar A) (b : ScalpBook A)
      → let (out, b') = acted x b in
        Moves b.params.max_hold (phase_of b) out.0 (phase_of b') × (b'.params ≡ b.params)
  acted-Moves x b = go b.in_pos refl
    where
      go :
          (v : Bool)
          → b.in_pos ≡ v
          → let (out, b') =
              if v then held x (record b { bars_held = suc b.bars_held }) else waiting x b in
            Moves b.params.max_hold (phase v b.bars_held) out.0 (phase_of b')
            × (b'.params ≡ b.params)
      go true at = held-Moves x (record b { bars_held = suc b.bars_held }) b.bars_held at refl
      go false at = elim (Bool-cases (entry_ok b.prev2 b.prev x.close b.params)) [
        | inl entering ↦ rw entering (enters, refl)
        | inr idle ↦ rw idle (
          subst (λ v. Moves b.params.max_hold outside flat (phase v b.bars_held)) (sym at) waits,
          refl,
        )
      ]

  -- Over any bars, the actions of the book are a run of the rule's state machine, from the phase that
  -- the book is in to the phase that it ends in, for positions held at most `max_hold` bars.
  pub observe_all-Run :
      (xs : List (Bar A)) (b : ScalpBook A)
      → let (actions, b') = observe_all xs b in
        Run b.params.max_hold (phase_of b) actions (phase_of b')
  unfolding observe_all observe
  observe_all-Run [] b = done
  observe_all-Run (x ∷ xs) b =
      let (move, same) = acted-Moves x b in
      let rest = observe_all-Run xs (observe x b).1 in
      next move (
        subst
          (λ p.
            Run p.max_hold (phase_of (observe x b).1) (observe_all xs (observe x b).1).0
              (phase_of (observe_all xs (observe x b).1).1))
          same rest)
