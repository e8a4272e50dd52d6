-- ===== src/Research/Episodes/Booked.antt =====
-- The carry backtest of treasuryforge/carry_backtest.py books the episodes that
-- treasuryforge/funding_persistence.py measures.
use treasuryforge.Base.{
  ℕ, suc, ◌-◌, ◌≤◌, ◌≡◌, refl, sym, ap, inl, inr, Bool, true, false, not, ◌&&◌, List, [], ◌∷◌, ◌++◌,
  arith, if◌then◌else◌, leb, Bool-cases, length, length-append, larger,
}
use treasuryforge.Base.Float.{Float, ◌-◌ as ◌⊟◌, ◌*◌ as ◌⊠◌, le, lt, whole}
use mathlib.Core.List.{append-nil}
use treasuryforge.Base.Result.{ok}
use treasuryforge.Research.Episodes.{
  PersistenceStats, Regime, no_regime, regime_step, regime_loop, all_durations, funding_persistence,
  CarryState, collecting, entered, no_carry, close_open, carry_step, carry_loop, backtest_carry,
}

-- How long a carry is held that enters an episode of `d` intervals once it is `m` old, for each of
-- some episodes; those that never grow as old give none.
abbrev pub held_after : ℕ → List ℕ → List ℕ
held_after m [] = []
held_after m (d ∷ ds) = let rest = held_after m ds in if leb m d then (suc d - m) ∷ rest else rest

held_after-append :
    (m : ℕ) (ds es : List ℕ) → held_after m (ds ++ es) ≡ held_after m ds ++ held_after m es
held_after-append m [] es = refl
held_after-append m (d ∷ ds) es = ground (arith, held_after-append m ds es)

module _ {A : Type 0} ⦃F : Float A⦄ (enter exit round_trip : A) (min_age : ℕ) where
  abbrev oldest : ℕ
  oldest = larger min_age 1

  -- The two loops are at the same place of the series.
  record Agree (r : Regime) (s : CarryState A) : Type 0 where
    episode : s.in_episode ≡ r.in_regime
    age : r.in_regime ≡ true → (s.age ≡ r.dur) × (1 ≤ r.dur)
    position : s.in_pos ≡ (r.in_regime && leb oldest r.dur)
    hold : s.hold ≡ (if r.in_regime && leb oldest r.dur then suc r.dur - oldest else 0)
    booked : s.holds ≡ held_after oldest r.durations
    paid : length s.returns ≡ length s.holds
    costs : s.n_cost ≡ length s.holds

  -- The two steps, by the tests on the funding.
  abbrev regime_by : Bool → Bool → Regime → Regime
  regime_by begins ends s =
      if not s.in_regime
      then (if begins then record s { in_regime = true; dur = 1 } else s)
      else if ends
      then record s { durations = s.durations ++ s.dur ∷ []; in_regime = false }
      else record s { dur = suc s.dur }

  abbrev carry_by : Bool → Bool → A → CarryState A → CarryState A
  carry_by begins ends f s = collecting f (
      entered min_age (
        if not s.in_episode
        then (if begins then record s { in_episode = true; age = 1 } else s)
        else if ends
        then record (close_open round_trip s) { in_episode = false; age = 0 }
        else record s { age = suc s.age }))

  module _ (f collected funding : A) (returns : List A) (ds hs : List ℕ)
      (dur years hold n : ℕ) where
    abbrev regime : Bool → Regime
    regime inside = record { durations = ds; in_regime = inside; dur = dur }

    abbrev carry : Bool → Bool → CarryState A
    carry inside held = record {
      in_episode = inside;
      age = years;
      in_pos = held;
      collected = collected;
      hold = hold;
      returns = returns;
      holds = hs;
      total_funding = funding;
      n_cost = n;
    }

    outside-Agree :
        (begins ends : Bool)
        → Agree (regime false) (carry false false)
        → Agree (regime_by begins ends (regime false)) (carry_by begins ends f (carry false false))
    outside-Agree true ends g = elim (Bool-cases (leb oldest 1)) [
      | inl at_once ↦ rw at_once (record {
        episode = refl;
        age = λ _. (refl, omega arith);
        position = sym at_once;
        hold = ground arith;
        booked = g.booked;
        paid = g.paid;
        costs = g.costs;
      })
      | inr later ↦ rw later (record {
        episode = refl;
        age = λ _. (refl, omega arith);
        position = sym later;
        hold = ground arith;
        booked = g.booked;
        paid = g.paid;
        costs = g.costs;
      })
    ]
    outside-Agree false ends g = g

    held-Agree :
        (begins ends : Bool)
        → Agree (regime true) (carry true true)
        → Agree (regime_by begins ends (regime true)) (carry_by begins ends f (carry true true))
    held-Agree begins true g = record {
      episode = refl;
      age = λ e. absurd (cc e);
      position = refl;
      hold = refl;
      booked = ground (arith, held_after-append oldest ds (dur ∷ []), g.booked, g.hold, g.position);
      paid = omega (
        arith,
        length-append {0} returns ((collected ⊟ round_trip) ∷ []),
        length-append {0} hs (hold ∷ []),
        g.paid,
      );
      costs = omega (arith, length-append {0} hs (hold ∷ []), g.costs);
    }
    held-Agree begins false g = record {
      episode = refl;
      age = λ _. ground (arith, g.age refl);
      position = ground (arith, g.position);
      hold = ground (arith, g.position, g.hold);
      booked = g.booked;
      paid = g.paid;
      costs = g.costs;
    }

    waiting-Agree :
        (begins ends : Bool)
        → Agree (regime true) (carry true false)
        → Agree (regime_by begins ends (regime true)) (carry_by begins ends f (carry true false))
    waiting-Agree begins true g = record {
      episode = refl;
      age = λ e. absurd (cc e);
      position = refl;
      hold = ground (arith, g.position, g.hold);
      booked = ground (
        arith,
        held_after-append oldest ds (dur ∷ []),
        append-nil (held_after oldest ds),
        g.booked,
        g.position,
      );
      paid = g.paid;
      costs = g.costs;
    }
    waiting-Agree begins false g =
        let (same, old) = g.age refl in
        let older : suc years ≡ suc dur = ap suc same in
        let fresh : hold ≡ 0 = ground (arith, g.position, g.hold) in
        elim (Bool-cases (leb oldest (suc dur))) [
          | inl due ↦
              rw (older, due)
                (record {
                  episode = refl;
                  age = λ _. (refl, omega arith);
                  position = sym due;
                  hold = ground (arith, due, fresh, g.position);
                  booked = g.booked;
                  paid = g.paid;
                  costs = g.costs;
                })
          | inr early ↦
              rw (older, early)
                (record {
                  episode = refl;
                  age = λ _. (refl, omega arith);
                  position = sym early;
                  hold = ground (arith, early, fresh);
                  booked = g.booked;
                  paid = g.paid;
                  costs = g.costs;
                })
        ]

    any-Agree :
        (begins ends inside episode held : Bool)
        → Agree (regime inside) (carry episode held)
        → Agree
            (regime_by begins ends (regime inside))
            (carry_by begins ends f (carry episode held))
    any-Agree begins ends false false false g = outside-Agree begins ends g
    any-Agree begins ends false false true g = absurd (cc (g.position))
    any-Agree begins ends true true true g = held-Agree begins ends g
    any-Agree begins ends true true false g = waiting-Agree begins ends g
    any-Agree begins ends true false held g = absurd (cc (g.episode))
    any-Agree begins ends false true held g = absurd (cc (g.episode))

    -- Closing a position that is open at the end of the series is what the end of its episode does.
    closed_by :
        (inside episode held : Bool)
        → Agree (regime inside) (carry episode held)
        → let t = close_open round_trip (carry episode held) in
          (t.holds ≡ held_after oldest (all_durations (regime inside)))
          × (length t.returns ≡ length t.holds)
          × (t.n_cost ≡ length t.holds)
    closed_by true true true g = let g' = held-Agree true true g in (g'.booked, g'.paid, g'.costs)
    closed_by true true false g =
        let g' = waiting-Agree true true g in (g'.booked, g'.paid, g'.costs)
    closed_by false false false g = (g.booked, g.paid, g.costs)
    closed_by false false true g = absurd (cc (g.position))
    closed_by true false held g = absurd (cc (g.episode))
    closed_by false true held g = absurd (cc (g.episode))

  step-Agree :
      (f : A) (r : Regime) (s : CarryState A)
      → Agree r s
      → Agree (regime_step enter exit f r) (carry_step enter exit round_trip min_age f s)
  step-Agree f r s g =
      any-Agree f s.collected s.total_funding s.returns r.durations s.holds r.dur s.age s.hold
        s.n_cost (le enter f) (lt f exit) r.in_regime s.in_episode s.in_pos g

  loop-Agree :
      (fs : List A) (r : Regime) (s : CarryState A)
      → Agree r s
      → Agree (regime_loop enter exit fs r) (carry_loop enter exit round_trip min_age fs s)
  unfolding regime_loop carry_loop
  loop-Agree [] r s g = g
  loop-Agree (f ∷ fs) r s g = loop-Agree fs _ _ (step-Agree f r s g)

module _ {A : Type 0} ⦃F : Float A⦄ (enter exit round_trip : A) (min_age : ℕ) where
  start-Agree : Agree enter exit round_trip min_age no_regime no_carry
  start-Agree = record {
    episode = refl;
    age = λ e. absurd (cc e);
    position = refl;
    hold = refl;
    booked = refl;
    paid = refl;
    costs = refl;
  }

-- The positions that the carry backtest books are the episodes of high funding, in order, where
-- entering takes no less than staying: it holds
-- each that lasts long enough from the interval at which it has reached the minimum age to its end,
-- pays one round trip for each, and opens no other.
pub backtest_carry-booked :
    {A : Type 0} ⦃F : Float A⦄ (history : List A) (enter exit round_trip : A)
    (min_age breakeven : ℕ)
    → lt enter exit ≡ false
    → let r = backtest_carry history enter exit round_trip min_age in
      (p : PersistenceStats) × (funding_persistence history enter exit breakeven ≡ ok p)
      × (r.holds ≡ held_after (larger min_age 1) p.durations)
      × (r.n_positions ≡ length r.holds)
      × (r.total_cost ≡ whole (length r.holds) ⊠ round_trip)
unfolding funding_persistence backtest_carry
backtest_carry-booked history enter exit round_trip min_age breakeven ordered =
    let r = regime_loop enter exit history no_regime in
    let s = carry_loop enter exit round_trip min_age history no_carry in
    let g =
      loop-Agree enter exit round_trip min_age history no_regime no_carry
        (start-Agree enter exit round_trip min_age) in
    let (holds, positions, costs) =
      closed_by enter exit round_trip min_age enter s.collected s.total_funding s.returns
        r.durations s.holds r.dur s.age s.hold s.n_cost r.in_regime s.in_episode s.in_pos g in
    (
      record {
        n_episodes = length (all_durations r);
        durations = all_durations r;
        breakeven_intervals = breakeven;
        last_censored = r.in_regime;
      },
      rw ordered,
      holds,
      positions,
      ap (λ n. whole n ⊠ round_trip) costs,
    )
