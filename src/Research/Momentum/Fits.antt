-- ===== src/Research/Momentum/Fits.antt =====
-- That the momentum backtest of treasuryforge/momentum_backtest.py ends, and that its trades do not
-- overlap.
use treasuryforge.Base.{
  ℕ, zero, suc, ◌+◌, ◌-◌, ◌≤◌, ◌<◌, ◌≡◌, refl, ap, inl, inr, false, Option, some, List, [], ◌∷◌,
  arith, ltb, Bool-cases, Option-cases, length, All, length-drop, drop, smaller,
}
use mathlib.Core.Option
use treasuryforge.Base.Float.{Float, ◌-◌ as ◌⊟◌, max}
use treasuryforge.Shadow.Scalp.{MomentumParams, Bar, entry_ok}
use treasuryforge.Research.Momentum.{
  MomentumResult, exit_from, simulate_exit, ignites, with_trade, scan, backtest_momentum,
}

-- The bars that some holds take, with the bar of each entry.
abbrev pub spans : List ℕ → ℕ
spans [] = 0
spans (h ∷ hs) = suc h + spans hs

module _ {A : Type 0} ⦃F : Float A⦄ (p : MomentumParams A) where
  exit_from-bounds :
      (entry peak final : A) (j n : ℕ) (bars : List (Bar A))
      → n ≤ length bars
      → let held = (exit_from p entry peak final j n bars).0 in
        (held ≤ j + n) × (0 < n → j < held) × (j ≤ held)
  unfolding exit_from
  exit_from-bounds entry peak final j zero bars h = omega arith
  exit_from-bounds entry peak final j (suc n) [] h = absurd (omega arith)
  exit_from-bounds entry peak final j (suc n) (b ∷ bs) h =
      let rest = exit_from-bounds entry (max peak b.high) b.close (suc j) n bs (omega arith) in
      ground (arith, rest)

  -- A hold takes at most the bars left, at most `max_hold`, and at least one where both leave one.
  simulate_exit-bounds :
      (entry : A) (bars : List (Bar A))
      → let held = (simulate_exit entry bars p).0 in
        (held ≤ length bars) × (held ≤ p.max_hold) × (0 < p.max_hold → 0 < length bars → 0 < held)
  unfolding simulate_exit
  simulate_exit-bounds entry bars =
      let n = smaller p.max_hold (length bars) in
      let small : (n ≤ length bars) × (n ≤ p.max_hold) = ground arith in
      let b = exit_from-bounds entry entry entry 0 n bars small.0 in
      (
        omega (arith, b.0, small.0),
        omega (arith, b.0, small.1),
        λ h k. let pos : 0 < n = ground arith in omega (arith, b.1 pos),
      )

  -- What a run over some bars books: trades that fit beside one another.
  abbrev pub Booked : List (Bar A) → Option (MomentumResult A) → Type 0
  Booked bars o =
      (r : MomentumResult A) × (o ≡ some r)
      × (length r.returns ≡ length r.holds)
      × (spans r.holds ≤ length bars - 2)
      × All (λ h. (h ≤ p.max_hold) × (0 < p.max_hold → 0 < h)) r.holds

  nothing-Booked : (bars : List (Bar A)) → Booked bars (some (record { returns = []; holds = [] }))
  nothing-Booked bars = (record { returns = []; holds = [] }, refl, refl, omega arith, tt)

  ignites-later :
      (bars : List (Bar A)) (entry : A) (later : List (Bar A))
      → ignites p bars ≡ some (entry, later)
      → length later + 3 ≡ length bars
  ignites-later [] entry later e = absurd (cc (e))
  ignites-later (a ∷ []) entry later e = absurd (cc (e))
  ignites-later (a ∷ b ∷ []) entry later e = absurd (cc (e))
  ignites-later (a ∷ b ∷ c ∷ rest) entry later e =
      elim (Bool-cases (entry_ok a.close b.close c.close p)) [
        | inl lit ↦ let same : rest ≡ later = cc (rw lit at e) in omega (arith, ap length same)
        | inr quiet ↦ absurd (cc (rw quiet at e))
      ]

  add_trade :
      (bars : List (Bar A)) (held : ℕ) (ret : A) (o : Option (MomentumResult A))
      → held + 3 ≤ length bars
      → held ≤ p.max_hold
      → (0 < p.max_hold → 0 < held)
      → Booked (drop (suc held) bars) o
      → Booked bars (Option.map (with_trade ret held) o)
  add_trade bars held ret o room short some_ (r, e, same, fits, each) =
      let left = length-drop (suc held) bars (omega arith) in
      (with_trade ret held r, rw e, ap suc same, omega (arith, left, fits), ((short, some_), each))

  scan-Booked :
      (fuel : ℕ) (bars : List (Bar A)) → length bars ≤ fuel + 3 → Booked bars (scan fuel p bars)
  unfolding scan
  scan-Booked zero bars h =
      let done : ltb 3 (length bars) ≡ false = ground arith in rw done (nothing-Booked bars)
  scan-Booked (suc fuel) bars h = elim (Bool-cases (ltb 3 (length bars))) [
    | inr done ↦ rw done (nothing-Booked bars)
    | inl more ↦ elim (Option-cases (ignites p bars)) [
      | inl quiet ↦
          let left = length-drop 1 bars (ground (arith, more)) in
          let (r, e, same, fits, each) = scan-Booked fuel (drop 1 bars) (omega (arith, left)) in
          rw (more, quiet) (r, e, same, omega (arith, left, fits), each)
      | inr ((entry, later), lit) ↦
          let size = ignites-later bars entry later lit in
          let exit_ = simulate_exit entry later p in
          let (most, short, least) = simulate_exit-bounds entry later in
          let left = length-drop (suc exit_.0) bars (omega (arith, size, most)) in
          rw (more, lit)
            (add_trade bars exit_.0 (exit_.1 ⊟ p.cost) (scan fuel p (drop (suc exit_.0) bars))
              (omega (arith, size, most)) short (λ k. least k (ground (arith, more, size)))
              (scan-Booked fuel (drop (suc exit_.0) bars) (omega (arith, left))))
    ]
  ]

  -- The backtest ends, with a hold for each return; a hold is of at most max_hold bars, and of at least
  -- one where max_hold is; and the holds and one bar more for each add up to at most the bars of the
  -- series from its third on.
  pub backtest_momentum-Booked : (bars : List (Bar A)) → Booked bars (backtest_momentum bars p)
  unfolding backtest_momentum
  backtest_momentum-Booked bars = scan-Booked (length bars) bars (omega arith)
