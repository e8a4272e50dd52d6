-- ===== src/Risk/Ruin/Counts.antt =====
-- What the Monte-Carlo of treasuryforge/risk/ruin.py counts.
use treasuryforge.Base.{
  ℕ, zero, suc, ◌+◌, ◌≤◌, ◌<◌, ◌≡◌, refl, ap, ◌∙◌, subst, inl, inr, true, false, List, [], ◌∷◌,
  arith, ◌==◌, Bool-cases, length, length-append,
}
use treasuryforge.Base.Float.{Float, ◌+◌ as ◌⊞◌, ◌-◌ as ◌⊟◌, ◌*◌ as ◌⊠◌, le, whole, ◌≼◌}
use treasuryforge.Base.Result.{Result, ok, err}
use treasuryforge.Risk.Ruin.{
  Generator, SampleError, block_bootstrap, RuinParams, Walk, Tally, shocked, moved, walk, new_walk,
  one_if, tallied, tally_path, then_paths, report_of, run_paths, new_tally, reported, steps_of,
  monte_carlo_ruin,
}
use treasuryforge.Risk.Ruin.Bootstrap.{InRange, block_bootstrap-Drawn}

module _ {A : Type 0} ⦃F : Float A⦄ {R : Type 0} (g : Generator A R) (p : RuinParams A) where
  -- A path that was liquidated has lost all.
  abbrev Lost : Walk A → Type 0
  Lost w = w.liquidated ≡ true → w.mdd ≡ whole 1

  walk-Lost :
      (rs : List A) (w : Walk A) (rng : R) → w.liquidated ≡ false → Lost (walk g p rs w rng).0
  unfolding walk
  walk-Lost [] w rng alive = λ gone. absurd (cc (alive, gone))
  walk-Lost (r ∷ rs) w rng alive =
      let (r_eff, rng') = shocked g p (r ⊟ p.adverse_shift) rng in
      let cap = w.cap ⊠ (whole 1 ⊞ (p.leverage ⊠ r_eff)) in
      elim (Bool-cases (le cap (whole 0))) [
        | inl wiped_out ↦ rw wiped_out (λ _. refl)
        | inr alive' ↦ rw alive' (walk-Lost rs (moved g p cap w) rng' alive)
      ]

  -- The counts after n paths.
  record Counted (n : ℕ) (t : Tally A) : Type 0 where
    ruined : t.liq ≤ t.ruin
    most : t.ruin ≤ n
    finals : length t.finals ≡ n
    drawdowns : length t.dds ≡ n

  -- A liquidated path is a ruined one, where ruin is a drawdown of at most the whole capital.
  abbrev Ordered : Type 0
  Ordered = p.ruin_drawdown ≼ whole 1

  liq-le-ruin :
      (w : Walk A)
      → Ordered
      → Lost w
      → one_if g p w.liquidated ≤ one_if g p (le p.ruin_drawdown w.mdd)
  liq-le-ruin w o lost = elim (Bool-cases w.liquidated) [
    | inl gone ↦ rw (lost gone, o) (ground arith)
    | inr alive ↦ rw alive (ground arith)
  ]

  tallied-Counted :
      (n : ℕ) (w : Walk A) (t : Tally A)
      → Ordered
      → Lost w
      → Counted n t
      → Counted (suc n) (tallied g p w t)
  tallied-Counted n w t o lost c = record {
    ruined = omega (arith, c.ruined, liq-le-ruin w o lost);
    most = ground (arith, c.most);
    finals = omega (arith, length-append {0} t.finals (w.cap ∷ []), c.finals);
    drawdowns = omega (arith, length-append {0} t.dds (w.mdd ∷ []), c.drawdowns);
  }

  path_run :
      (b : Result SampleError (List A) × R) (path : List A) (t : Tally A)
      (next : Tally A → R → Result SampleError (Tally A) × R)
      → b.0 ≡ ok path
      → let w = walk g p path (new_walk g p) b.1 in
        then_paths g p next (tally_path g p b t) ≡ next (tallied g p w.0 t) w.1
  path_run (ok xs, rng) path t next e = cc
  path_run (err x, rng) path t next e = absurd (cc (e))

  report_run :
      0 < p.paths
      → (o : Result SampleError (Tally A) × R) (t : Tally A) → o.0 ≡ ok t
      → report_of g p o ≡ ok (reported g p t)
  report_run many (ok x, rng) t e =
      let some_paths : (p.paths == 0) ≡ false = ground arith in cc (e, some_paths)
  report_run many (err x, rng) t e = absurd (cc (e))

  module _ (good : InRange g) (o : Ordered) (rets : List A) (some_ : 0 < length rets)
      (blocks : 0 < p.block_len) (some_paths : 0 < p.paths) where
    run_paths-Counted :
        (k n m : ℕ) (t : Tally A) (rng : R)
        → Counted m t
        → (t' : Tally A) × ((run_paths g p k rets n t rng).0 ≡ ok t') × Counted (m + k) t'
    unfolding run_paths
    run_paths-Counted zero n m t rng c = let all_ : m + 0 ≡ m = omega arith in (t, refl, rw all_ c)
    run_paths-Counted (suc k) n m t rng c =
        let b = block_bootstrap g rets n p.block_len rng in
        let (path, drawn, _, _) =
          block_bootstrap-Drawn g good rets n p.block_len rng some_ blocks in
        let w = walk g p path (new_walk g p) b.1 in
        let lost = walk-Lost path (new_walk g p) b.1 refl in
        let (t', run_, counted) =
          run_paths-Counted k n (suc m) (tallied g p w.0 t) w.1
            (tallied-Counted m w.0 t o lost c) in
        let same : suc m + k ≡ m + suc k = omega arith in
        (
          t',
          ap (λ o. o.0) (path_run b path t (run_paths g p k rets n) drawn) ∙ run_,
          subst (λ j. Counted j t') same counted,
        )

    -- Of at least one path, over some returns, with blocks of at least one, a generator that keeps to
    -- its range, and ruin at a drawdown of at most the whole capital, the simulation of ruin returns: it
    -- walks as many paths as asked for, and of these counts a path that is liquidated as ruined, so that
    -- the probability of liquidation is of no more paths than that of ruin.
    pub monte_carlo_ruin-Counted :
        (rng : R)
        → (t : Tally A) × (monte_carlo_ruin g p rets rng ≡ ok (reported g p t))
          × (t.liq ≤ t.ruin)
          × (t.ruin ≤ p.paths)
          × (length t.finals ≡ p.paths)
          × (length t.dds ≡ p.paths)
    unfolding monte_carlo_ruin
    monte_carlo_ruin-Counted rng =
        let (t, run_, c) =
          run_paths-Counted p.paths (steps_of g p p.n_steps rets) 0 (new_tally g p) rng (record {
            ruined = omega arith;
            most = omega arith;
            finals = refl;
            drawdowns = refl;
          }) in
        (
          t,
          report_run some_paths _ t run_,
          c.ruined,
          omega (arith, c.most),
          omega (arith, c.finals),
          omega (arith, c.drawdowns),
        )
