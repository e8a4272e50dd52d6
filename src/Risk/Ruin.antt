-- ===== src/Risk/Ruin.antt =====
-- treasuryforge/risk/ruin.py: the block bootstrap and the Monte-Carlo of ruin over it; its child Gates has
-- the gates of a strategy. The random generator is a parameter.
pub mod Bootstrap
pub mod Counts
pub mod Gates
use treasuryforge.Base.{
  ℕ, zero, suc, ◌+◌, ◌-◌, ◌/◌, Bool, true, false, not, ◌&&◌, Option, none, some, List, [], ◌∷◌,
  ◌++◌, map, if◌then◌else◌, ltb, leb, ◌==◌, length, take, all, drop,
}
use treasuryforge.Base.Float.{
  Float, ◌+◌ as ◌⊞◌, ◌-◌ as ◌⊟◌, ◌*◌ as ◌⊠◌, ◌/◌ as ◌⊘◌, le, lt, whole, min, max, sum, is_zero,
  mean_of,
}
use treasuryforge.Base.Result.{Result, ok, err}

-- Python's `random.Random`.
pub record Generator (A R : Type 0) : Type 0 where
  -- `randint(a, b)`, with both ends
  pub randint : ℕ → ℕ → R → ℕ × R
  pub random : R → A × R

-- How a simulation fails: `randint` on an empty range and a mean over no paths raise; or a loop does
-- not end.
pub data SampleError : Type 0 where
  empty_range no_paths endless : SampleError

module _ {A : Type 0} where
  -- `rets[start:start + block_len]`
  abbrev pub block : List A → ℕ → ℕ → List A
  block rets start len = take len (drop start rets)

  -- The length of a block, halved where the series is no longer than that.
  abbrev pub block_length : List A → ℕ → ℕ
  block_length rets len =
      let half = length rets / 2 in
      if leb (length rets) len then (if ltb 1 half then half else 1) else len

  module _ {R : Type 0} (g : Generator A R) where
    -- The loop, on fuel: each round adds a block.
    unfoldable pub sample : ℕ → List A → ℕ → ℕ → List A → R → Result SampleError (List A) × R
    sample zero rets len n out rng =
        (if ltb (length out) n then err endless else ok (take n out), rng)
    sample (suc fuel) rets len n out rng =
        let (start, rng') = g.randint 0 (length rets - len) rng in
        let rest = sample fuel rets len n (out ++ block rets start len) rng' in
        if ltb (length out) n
        then (if ltb (length rets) len then (err empty_range, rng) else rest)
        else (ok (take n out), rng)

    unfoldable pub block_bootstrap : List A → ℕ → ℕ → R → Result SampleError (List A) × R
    unfolding sample
    block_bootstrap rets n len rng = sample n rets (block_length rets len) n [] rng

pub record MonteCarloRuinResult (A : Type 0) : Type 0 where
  pub p_ruin : A
  pub p_liquidation : A
  pub expected_max_drawdown : A
  pub median_final_multiple : A
  pub dd_threshold_probs : List (A × A)

-- The arguments of `monte_carlo_ruin`.
pub record RuinParams (A : Type 0) : Type 0 where
  pub leverage : A
  pub n_steps : Option ℕ
  pub paths : ℕ
  pub ruin_drawdown : A
  pub block_len : ℕ
  pub adverse_shift : A
  pub tail_shock_prob : A
  pub tail_shock_mult : A
  pub dd_thresholds : List A

-- A path as it is walked.
pub record Walk (A : Type 0) : Type 0 where
  pub cap : A
  pub peak : A
  pub mdd : A
  pub liquidated : Bool

-- What the paths so far have come to.
pub record Tally (A : Type 0) : Type 0 where
  pub ruin : ℕ
  pub liq : ℕ
  pub dds : List A
  pub finals : List A
  pub thr_hits : List (A × ℕ)

module _ {A : Type 0} ⦃F : Float A⦄ where
  module _ {R : Type 0} (g : Generator A R) (p : RuinParams A) where
    -- `if tail_shock_prob and rng.random() < tail_shock_prob`: no number is drawn where it is zero.
    abbrev pub shocked : A → R → A × R
    shocked r_eff rng =
        if is_zero p.tail_shock_prob
        then (r_eff, rng)
        else let (u, rng') = g.random rng in
          (
            if lt u p.tail_shock_prob
                then F.negate (F.magnitude r_eff) ⊠ p.tail_shock_mult
                else r_eff,
            rng',
          )

    -- The walk once the capital has moved, alive.
    abbrev pub moved : A → Walk A → Walk A
    moved cap w =
        let peak = if lt w.peak cap then cap else w.peak in
        let dd = whole 1 ⊟ (cap ⊘ peak) in
        record w { cap = cap; peak = peak; mdd = if lt w.mdd dd then dd else w.mdd }

    abbrev pub wiped : Walk A → Walk A
    wiped w = record w { cap = whole 0; mdd = whole 1; liquidated = true }

    -- The loop over a path, which a liquidation breaks.
    unfoldable pub walk : List A → Walk A → R → Walk A × R
    walk [] w rng = (w, rng)
    walk (r ∷ rs) w rng =
        let (r_eff, rng') = shocked (r ⊟ p.adverse_shift) rng in
        let cap = w.cap ⊠ (whole 1 ⊞ (p.leverage ⊠ r_eff)) in
        let rest = walk rs (moved cap w) rng' in if le cap (whole 0) then (wiped w, rng') else rest

    abbrev pub new_walk : Walk A
    new_walk = record { cap = whole 1; peak = whole 1; mdd = whole 0; liquidated = false }

    abbrev pub one_if : Bool → ℕ
    one_if b = if b then 1 else 0

    -- The counts after one more path.
    abbrev pub tallied : Walk A → Tally A → Tally A
    tallied w t = record {
      ruin = t.ruin + one_if (le p.ruin_drawdown w.mdd);
      liq = t.liq + one_if w.liquidated;
      dds = t.dds ++ w.mdd ∷ [];
      finals = t.finals ++ w.cap ∷ [];
      thr_hits = map (λ h. (h.0, h.1 + one_if (le h.0 w.mdd))) t.thr_hits;
    }

    abbrev pub tally_path :
        Result SampleError (List A) × R → Tally A → Result SampleError (Tally A) × R
    tally_path (err e, rng) t = (err e, rng)
    tally_path (ok path, rng) t = let (w, rng') = walk path new_walk rng in (ok (tallied w t), rng')

    abbrev pub then_paths :
        (Tally A → R → Result SampleError (Tally A) × R)
        → Result SampleError (Tally A) × R
        → Result SampleError (Tally A) × R
    then_paths next (err e, rng) = (err e, rng)
    then_paths next (ok t, rng) = next t rng

    -- The loop over the paths.
    unfoldable pub run_paths : ℕ → List A → ℕ → Tally A → R → Result SampleError (Tally A) × R
    unfolding block_bootstrap
    run_paths zero rets n t rng = (ok t, rng)
    run_paths (suc k) rets n t rng =
        then_paths (run_paths k rets n) (tally_path (block_bootstrap g rets n p.block_len rng) t)

    abbrev pub new_tally : Tally A
    new_tally = record {
      ruin = 0;
      liq = 0;
      dds = [];
      finals = [];
      thr_hits = map (λ t. (t, 0)) p.dd_thresholds;
    }

    -- `list.sort`
    abbrev pub insert_sorted : A → List A → List A
    insert_sorted x [] = x ∷ []
    insert_sorted x (y ∷ ys) =
        let rest = insert_sorted x ys in if lt x y then x ∷ y ∷ ys else y ∷ rest

    abbrev pub sorted : List A → List A
    sorted [] = []
    sorted (x ∷ xs) = insert_sorted x (sorted xs)

    abbrev pub nth : List A → ℕ → A
    nth [] i = whole 0
    nth (x ∷ xs) zero = x
    nth (x ∷ xs) (suc i) = nth xs i

    abbrev pub reported : Tally A → MonteCarloRuinResult A
    reported t = record {
      p_ruin = whole t.ruin ⊘ whole p.paths;
      p_liquidation = whole t.liq ⊘ whole p.paths;
      expected_max_drawdown = sum t.dds ⊘ whole p.paths;
      median_final_multiple = nth (sorted t.finals) (p.paths / 2);
      dd_threshold_probs = map (λ h. (h.0, whole h.1 ⊘ whole p.paths)) t.thr_hits;
    }

    -- `n_steps or len(rets)`
    abbrev pub steps_of : Option ℕ → List A → ℕ
    steps_of none rets = length rets
    steps_of (some n) rets = if n == 0 then length rets else n

    abbrev pub report_of :
        Result SampleError (Tally A) × R → Result SampleError (MonteCarloRuinResult A)
    report_of (ok t, rng) = if p.paths == 0 then err no_paths else ok (reported t)
    report_of (err e, rng) = err e

    unfoldable pub monte_carlo_ruin : List A → R → Result SampleError (MonteCarloRuinResult A)
    unfolding run_paths
    monte_carlo_ruin rets rng =
        report_of (run_paths p.paths rets (steps_of p.n_steps rets) new_tally rng)
