-- ===== src/Risk/Ruin/Gates.antt =====
-- treasuryforge/risk/ruin.py: growth, Kelly leverage, and the gates of `StrategyRiskPolicy.assess`.
-- `math.log` and minus infinity are parameters.
use treasuryforge.Base.{
  Bool, false, Option, none, some, List, [], ◌∷◌, ◌++◌, map, if◌then◌else◌, length, all,
}
use treasuryforge.Base.Float.{
  Float, ◌+◌ as ◌⊞◌, ◌-◌ as ◌⊟◌, ◌*◌ as ◌⊠◌, ◌/◌ as ◌⊘◌, le, lt, whole, min, sum, mean_of,
}
use treasuryforge.Base.Result.{Result, ok, err}
use treasuryforge.Risk.Ruin.{
  Generator, SampleError, MonteCarloRuinResult, RuinParams, monte_carlo_ruin,
}

pub record StrategyRiskPolicy (A : Type 0) : Type 0 where
  pub cost_per_cycle : A
  pub min_edge_margin : A
  pub min_dsr : A
  pub kelly_fraction : A
  pub max_leverage : A
  pub max_p_ruin : A
  pub ruin_drawdown : A
  pub max_expected_drawdown : A

pub data GateName : Type 0 where
  edge_is_real edge growing kelly_cap risk_of_ruin expected_drawdown : GateName

pub record RiskVerdict (A : Type 0) : Type 0 where
  pub accepted : Bool
  pub gates : List (GateName × Bool)
  pub kelly : A
  pub monte_carlo : MonteCarloRuinResult A

module _ {A : Type 0} ⦃F : Float A⦄ where
  -- `_moments`
  abbrev pub moments : List A → A × A
  moments xs =
      let mean = mean_of xs in
      (mean, sum (map (λ r. (r ⊟ mean) ⊠ (r ⊟ mean)) xs) ⊘ whole (length xs))

  -- The sum of the logs, or nothing where a step liquidates.
  abbrev pub log_growth : (A → A) → A → A → List A → Option A
  log_growth log leverage total [] = some total
  log_growth log leverage total (r ∷ rs) =
      let x = whole 1 ⊞ (leverage ⊠ r) in
      let rest = log_growth log leverage (total ⊞ log x) rs in if le x (whole 0) then none else rest

  -- `none` is minus infinity.
  unfoldable pub geometric_growth : (A → A) → List A → A → Option A
  geometric_growth log xs leverage = elim (log_growth log leverage (whole 0) xs) [
    | none ↦ none
    | some total ↦ some (total ⊘ whole (length xs))
  ]

  abbrev pub grows : Option A → Bool
  grows none = false
  grows (some g) = lt (whole 0) g

  unfoldable pub kelly_leverage : List A → A
  kelly_leverage xs =
      let (mean, var) = moments xs in if lt (whole 0) var then mean ⊘ var else whole 0

  abbrev pub real_gate : StrategyRiskPolicy A → Option A → List (GateName × Bool)
  real_gate q none = []
  real_gate q (some dsr) = (edge_is_real, le q.min_dsr dsr) ∷ []

  abbrev pub gates_of :
      StrategyRiskPolicy A
      → (A → A)
      → List A
      → A
      → Option A
      → MonteCarloRuinResult A
      → List (GateName × Bool)
  gates_of q log xs leverage dsr mc =
      real_gate q dsr
      ++ (edge, lt (q.cost_per_cycle ⊞ q.min_edge_margin) (mean_of xs))
        ∷ (growing, grows (geometric_growth log xs leverage))
        ∷ (
          kelly_cap,
          le leverage (min (q.kelly_fraction ⊠ kelly_leverage xs) q.max_leverage ⊞ F.lit 1 9),
        )
        ∷ (risk_of_ruin, lt mc.p_ruin q.max_p_ruin)
        ∷ (expected_drawdown, lt mc.expected_max_drawdown q.max_expected_drawdown)
        ∷ []

  abbrev pub verdict_of : List (GateName × Bool) → List A → MonteCarloRuinResult A → RiskVerdict A
  verdict_of gates xs mc = record {
    accepted = all (λ g. g.1) gates;
    gates = gates;
    kelly = kelly_leverage xs;
    monte_carlo = mc;
  }

  -- `assess`; `p` holds the arguments that are passed on to the simulation.
  unfoldable pub assess :
      {R : Type 0}
      → Generator A R
      → StrategyRiskPolicy A
      → (A → A)
      → RuinParams A
      → List A
      → A
      → Option A
      → R
      → Result SampleError (RiskVerdict A)
  unfolding monte_carlo_ruin
  assess g q log p xs leverage dsr rng =
      let mc =
        monte_carlo_ruin g (record p { leverage = leverage; ruin_drawdown = q.ruin_drawdown }) xs
          rng in
      elim mc [ err e ↦ err e | ok m ↦ ok (verdict_of (gates_of q log xs leverage dsr m) xs m) ]
