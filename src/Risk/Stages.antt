-- ===== src/Risk/Stages.antt =====
-- treasuryforge/risk/stages.py: the ladder of capital stages a strategy climbs and falls. A reason is
-- the list of the criteria that it prints.
use treasuryforge.Base.{
  ℕ, suc, ◌+◌, ◌-◌, ◌≤◌, ◌≡◌, refl, Bool, true, false, not, ◌&&◌, List, [], ◌∷◌, ◌++◌, arith,
  if◌then◌else◌, ltb, leb, ◌==◌, length, keep,
}
use treasuryforge.Base.Float.{Float, le, lt}

pub data Stage : Type 0 where
  dead : Stage
  paper_live : Stage
  micro_capital : Stage
  small_capital : Stage
  normal_capital : Stage
  capped_production : Stage

-- `int(stage)` of a stage that is not DEAD, and `Stage(n)` for a rung up to 4.
abbrev pub rung : Stage → ℕ
rung Stage.dead = 0
rung Stage.paper_live = 0
rung Stage.micro_capital = 1
rung Stage.small_capital = 2
rung Stage.normal_capital = 3
rung Stage.capped_production = 4

abbrev pub stage_at : ℕ → Stage
stage_at n =
    if n == 0
    then Stage.paper_live
    else if n == 1
    then Stage.micro_capital
    else if n == 2
    then Stage.small_capital
    else if n == 3
    then Stage.normal_capital
    else Stage.capped_production

pub data StageAction : Type 0 where
  promote : StageAction
  hold : StageAction
  demote : StageAction
  kill : StageAction
  retired : StageAction

pub data StageReason : Type 0 where
  already_retired : StageReason
  stress_drawdown : StageReason
  edge_lost : StageReason
  adverse_selection : StageReason
  execution_failure : StageReason
  kill_switch : StageReason
  edge_fading : StageReason
  slippage_doubled : StageReason
  drawdown_p90 : StageReason
  at_cap : StageReason
  earned : StageReason
  mixed : StageReason

pub record LivePerformance (A : Type 0) : Type 0 where
  pub edge_retention : A
  pub slippage_ratio : A
  pub live_dd : A
  pub expected_dd_p75 : A
  pub expected_dd_p90 : A
  pub stress_dd_p95 : A
  pub sample_size : ℕ
  pub min_sample : ℕ
  pub kill_switch_triggered : Bool
  pub adverse_selection : Bool
  pub execution_failure : Bool

pub record StageDecision (A : Type 0) : Type 0 where
  pub from_stage : Stage
  pub to_stage : Stage
  pub action : StageAction
  pub reason : List StageReason
  pub capital_fraction : A

abbrev reason_if : Bool → StageReason → List StageReason
reason_if b r = if b then r ∷ [] else []

abbrev pub is_empty {ℓ} : {A : Type ℓ} → List A → Bool
is_empty [] = true
is_empty (_ ∷ _) = false

-- The stage, the action and the reason that the branches of `evaluate_stage` put in the decision.
abbrev Verdict : Type 0
Verdict = Stage × StageAction × List StageReason

abbrev promotion : Stage → Verdict
promotion current =
    let to = stage_at (if ltb 4 (suc (rung current)) then 4 else suc (rung current)) in
    if rung to == rung current
    then (current, StageAction.hold, StageReason.at_cap ∷ [])
    else (to, StageAction.promote, StageReason.earned ∷ [])

abbrev judged : Stage → List StageReason → List StageReason → Bool → Verdict
judged current kills dem earns_it =
    if not (is_empty kills)
    then (Stage.dead, StageAction.kill, kills)
    else if not (is_empty dem)
    then (stage_at (rung current - 1), StageAction.demote, dem)
    else if earns_it
    then promotion current
    else (current, StageAction.hold, StageReason.mixed ∷ [])

judged-rung :
    (s : Stage) (kills dem : List StageReason) (e : Bool)
    → rung ((judged s kills dem e).0)
      ≤ rung s + (if is_empty kills && is_empty dem && e then 1 else 0)
judged-rung s kills dem e = ground arith

module _ {A : Type 0} ⦃F : Float A⦄ where
  abbrev pub stage_capital : Stage → A
  stage_capital Stage.dead = F.lit 0 0
  stage_capital Stage.paper_live = F.lit 0 0
  stage_capital Stage.micro_capital = F.lit 1 2
  stage_capital Stage.small_capital = F.lit 3 2
  stage_capital Stage.normal_capital = F.lit 8 2
  stage_capital Stage.capped_production = F.lit 20 2

  -- The lists `kills` and `dem`, and the test of PROMOTE.
  abbrev pub kill_reasons : LivePerformance A → List StageReason
  kill_reasons perf =
      reason_if (lt perf.stress_dd_p95 perf.live_dd) StageReason.stress_drawdown
      ++ reason_if (lt perf.edge_retention (F.lit 25 2)) StageReason.edge_lost
      ++ reason_if perf.adverse_selection StageReason.adverse_selection
      ++ reason_if perf.execution_failure StageReason.execution_failure
      ++ reason_if perf.kill_switch_triggered StageReason.kill_switch

  abbrev pub demote_reasons : LivePerformance A → List StageReason
  demote_reasons perf =
      reason_if (lt perf.edge_retention (F.lit 50 2)) StageReason.edge_fading
      ++ reason_if (lt (F.lit 20 1) perf.slippage_ratio) StageReason.slippage_doubled
      ++ reason_if (lt perf.expected_dd_p90 perf.live_dd) StageReason.drawdown_p90

  abbrev pub earns : LivePerformance A → Bool
  earns perf =
      le (F.lit 70 2) perf.edge_retention
      && le perf.slippage_ratio (F.lit 15 1)
      && le perf.live_dd perf.expected_dd_p75
      && leb perf.min_sample perf.sample_size

  -- `StageDecision(current, to, action, reason, STAGE_CAPITAL[to])`
  abbrev decision : Stage → Verdict → StageDecision A
  decision current (to, action, reason) = record {
    from_stage = current;
    to_stage = to;
    action = action;
    reason = reason;
    capital_fraction = stage_capital to;
  }

  -- The part of `evaluate_stage` below the early return for a DEAD strategy.
  abbrev evaluate_live : Stage → LivePerformance A → StageDecision A
  evaluate_live current perf =
      decision current (judged current (kill_reasons perf) (demote_reasons perf) (earns perf))

  unfoldable pub evaluate_stage : Stage → LivePerformance A → StageDecision A
  evaluate_stage Stage.dead perf =
      decision Stage.dead (Stage.dead, StageAction.retired, StageReason.already_retired ∷ [])
  evaluate_stage Stage.paper_live perf = evaluate_live Stage.paper_live perf
  evaluate_stage Stage.micro_capital perf = evaluate_live Stage.micro_capital perf
  evaluate_stage Stage.small_capital perf = evaluate_live Stage.small_capital perf
  evaluate_stage Stage.normal_capital perf = evaluate_live Stage.normal_capital perf
  evaluate_stage Stage.capped_production perf = evaluate_live Stage.capped_production perf

  -- A strategy's stage after a list of evaluations, each from the stage the last one gave.
  abbrev pub lifecycle : Stage → List (LivePerformance A) → Stage
  lifecycle s [] = s
  lifecycle s (p ∷ ps) = lifecycle ((evaluate_stage s p).to_stage) ps

  -- How many evaluations met every criterion of a promotion, and none that kills or demotes.
  abbrev pub earning : LivePerformance A → Bool
  earning p = is_empty (kill_reasons p) && is_empty (demote_reasons p) && earns p

  evaluate-rung :
      (s : Stage) (p : LivePerformance A)
      → rung ((evaluate_stage s p).to_stage) ≤ rung s + (if earning p then 1 else 0)
  unfolding evaluate_stage
  evaluate-rung Stage.dead p = omega arith
  evaluate-rung Stage.paper_live p =
      judged-rung Stage.paper_live (kill_reasons p) (demote_reasons p) (earns p)
  evaluate-rung Stage.micro_capital p =
      judged-rung Stage.micro_capital (kill_reasons p) (demote_reasons p) (earns p)
  evaluate-rung Stage.small_capital p =
      judged-rung Stage.small_capital (kill_reasons p) (demote_reasons p) (earns p)
  evaluate-rung Stage.normal_capital p =
      judged-rung Stage.normal_capital (kill_reasons p) (demote_reasons p) (earns p)
  evaluate-rung Stage.capped_production p =
      judged-rung Stage.capped_production (kill_reasons p) (demote_reasons p) (earns p)

  -- After any list of evaluations a strategy stands at most as many rungs above its start as there
  -- are evaluations that met every criterion of a promotion and none of a kill or a demotion.
  pub lifecycle-earned :
      (s : Stage) (ps : List (LivePerformance A))
      → rung (lifecycle s ps) ≤ rung s + length (keep earning ps)
  lifecycle-earned s [] = omega arith
  lifecycle-earned s (p ∷ ps) =
      ground (arith, evaluate-rung s p, lifecycle-earned ((evaluate_stage s p).to_stage) ps)

  -- A killed strategy stays retired: from DEAD every list of evaluations ends in DEAD with no capital.
  pub lifecycle_dead : (ps : List (LivePerformance A)) → lifecycle Stage.dead ps ≡ Stage.dead
  unfolding evaluate_stage
  lifecycle_dead [] = refl
  lifecycle_dead (p ∷ ps) = lifecycle_dead ps
