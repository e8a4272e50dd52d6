-- ===== src/Safety/Staleness.antt =====
-- treasuryforge/staleness.py: the gate that refuses old data and a clock that has jumped. Clock
-- readings are nanoseconds since an epoch; the two clocks of `check_now` are arguments of `check`.
use treasuryforge.Base.{
  ℕ, ◌+◌, ◌≤◌, ◌≡◌, refl, ◌↔◌, inl, inr, Bool, true, false, Option, none, some, arith,
  if◌then◌else◌, ltb, leb, Option-cases,
}
use treasuryforge.Base.Int.{ℤ, pos, pos_part, neg_part, sub_ℕ, ltb_ℤ, ◌-ℤ◌}

-- The reasons of a verdict, with the numbers that each message prints.
pub data GateReason : Type 0 where
  fresh no_data : GateReason
  future : ℤ → GateReason
  stale : ℤ → ℕ → GateReason
  backward : ℤ → GateReason
  clock_drift : ℕ → ℕ → GateReason

pub record GateVerdict : Type 0 where
  pub ok : Bool
  pub reason : GateReason
  pub data_age_ns : Option ℤ

pub record StalenessGate : Type 0 where
  pub max_data_age_ns : ℕ
  pub max_clock_drift_ns : ℕ
  pub last_data_ns : Option ℕ
  pub prev_wall_ns : Option ℕ
  pub prev_mono_ns : Option ℕ

-- `__post_init__`: `none` is the ValueError.
unfoldable pub make_gate : ℕ → ℕ → Option StalenessGate
make_gate max_age max_drift =
    if leb max_age 0
    then none
    else some (record {
      max_data_age_ns = max_age;
      max_clock_drift_ns = max_drift;
      last_data_ns = none;
      prev_wall_ns = none;
      prev_mono_ns = none;
    })

unfoldable pub observe_data : ℕ → StalenessGate → StalenessGate
observe_data wall g = record g { last_data_ns = some wall }

abbrev halt : GateReason → GateVerdict
halt r = record { ok = false; reason = r; data_age_ns = none }

-- `abs` on integers
abbrev abs : ℤ → ℕ
abs d = pos_part d + neg_part d

-- `_clock_verdict`, on the two earlier readings; `none` is a clock that can be trusted.
unfoldable pub clock_verdict : ℕ → Option ℕ → Option ℕ → ℕ → ℕ → Option GateVerdict
clock_verdict max_drift (some prev_wall) (some prev_mono) wall mono =
    let d_wall = sub_ℕ wall prev_wall in
    let apart = abs (d_wall -ℤ sub_ℕ mono prev_mono) in
    if ltb_ℤ d_wall (pos 0)
    then some (halt (GateReason.backward d_wall))
    else if ltb max_drift apart
    then some (halt (GateReason.clock_drift apart max_drift))
    else none
clock_verdict max_drift _ _ wall mono = none

-- The freshness half of `check`.
unfoldable pub age_verdict : ℕ → Option ℕ → ℕ → GateVerdict
age_verdict max_age none wall = halt GateReason.no_data
age_verdict max_age (some last) wall =
    let age = sub_ℕ wall last in
    if ltb_ℤ age (pos 0)
    then record { ok = false; reason = GateReason.future age; data_age_ns = some age }
    else if ltb_ℤ (pos max_age) age
    then record { ok = false; reason = GateReason.stale age max_age; data_age_ns = some age }
    else record { ok = true; reason = GateReason.fresh; data_age_ns = some age }

unfoldable pub check : ℕ → ℕ → StalenessGate → GateVerdict × StalenessGate
check wall mono g =
    let g' = record g { prev_wall_ns = some wall; prev_mono_ns = some mono } in
    elim (clock_verdict g.max_clock_drift_ns g.prev_wall_ns g.prev_mono_ns wall mono) [
      | some v ↦ (v, g')
      | none ↦ (age_verdict g.max_data_age_ns g.last_data_ns wall, g')
    ]

-- The wall clock has not gone back, and since the last check the two clocks have advanced by
-- amounts that differ by at most `drift`.
abbrev pub ClockSane : ℕ → Option ℕ → Option ℕ → ℕ → ℕ → Type 0
ClockSane drift (some prev_wall) (some prev_mono) wall mono =
    (prev_wall ≤ wall)
    × (wall + prev_mono ≤ mono + prev_wall + drift)
    × (mono + prev_wall ≤ wall + prev_mono + drift)
ClockSane drift _ _ wall mono = Unit

-- Data has been seen, not in the future, and within its budget of age.
abbrev pub DataFresh : ℕ → Option ℕ → ℕ → Type 0
DataFresh budget none wall = ⊥
DataFresh budget (some last) wall = (last ≤ wall) × (wall ≤ last + budget)

clock_verdict-sane :
    (drift : ℕ) (pw pm : Option ℕ) (wall mono : ℕ)
    → (clock_verdict drift pw pm wall mono ≡ none) ↔ ClockSane drift pw pm wall mono
unfolding clock_verdict ◌-ℤ◌
clock_verdict-sane drift (some a) (some b) wall mono = ground arith
clock_verdict-sane drift (some a) none wall mono = ((λ _. tt), (λ _. refl))
clock_verdict-sane drift none pm wall mono = ((λ _. tt), (λ _. refl))

clock_verdict_halts :
    (drift : ℕ) (pw pm : Option ℕ) (wall mono : ℕ) (v : GateVerdict)
    → clock_verdict drift pw pm wall mono ≡ some v
    → v.ok ≡ false
unfolding clock_verdict
clock_verdict_halts drift (some a) (some b) wall mono v h = ground arith
clock_verdict_halts drift (some a) none wall mono v h = cc
clock_verdict_halts drift none pm wall mono v h = cc

age_verdict-fresh :
    (budget : ℕ) (last : Option ℕ) (wall : ℕ)
    → ((age_verdict budget last wall).ok ≡ true) ↔ DataFresh budget last wall
unfolding age_verdict
age_verdict-fresh budget none wall = ((λ h. cc), (λ h. absurd h))
age_verdict-fresh budget (some last) wall = ground arith

-- The gate opens exactly when the clock is sane against the last check and the data is fresh; and on
-- every branch it remembers this check's two readings and keeps all else.
pub check_lem :
    (g : StalenessGate) (wall mono : ℕ)
    → (((check wall mono g).0.ok ≡ true)
        ↔ ClockSane g.max_clock_drift_ns g.prev_wall_ns g.prev_mono_ns wall mono
          × DataFresh g.max_data_age_ns g.last_data_ns wall)
      × ((check wall mono g).1 ≡ record g { prev_wall_ns = some wall; prev_mono_ns = some mono })
unfolding check
check_lem g wall mono =
    elim (Option-cases
      (clock_verdict g.max_clock_drift_ns g.prev_wall_ns g.prev_mono_ns wall mono)) [
        | inl e ↦ ground (
          arith,
          clock_verdict-sane g.max_clock_drift_ns g.prev_wall_ns g.prev_mono_ns wall mono,
          age_verdict-fresh g.max_data_age_ns g.last_data_ns wall,
        )
        | inr (v, e) ↦ ground (
          arith,
          clock_verdict-sane g.max_clock_drift_ns g.prev_wall_ns g.prev_mono_ns wall mono,
          clock_verdict_halts g.max_clock_drift_ns g.prev_wall_ns g.prev_mono_ns wall mono v e,
        )
      ]
