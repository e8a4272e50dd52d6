-- ===== src/Safety/Preflight.antt =====
-- treasuryforge/preflight.py: the startup checks. What the caller probes stands in the inputs, and so
-- does the outcome of writing the probe file of `_journal_writable`.
use treasuryforge.Base.{
  ◌<◌, ◌≡◌, refl, ◌↔◌, ◌⊎◌, inl, inr, Bool, true, false, not, ◌&&◌, ◌||◌, Option, none, some, List,
  [], ◌∷◌, String, str_eq, arith, if◌then◌else◌, ltb, Option-cases, is_some, length, all, keep,
}
use treasuryforge.Base.Float.{Float, le, lt, whole}
use treasuryforge.Policy.{PolicyConfig}

pub data StartupState : Type 0 where
  ready safe_halted : StartupState

pub record Check : Type 0 where
  pub name : String
  pub passed : Bool

pub record PreflightInputs (A : Type 0) : Type 0 where
  pub mode : Option String
  pub config : Option (PolicyConfig A)
  pub journal_dir : Option String
  -- the probe file could be written and removed
  pub writes : String → Bool
  pub has_credentials : Bool
  pub now_wall : A
  pub exchange_reachable : Bool
  pub data_age_s : Option A
  pub max_data_age_s : A
  pub clock_skew_s : Option A
  pub max_clock_skew_s : A
  pub min_sane_epoch : A

pub record PreflightReport : Type 0 where
  pub state : StartupState
  pub checks : List Check

abbrev pub is_ready : PreflightReport → Bool
is_ready r = elim r.state [ StartupState.ready ↦ true | StartupState.safe_halted ↦ false ]

abbrev pub failures : PreflightReport → List Check
failures r = keep (λ c. not c.passed) r.checks

abbrev pub mode_is : String → Option String → Bool
mode_is m none = false
mode_is m (some n) = str_eq n m

abbrev check : String → Bool → Check
check name b = record { name = name; passed = b }

-- `_journal_writable`: no directory and the empty one are refused unprobed.
abbrev pub journal_writable : Option String → (String → Bool) → Bool
journal_writable none writes = false
journal_writable (some path) writes = not (str_eq path "") && writes path

all-no_failures :
    (cs : List Check) → all (λ c. c.passed) cs ≡ true → keep (λ c. not c.passed) cs ≡ []
all-no_failures [] h = refl
all-no_failures (c ∷ cs) h = ground (arith, all-no_failures cs)

no_failures-all :
    (cs : List Check) → keep (λ c. not c.passed) cs ≡ [] → all (λ c. c.passed) cs ≡ true
no_failures-all [] h = refl
no_failures-all (c ∷ cs) h = ground (arith, no_failures-all cs)

module _ {A : Type 0} ⦃F : Float A⦄ where
  -- The checks that read the configuration; without one its attributes have their defaults.
  abbrev pub has_symbols : Option (PolicyConfig A) → Bool
  has_symbols none = false
  has_symbols (some c) = ltb 0 (length c.allowed_symbols)

  abbrev pub has_caps : Bool → Option (PolicyConfig A) → Bool
  has_caps live none = lt {A = A} (whole 0) (whole 0) && not live
  has_caps live (some c) =
      lt (whole 0) c.max_notional_per_tx && (not live || is_some c.max_notional_per_window)

  abbrev pub kill_clear : Option (PolicyConfig A) → Bool
  kill_clear none = true
  kill_clear (some c) = not c.kill_switch

  abbrev pub within : Option A → A → Bool
  within none budget = false
  within (some x) budget = le x budget

  abbrev pub skew_ok : Option A → A → Bool
  skew_ok none budget = false
  skew_ok (some x) budget = le (F.magnitude x) budget

  unfoldable pub run_checks : PreflightInputs A → List Check
  run_checks inp =
      let live = mode_is "live" inp.mode in
      check "mode_explicit" (mode_is "paper" inp.mode || live)
      ∷ check "config_loaded" (is_some inp.config)
      ∷ check "journal_writable" (journal_writable inp.journal_dir inp.writes)
      ∷ check "credentials_present" inp.has_credentials
      ∷ check "allowlist_active" (has_symbols inp.config)
      ∷ check "caps_loaded" (has_caps live inp.config)
      ∷ check "kill_switch_clear" (kill_clear inp.config)
      ∷ check "clock_sane" (le inp.min_sane_epoch inp.now_wall)
      ∷ check "data_feed_fresh" (within inp.data_age_s inp.max_data_age_s)
      ∷ (if live
          then check "clock_skew_bounded" (skew_ok inp.clock_skew_s inp.max_clock_skew_s)
            ∷ check "exchange_reachable" inp.exchange_reachable
            ∷ []
          else [])

  unfoldable pub run_preflight : PreflightInputs A → PreflightReport
  run_preflight inp =
      let checks = run_checks inp in
      record {
        state = if all (λ c. c.passed) checks then StartupState.ready else StartupState.safe_halted;
        checks = checks;
      }

  -- The operator's checklist. A live run also bounds the skew of the clock, reaches the exchange
  -- and has a spend budget.
  pub record IsClear (inp : PreflightInputs A) (c : PolicyConfig A) : Type 0 where
    pub explicit : (mode_is "paper" inp.mode ≡ true) ⊎ (mode_is "live" inp.mode ≡ true)
    pub loaded : inp.config ≡ some c
    pub writable : journal_writable inp.journal_dir inp.writes ≡ true
    pub credentials : inp.has_credentials ≡ true
    pub symbols : 0 < length c.allowed_symbols
    pub capped : lt (whole 0) c.max_notional_per_tx ≡ true
    pub killed : c.kill_switch ≡ false
    pub clock : le inp.min_sane_epoch inp.now_wall ≡ true
    pub feed : within inp.data_age_s inp.max_data_age_s ≡ true
    pub live_only :
        mode_is "live" inp.mode ≡ true
        → (skew_ok inp.clock_skew_s inp.max_clock_skew_s ≡ true)
          × (inp.exchange_reachable ≡ true)
          × (is_some c.max_notional_per_window ≡ true)

  all-ready :
      (inp : PreflightInputs A)
      → (is_ready (run_preflight inp) ≡ true) ↔ (all (λ c. c.passed) (run_checks inp) ≡ true)
  unfolding run_preflight
  all-ready inp = ground arith

  checks-IsClear :
      (inp : PreflightInputs A) (c : PolicyConfig A)
      → inp.config ≡ some c
      → (all (λ c. c.passed) (run_checks inp) ≡ true) ↔ IsClear inp c
  unfolding run_checks
  checks-IsClear inp c e = ground arith

  checks_unconfigured :
      (inp : PreflightInputs A) → inp.config ≡ none → all (λ c. c.passed) (run_checks inp) ≡ false
  unfolding run_checks
  checks_unconfigured inp e = ground arith

  some_config :
      (inp : PreflightInputs A)
      → all (λ c. c.passed) (run_checks inp) ≡ true
      → (c : PolicyConfig A) × IsClear inp c
  some_config inp h = elim (Option-cases inp.config) [
    | inl e ↦ cc (h, checks_unconfigured inp e)
    | inr (c, e) ↦ (c, (checks-IsClear inp c e).0 h)
  ]

  -- The startup state is READY exactly when a configuration is loaded with which every precondition
  -- of the checklist holds, and exactly when no check is reported as failed.
  pub run_preflight-IsClear :
      (inp : PreflightInputs A)
      → ((is_ready (run_preflight inp) ≡ true) ↔ ((c : PolicyConfig A) × IsClear inp c))
        × ((is_ready (run_preflight inp) ≡ true) ↔ (failures (run_preflight inp) ≡ []))
  unfolding run_preflight
  run_preflight-IsClear inp = (
    (
      (λ h. some_config inp ((all-ready inp).0 h)),
      (λ (c, v). (all-ready inp).1 ((checks-IsClear inp c v.loaded).1 v)),
    ),
    (
      (λ h. all-no_failures (run_checks inp) ((all-ready inp).0 h)),
      (λ h. (all-ready inp).1 (no_failures-all (run_checks inp) h)),
    ),
  )
