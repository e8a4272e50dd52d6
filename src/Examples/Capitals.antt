-- ===== src/Examples/Capitals.antt =====
-- Runs of the gates that give capital.
use treasuryforge.Base.{ℕ, ◌*◌, Bool, true, Option, List, [], ◌∷◌}
use treasuryforge.Base.Int.{ℤ, pos}
use treasuryforge.Base.Float.{◌+◌ as ◌⊞◌}
use treasuryforge.Base.Dict.{Dict}
use treasuryforge.Risk.Stages.{Stage}
use treasuryforge.Capital.Gate.{DeploymentGate, TrackRecord}

-- n / 100
abbrev cents : ℕ → ℤ
cents n = pos (n * 10000000)

-- A ratio that every record has.
abbrev ratio : List ℤ → Option (List ℤ) → ℤ
ratio returns trials = cents 80

abbrev gate : DeploymentGate ℤ
gate = record {
  min_dsr = cents 60;
  min_net_apr = cents 5;
  min_intervals = 2;
  min_days = cents 1400;
  tier = Stage.micro_capital;
}

abbrev track : TrackRecord ℤ
track = record { returns = cents 2 ∷ cents 3 ∷ []; ts = 0 ∷ 2592000 ∷ [] }

abbrev records : Dict (TrackRecord ℤ)
records = ("carry", track) ∷ ("pairs", record { returns = []; ts = [] }) ∷ []

abbrev committee : TrackRecord ℤ → Bool
committee t = true
