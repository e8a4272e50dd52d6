-- ===== src/Service/Exits.antt =====
-- How `Service.run` (treasuryforge/service.py) ends, and what it tells the fail-safe.
use treasuryforge.Base.{◌≡◌, ◌⊎◌, List, [], ◌∷◌, ◌++◌}
use treasuryforge.Base.Float.{Float}
use treasuryforge.Base.Result.{Result, ok, err}
use treasuryforge.Safety.Preflight.{Check}
use treasuryforge.Live.{StepError}
use treasuryforge.Service.{
  ServiceExit, HaltReason, preflight, switch_tripped, unexpected, unexpected_halt, RunError,
  recovery_raised, halt_raised, Service,
}

-- What the fail-safe was told by a run that ended so, and that it returned where the run did.
abbrev pub Told : {A : Type 0} → Result RunError ServiceExit → List (HaltReason A) → Type 0
Told (ok ServiceExit.finished) calls = calls ≡ []
Told {A = A} (ok ServiceExit.safe_halted) calls = (cs : List Check) × (calls ≡ preflight cs ∷ [])
Told (ok ServiceExit.dead_man) calls = calls ≡ switch_tripped ∷ []
Told {A = A} (ok ServiceExit.error) calls =
    ((e : StepError A) × (calls ≡ unexpected e ∷ []))
    ⊎ (calls ≡ switch_tripped ∷ unexpected_halt ∷ [])
Told (err (recovery_raised e)) calls = calls ≡ []
Told {A = A} (err halt_raised) calls =
    ((r : HaltReason A) × (calls ≡ r ∷ [])) ⊎ (calls ≡ switch_tripped ∷ unexpected_halt ∷ [])

-- From `s` on, the fail-safe has been told as the end demands.
abbrev pub Ends :
    {A S W X : Type 0} → Service A S W X → Result RunError ServiceExit × Service A S W X → Type 0
Ends {A = A} s (end, s') =
    (calls : List (HaltReason A)) × (s'.halts ≡ s.halts ++ calls) × Told end calls
