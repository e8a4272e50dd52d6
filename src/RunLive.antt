-- ===== src/RunLive.antt =====
-- treasuryforge/run_live.py: the launcher, over the environment as a dict.
use treasuryforge.Base.{ℕ, Bool, ◌||◌, Option, none, some, String, str_eq, if◌then◌else◌}
use treasuryforge.Base.Dict.{Dict, lookup, get_or}
use treasuryforge.Service.{ServiceExit, exit_code}

unfoldable pub parse_mode : Dict String → Option String
parse_mode env = elim (lookup "TF_MODE" env) [
  | none ↦ none
  | some mode ↦ if str_eq mode "paper" || str_eq mode "live" then some mode else none
]

unfoldable pub venue_wired : Dict String → Bool
venue_wired env =
    let venue = get_or "TF_VENUE" "" env in str_eq venue "bitso" || str_eq venue "hyperliquid"

-- `main`, without what it writes to the error stream.
unfoldable pub main : Dict String → ℕ
main env = elim (parse_mode env) [
  | none ↦ exit_code ServiceExit.safe_halted
  | some mode ↦
      if venue_wired env
      then exit_code ServiceExit.safe_halted
      else exit_code ServiceExit.safe_halted
]
