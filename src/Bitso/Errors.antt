-- ===== src/Bitso/Errors.antt =====
-- treasuryforge/exchanges/bitso/errors.py: what a reply means for the caller.
use treasuryforge.Base.{
  ℕ, ◌<◌, ◌≡◌, ◌≢◌, Bool, true, false, ◌||◌, Option, none, some, [], ◌∷◌, String, str_eq, arith,
  if◌then◌else◌, leb, ◌==◌,
}
use treasuryforge.Base.Dict.{Dict, lookup}

pub data Category : Type 0 where
  retryable_backoff indeterminate fatal_auth non_retryable submitted ok : Category

-- `_CODES`, without the messages.
abbrev pub codes : Dict Category
codes =
    ("0201", Category.fatal_auth)
    ∷ ("0202", Category.fatal_auth)
    ∷ ("0206", Category.indeterminate)
    ∷ ("0207", Category.indeterminate)
    ∷ ("0213", Category.fatal_auth)
    ∷ ("0215", Category.fatal_auth)
    ∷ ("0377", Category.submitted)
    ∷ ("0378", Category.submitted)
    ∷ ("0379", Category.non_retryable)
    ∷ []

-- `if code and code in _CODES`: no code and the empty one are not looked up.
unfoldable pub known_code : Option String → Option Category
known_code none = none
known_code (some code) = if str_eq code "" then none else lookup code codes

abbrev by_status : ℕ → Category
by_status status =
    if status == 200 || status == 201
    then Category.ok
    else if status == 401 || status == 403
    then Category.fatal_auth
    else Category.non_retryable

unfoldable pub classify : ℕ → Option String → Category
classify status code =
    if status == 420
    then Category.retryable_backoff
    else if leb 500 status || status == 0
    then Category.indeterminate
    else elim (known_code code) [ some category ↦ category | none ↦ by_status status ]

-- The categories by which an order is taken not to have landed.
abbrev pub definitely_not_landed : Category → Bool
definitely_not_landed Category.fatal_auth = true
definitely_not_landed Category.non_retryable = true
definitely_not_landed _ = false

-- A reply is read as "did not land" only if it is no rate limit, no server error and no timeout,
-- whatever code it carries; and those three are never read as a final answer.
pub classify_landed :
    (status : ℕ) (code : Option String)
    → definitely_not_landed (classify status code) ≡ true
    → (status ≢ 420) × (status ≢ 0) × (status < 500)
unfolding classify
classify_landed status code h = ground arith
