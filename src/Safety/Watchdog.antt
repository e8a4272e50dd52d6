-- ===== src/Safety/Watchdog.antt =====
-- treasuryforge/watchdog.py: the dead-man's switch. The heartbeat file is its content, `none` where
-- there is no file; it is replaced whole, as a checkpoint of treasuryforge/journal.py is. A write that
-- raises leaves it as it was, so that a beat or a reset that cannot write is one that does not happen.
use treasuryforge.Base.{
  ℕ, suc, ◌+◌, ◌≡◌, ◌↔◌, Bool, true, false, not, ◌||◌, Option, none, some, List, [], ◌∷◌, arith,
  if◌then◌else◌,
}
use treasuryforge.Base.Float.{Float, ◌-◌ as ◌⊟◌, le, lt, whole}
use treasuryforge.Base.Result.{Result, ok, err}

pub record Heartbeat (A : Type 0) : Type 0 where
  pub ts : A
  pub seq : ℕ
  pub tripped : Bool
  -- the silence and the timeout that the reason prints; `none` is the empty text
  pub reason : Option (A × A)

-- The switch: its file and its timeout, with the world `W` that `on_trip` acts on.
pub record DeadMansSwitch (A W : Type 0) : Type 0 where
  pub heartbeat : Option (Heartbeat A)
  pub timeout_s : A
  pub outside : W

-- The RuntimeError of `beat`, with the reason of the trip.
pub data IsTripped (A : Type 0) : Type 0 where
  is_tripped : Option (A × A) → IsTripped A

abbrev next_seq : {A : Type 0} → Option (Heartbeat A) → ℕ
next_seq none = 1
next_seq (some hb) = suc hb.seq

abbrev alive_at : {A : Type 0} → A → ℕ → Heartbeat A
alive_at now seq = record { ts = now; seq = seq; tripped = false; reason = none }

abbrev pub tripped_of : {A : Type 0} → Option (Heartbeat A) → Bool
tripped_of none = false
tripped_of (some hb) = hb.tripped

abbrev pub latched_by : {A : Type 0} → A × A → Heartbeat A → Heartbeat A
latched_by reason hb = record { ts = hb.ts; seq = hb.seq; tripped = true; reason = some reason }

-- What `supervise` raises: the exception of `on_trip`, or that of the write.
pub data SuperviseError : Type 0 where
  trip_raised write_raised : SuperviseError

module _ {A W : Type 0} where
  unfoldable pub beat :
      A → DeadMansSwitch A W → Result (IsTripped A) (Heartbeat A) × DeadMansSwitch A W
  beat now d =
      let hb = alive_at now (next_seq d.heartbeat) in
      elim d.heartbeat [
        | none ↦ (ok hb, record d { heartbeat = some hb })
        | some prev ↦
            if prev.tripped
            then (err (is_tripped prev.reason), d)
            else (ok hb, record d { heartbeat = some hb })
      ]

  unfoldable pub tripped : DeadMansSwitch A W → Bool
  tripped d = tripped_of d.heartbeat

  unfoldable pub reset : A → DeadMansSwitch A W → Heartbeat A × DeadMansSwitch A W
  reset now d =
      let hb = alive_at now (next_seq d.heartbeat) in (hb, record d { heartbeat = some hb })

module _ {A W : Type 0} ⦃F : Float A⦄ where
  -- `__init__`: `none` is the ValueError.
  unfoldable pub make_switch : Option (Heartbeat A) → A → W → Option (DeadMansSwitch A W)
  make_switch file timeout w =
      if le timeout (whole 0)
      then none
      else some (record { heartbeat = file; timeout_s = timeout; outside = w })

  unfoldable pub is_expired : A → DeadMansSwitch A W → Bool
  is_expired now d = elim d.heartbeat [ none ↦ false | some hb ↦ lt d.timeout_s (now ⊟ hb.ts) ]

  -- The fail-safe runs before the trip is written, and either may raise: `on_trip` says whether it
  -- returned, and `written` whether the write did.
  unfoldable pub supervise :
      A
      → (A × A → W → Bool × W)
      → Bool
      → DeadMansSwitch A W
      → Result SuperviseError Bool × DeadMansSwitch A W
  supervise now on_trip written d = elim d.heartbeat [
    | none ↦ (ok false, d)
    | some hb ↦
        let reason : A × A = (now ⊟ hb.ts, d.timeout_s) in
        let (returned, w) = on_trip reason d.outside in
        if hb.tripped || le (now ⊟ hb.ts) d.timeout_s
        then (ok false, d)
        else if not returned
        then (err trip_raised, record d { outside = w })
        else if not written
        then (err write_raised, record d { outside = w })
        else (ok true, record d { outside = w; heartbeat = some (latched_by reason hb) })
  ]

-- What happens to a switch between two resets; a supervision comes with whether its write returns.
pub data Watch (A : Type 0) : Type 0 where
  beats : A → Watch A
  supervises : A → Bool → Watch A

abbrev pub one_if_err : {E B : Type 0} → Result E B → ℕ
one_if_err (ok b) = 0
one_if_err (err e) = 1

module _ {A W : Type 0} ⦃F : Float A⦄ (on_trip : A × A → W → Bool × W) where
  -- `on_trip`, with a count of its calls.
  abbrev counting : A × A → W × ℕ → Bool × (W × ℕ)
  counting reason (w, n) = let (returned, w') = on_trip reason w in (returned, (w', suc n))

  -- The switch, and how many supervisions have raised.
  pub watch : Watch A → DeadMansSwitch A (W × ℕ) × ℕ → DeadMansSwitch A (W × ℕ) × ℕ
  watch (beats now) (d, raised) = ((beat now d).1, raised)
  watch (supervises now written) (d, raised) =
      let (r, d') = supervise now counting written d in (d', raised + one_if_err r)

  pub watch_all : List (Watch A) → DeadMansSwitch A (W × ℕ) × ℕ → DeadMansSwitch A (W × ℕ) × ℕ
  watch_all [] d = d
  watch_all (e ∷ es) d = watch_all es (watch e d)

  abbrev fired : Bool → ℕ
  fired true = 1
  fired false = 0

  -- Apart from the supervisions that raised, the fail-safe has fired as often as the switch has
  -- tripped: once it is latched, or never.
  abbrev Latched : ℕ → DeadMansSwitch A (W × ℕ) × ℕ → Type 0
  Latched n (d, raised) = d.outside.1 ≡ n + raised + fired (tripped d)

  -- A tripped switch and its fail-safe are left alone.
  abbrev pub Silent : DeadMansSwitch A (W × ℕ) × ℕ → DeadMansSwitch A (W × ℕ) × ℕ → Type 0
  Silent (d, raised) (d', raised') =
      (d'.heartbeat ≡ d.heartbeat) × (d'.outside ≡ d.outside) × (raised' ≡ raised)

  -- Silence beyond the timeout trips an untripped switch at the next supervision whose fail-safe and
  -- write return, and no other silence does.
  pub supervise-tripped :
      (d : DeadMansSwitch A (W × ℕ)) (now : A) (hb : Heartbeat A)
      → d.heartbeat ≡ some hb
      → (counting (now ⊟ hb.ts, d.timeout_s) d.outside).0 ≡ true
      → ((supervise now counting true d).0 ≡ ok true)
        ↔ ((hb.tripped ≡ false) × (le (now ⊟ hb.ts) d.timeout_s ≡ false))
  unfolding supervise
  supervise-tripped d now hb h returns = ground arith
