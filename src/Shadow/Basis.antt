-- ===== src/Shadow/Basis.antt =====
-- treasuryforge/shadow_basis.py and the signal of treasuryforge/signals/basis.py: the paper book of
-- the spot-against-perpetual basis, and its replay from the journal.
use treasuryforge.Base.{
  ℕ, suc, Bool, true, false, not, Option, none, some, List, [], ◌∷◌, ◌++◌, String, if◌then◌else◌,
}
use mathlib.Core.Option
use treasuryforge.Base.Float.{Float, ◌+◌ as ◌⊞◌, ◌-◌ as ◌⊟◌, ◌*◌ as ◌⊠◌, ◌/◌ as ◌⊘◌, le, lt, whole}
use treasuryforge.Journal.{Journal, append_event}

pub data BasisAction : Type 0 where
  enter hold exit flat : BasisAction

pub record BasisParams (A : Type 0) : Type 0 where
  pub enter_premium : A
  pub exit_premium : A
  pub fee_per_leg : A
  pub legs_round_trip : ℕ

pub record BasisSignal (A : Type 0) : Type 0 where
  pub params : BasisParams A
  pub in_position : Bool

-- An interval in the ledger, which may hold events of other kinds.
pub record BasisInterval (A : Type 0) : Type 0 where
  pub ts : ℕ
  pub action : BasisAction
  pub funding : A
  pub premium : A
  pub r : A

pub data BasisEvent (A : Type 0) : Type 0 where
  basis : BasisInterval A → BasisEvent A
  other : String → BasisEvent A

-- The fields of `BasisBook` but its journal.
pub record BasisTrack (A : Type 0) : Type 0 where
  pub signal : BasisSignal A
  pub equity : A
  pub returns : List A
  pub realized_funding : A
  pub realized_convergence : A
  pub total_costs : A
  pub n_entries : ℕ
  pub n_exits : ℕ
  pub n_hold : ℕ
  pub prev_premium : A

pub record BasisBook (A : Type 0) : Type 0 where
  pub track : BasisTrack A
  pub journal : Option (Journal (BasisEvent A) (BasisTrack A))

pub record BasisObservation (A : Type 0) : Type 0 where
  pub funding_rate : A
  pub premium : A
  pub ts : ℕ
  pub allow_entry : Bool

abbrev pub holds_position : BasisAction → Bool
holds_position enter = true
holds_position hold = true
holds_position exit = false
holds_position flat = false

module _ {A : Type 0} ⦃F : Float A⦄ where
  -- `none` is the ValueError of `__post_init__`.
  unfoldable pub new_params : A → A → A → ℕ → Option (BasisParams A)
  new_params enter_premium exit_premium fee_per_leg legs =
      if lt enter_premium exit_premium
      then none
      else some (record {
        enter_premium = enter_premium;
        exit_premium = exit_premium;
        fee_per_leg = fee_per_leg;
        legs_round_trip = legs;
      })

  abbrev pub round_trip_cost : BasisParams A → A
  round_trip_cost p = whole p.legs_round_trip ⊠ p.fee_per_leg

  abbrev pub entry_cost : BasisParams A → A
  entry_cost p = (whole p.legs_round_trip ⊘ whole 2) ⊠ p.fee_per_leg

  abbrev pub exit_cost : BasisParams A → A
  exit_cost p = (whole p.legs_round_trip ⊘ whole 2) ⊠ p.fee_per_leg

  abbrev pub premium_from_marks : A → A → A
  premium_from_marks mark oracle = if lt (whole 0) oracle then (mark ⊟ oracle) ⊘ oracle else whole 0

  unfoldable pub decide : A → BasisSignal A → BasisAction × BasisSignal A
  decide premium s =
      if not s.in_position
      then (if le s.params.enter_premium premium
          then (enter, record s { in_position = true })
          else (flat, s))
      else (if le premium s.params.exit_premium
          then (exit, record s { in_position = false })
          else (hold, s))

  abbrev pub vetoed : Bool → BasisAction × BasisSignal A → BasisAction × BasisSignal A
  vetoed allowed (enter, s) =
      if allowed then (enter, s) else (flat, record s { in_position = false })
  vetoed allowed (a, s) = (a, s)

  -- `_record`
  abbrev pub counted : BasisAction → A → A → BasisTrack A → BasisTrack A
  counted enter rate convergence t = record t {
    n_entries = suc t.n_entries;
    total_costs = t.total_costs ⊞ entry_cost t.signal.params;
  }
  counted hold rate convergence t = record t {
    n_hold = suc t.n_hold;
    realized_funding = t.realized_funding ⊞ rate;
    realized_convergence = t.realized_convergence ⊞ convergence;
  }
  counted exit rate convergence t = record t {
    n_exits = suc t.n_exits;
    total_costs = t.total_costs ⊞ exit_cost t.signal.params;
  }
  counted flat rate convergence t = t

  unfoldable pub record_interval : BasisAction → A → A → A → BasisTrack A → BasisTrack A
  record_interval a rate convergence r t =
      let u = counted a rate convergence t in
      record u { equity = u.equity ⊠ (whole 1 ⊞ r); returns = u.returns ++ r ∷ [] }

  -- The return of an interval, its convergence, and the premium to measure the next one by.
  abbrev pub priced : BasisParams A → BasisAction → A → A → A → A × A × A
  priced p enter rate premium prev = (F.negate (entry_cost p), whole 0, premium)
  priced p hold rate premium prev = (rate ⊞ (prev ⊟ premium), prev ⊟ premium, premium)
  priced p exit rate premium prev = (F.negate (exit_cost p), whole 0, prev)
  priced p flat rate premium prev = (whole 0, whole 0, prev)

  abbrev pub stepped :
      BasisObservation A → BasisAction × BasisSignal A → BasisTrack A → A × BasisTrack A
  stepped o (a, s) t =
      let (r, convergence, prev) = priced s.params a o.funding_rate o.premium t.prev_premium in
      (
        r,
        record_interval a o.funding_rate convergence r
            (record t { signal = s; prev_premium = prev }),
      )

  unfoldable pub observe : BasisObservation A → BasisBook A → BasisAction × BasisBook A
  observe o b =
      let x = vetoed o.allow_entry (decide o.premium b.track.signal) in
      let (r, t) = stepped o x b.track in
      let i : BasisInterval A = record {
        ts = o.ts;
        action = x.0;
        funding = o.funding_rate;
        premium = o.premium;
        r = r;
      } in
      (x.0, record { track = t; journal = Option.map (append_event (basis i)) b.journal })

  unfoldable pub observe_all : List (BasisObservation A) → BasisBook A → BasisBook A
  observe_all [] b = b
  observe_all (o ∷ os) b = observe_all os (observe o b).1

  abbrev pub stored_convergence : BasisAction → A → A → A
  stored_convergence hold r rate = r ⊟ rate
  stored_convergence _ r rate = whole 0

  -- `_apply_stored`
  unfoldable pub apply_stored : BasisAction → A → A → A → BasisTrack A → BasisTrack A
  apply_stored a rate premium r t =
      let u = record_interval a rate (stored_convergence a r rate) r t in
      let holds = holds_position a in
      record u {
        signal = record (u.signal) { in_position = holds };
        prev_premium = if holds then premium else u.prev_premium;
      }

  abbrev pub replay_event : BasisEvent A → BasisTrack A → BasisTrack A
  replay_event (other kind) t = t
  replay_event (basis i) t = apply_stored i.action i.funding i.premium i.r t

  unfoldable pub replay : List (BasisEvent A) → BasisTrack A → BasisTrack A
  replay [] t = t
  replay (e ∷ es) t = replay es (replay_event e t)

  abbrev pub new_track : BasisSignal A → BasisTrack A
  new_track s = record {
    signal = s;
    equity = whole 1;
    returns = [];
    realized_funding = whole 0;
    realized_convergence = whole 0;
    total_costs = whole 0;
    n_entries = 0;
    n_exits = 0;
    n_hold = 0;
    prev_premium = whole 0;
  }

  abbrev pub replayed : Option (Journal (BasisEvent A) (BasisTrack A)) → BasisTrack A → BasisTrack A
  replayed none t = t
  replayed (some j) t = replay j.ledger t

  -- `BasisBook(signal, journal)` with the replay of `__post_init__`.
  unfoldable pub new_book :
      BasisSignal A → Option (Journal (BasisEvent A) (BasisTrack A)) → BasisBook A
  new_book s j = record { track = replayed j (new_track s); journal = j }
