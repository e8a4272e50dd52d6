-- ===== src/Shadow.antt =====
-- treasuryforge/shadow.py and the signal of treasuryforge/signals/funding.py: the paper book that
-- collects a track record from live funding rates, and its replay from the journal.
pub mod Replay
pub mod Scalp
pub mod Basis
pub mod Reopened
use treasuryforge.Base.{
  ℕ, zero, suc, ◌+◌, ◌-◌, ◌*◌, ◌≤◌, ◌<◌, ◌≡◌, ◌≢◌, refl, sym, subst, ap, ◌∙◌, ◌↔◌, ◌⊎◌, inl, inr,
  Bool, true, false, not, ◌&&◌, ◌||◌, Option, none, some, List, [], ◌∷◌, ◌++◌, map, String, str_eq,
  eq_iff, eq_refl, arith, if◌then◌else◌, ltb, leb, ◌==◌, Bool-cases, Option-cases, is_some, length,
  length-append, all, any, keep, All, All-append, contains, take,
}
use treasuryforge.Base.Float.{Float, ◌+◌ as ◌⊞◌, ◌-◌ as ◌⊟◌, ◌*◌ as ◌⊠◌, ◌/◌ as ◌⊘◌, le, lt, whole}
use treasuryforge.Journal.{Journal, append_event}
use mathlib.Core.Option

pub data Action : Type 0 where
  enter hold exit flat : Action

pub record FundingCarryParams (A : Type 0) : Type 0 where
  pub enter_rate : A
  pub exit_rate : A
  pub fee_per_leg : A
  pub legs_round_trip : ℕ

pub record FundingCarrySignal (A : Type 0) : Type 0 where
  pub params : FundingCarryParams A
  pub min_age : ℕ
  pub in_position : Bool
  pub age : ℕ

-- The event of an interval in the ledger, which may hold events of other kinds.
pub record Interval (A : Type 0) : Type 0 where
  pub ts : ℕ
  pub action : Action
  pub funding : A
  pub r : A
  pub age : ℕ

pub data ShadowEvent (A : Type 0) : Type 0 where
  shadow : Interval A → ShadowEvent A
  other : String → ShadowEvent A

-- The fields of `ShadowBook` but its journal.
pub record Track (A : Type 0) : Type 0 where
  pub signal : FundingCarrySignal A
  pub equity : A
  pub returns : List A
  pub realized_funding : A
  pub total_costs : A
  pub n_entries : ℕ
  pub n_exits : ℕ
  pub n_hold : ℕ

pub record ShadowBook (A : Type 0) : Type 0 where
  pub track : Track A
  pub journal : Option (Journal (ShadowEvent A) (Track A))

-- What `observe` is given.
pub record Observation (A : Type 0) : Type 0 where
  pub funding_rate : A
  pub ts : ℕ
  pub allow_entry : Bool

abbrev pub at_least_one : ℕ → ℕ
at_least_one n = if ltb n 1 then 1 else n

-- `action in (ENTER, HOLD)`
abbrev pub holds_position : Action → Bool
holds_position enter = true
holds_position hold = true
holds_position exit = false
holds_position flat = false

module _ {A : Type 0} ⦃F : Float A⦄ where
  -- `__post_init__`: `none` is its ValueError.
  unfoldable pub new_params : A → A → A → ℕ → Option (FundingCarryParams A)
  new_params enter_rate exit_rate fee_per_leg legs =
      if lt enter_rate exit_rate
      then none
      else some (record {
        enter_rate = enter_rate;
        exit_rate = exit_rate;
        fee_per_leg = fee_per_leg;
        legs_round_trip = legs;
      })

  abbrev pub round_trip_cost : FundingCarryParams A → A
  round_trip_cost p = whole p.legs_round_trip ⊠ p.fee_per_leg

  abbrev pub entry_cost : FundingCarryParams A → A
  entry_cost p = (whole p.legs_round_trip ⊘ whole 2) ⊠ p.fee_per_leg

  abbrev pub exit_cost : FundingCarryParams A → A
  exit_cost p = (whole p.legs_round_trip ⊘ whole 2) ⊠ p.fee_per_leg

  -- `none` is infinity.
  abbrev pub breakeven_intervals : FundingCarryParams A → Option A
  breakeven_intervals p =
      if le p.enter_rate (whole 0) then none else some (round_trip_cost p ⊘ p.enter_rate)

  abbrev pub expected_net_carry : FundingCarrySignal A → A → ℕ → A
  expected_net_carry s rate intervals = (rate ⊠ whole intervals) ⊟ round_trip_cost s.params

  abbrev pub next_age : FundingCarryParams A → A → ℕ → ℕ
  next_age p rate age =
      if age == 0
      then (if le p.enter_rate rate then 1 else age)
      else (if lt rate p.exit_rate then 0 else age + 1)

  unfoldable pub advance_age : A → FundingCarrySignal A → FundingCarrySignal A
  advance_age rate s = record s { age = next_age s.params rate s.age }

  abbrev pub decide_aged : FundingCarrySignal A → Action × FundingCarrySignal A
  decide_aged s =
      if s.in_position
      then (if s.age == 0 then (exit, record s { in_position = false }) else (hold, s))
      else (if leb (at_least_one s.min_age) s.age
          then (enter, record s { in_position = true })
          else (flat, s))

  unfoldable pub decide : A → FundingCarrySignal A → Action × FundingCarrySignal A
  decide rate s = decide_aged (advance_age rate s)

  abbrev pub return_for : FundingCarryParams A → Action → A → A
  return_for p enter rate = F.negate (entry_cost p)
  return_for p hold rate = rate
  return_for p exit rate = F.negate (exit_cost p)
  return_for p flat rate = whole 0

  -- What `_apply` counts of an action.
  abbrev pub counted : Action → A → Track A → Track A
  counted enter rate t = record t {
    n_entries = suc t.n_entries;
    total_costs = t.total_costs ⊞ entry_cost t.signal.params;
  }
  counted hold rate t = record t {
    n_hold = suc t.n_hold;
    realized_funding = t.realized_funding ⊞ rate;
  }
  counted exit rate t = record t {
    n_exits = suc t.n_exits;
    total_costs = t.total_costs ⊞ exit_cost t.signal.params;
  }
  counted flat rate t = t

  -- `_apply` without its last lines, the event.
  unfoldable pub apply : Action → A → A → Track A → Track A
  apply action rate r t =
      counted action rate
        (record t { equity = t.equity ⊠ (whole 1 ⊞ r); returns = t.returns ++ r ∷ [] })

  -- An entry that the cost gate vetoes becomes flat.
  abbrev pub vetoed : Bool → Action × FundingCarrySignal A → Action × FundingCarrySignal A
  vetoed allowed (enter, s) =
      if allowed then (enter, s) else (flat, record s { in_position = false })
  vetoed allowed (a, s) = (a, s)

  abbrev pub interval_of : Observation A → Action → FundingCarrySignal A → Interval A
  interval_of o a s = record {
    ts = o.ts;
    action = a;
    funding = o.funding_rate;
    r = return_for s.params a o.funding_rate;
    age = s.age;
  }

  unfoldable pub observe : Observation A → ShadowBook A → Action × ShadowBook A
  observe o b =
      let (a, s) = vetoed o.allow_entry (decide o.funding_rate b.track.signal) in
      let i = interval_of o a s in
      (
        a,
        record {
          track = apply a o.funding_rate i.r (record (b.track) { signal = s });
          journal = Option.map (append_event (shadow i)) b.journal;
        },
      )

  unfoldable pub observe_all : List (Observation A) → ShadowBook A → ShadowBook A
  observe_all [] b = b
  observe_all (o ∷ os) b = observe_all os (observe o b).1

  -- One event of the replay: the signal takes the position and the age that it had.
  unfoldable pub replay_event : ShadowEvent A → Track A → Track A
  replay_event (other kind) t = t
  replay_event (shadow i) t =
      let u = apply i.action i.funding i.r t in
      record u { signal = record (u.signal) { in_position = holds_position i.action; age = i.age } }

  unfoldable pub replay : List (ShadowEvent A) → Track A → Track A
  replay [] t = t
  replay (e ∷ es) t = replay es (replay_event e t)

  abbrev pub new_track : FundingCarrySignal A → Track A
  new_track s = record {
    signal = s;
    equity = whole 1;
    returns = [];
    realized_funding = whole 0;
    total_costs = whole 0;
    n_entries = 0;
    n_exits = 0;
    n_hold = 0;
  }

  abbrev pub replayed : Option (Journal (ShadowEvent A) (Track A)) → Track A → Track A
  replayed none t = t
  replayed (some j) t = replay j.ledger t

  -- `ShadowBook(signal, journal)` with the replay of `__post_init__`.
  unfoldable pub new_book :
      FundingCarrySignal A → Option (Journal (ShadowEvent A) (Track A)) → ShadowBook A
  new_book s j = record { track = replayed j (new_track s); journal = j }
