-- ===== src/Orders.antt =====
-- treasuryforge/orders.py: the idempotent order manager. A method is an action on the manager's
-- records, its journal and the venue; it returns or raises, and what it wrote stays written. A
-- record is an object that the dict shares, so each change of one is a change of the dict.
pub mod Recovery
pub mod Attempts
pub mod Crash
pub mod Accepted
pub mod Progress
pub mod VenueInvariant
use treasuryforge.Base.{
  ℕ, zero, suc, ◌-◌, ◌≡◌, Bool, true, false, Option, none, some, List, [], ◌∷◌, ◌++◌, String,
  str_eq, if◌then◌else◌, ltb, not, ◌&&◌, is_some,
}
use treasuryforge.Base.Dict.{Dict, lookup, get_or, insert}
use treasuryforge.Base.Result.{Result, ok, err}
use treasuryforge.Types.{Intent, Fill, Side}
use treasuryforge.Journal.{Journal, append_event, checkpoint}
use treasuryforge.Bitso.Errors.{Category, definitely_not_landed}

pub record OrderHandle : Type 0 where
  pub origin_id : String
  pub oid : Option String
  pub book : String
  pub side : Side

-- What an executor raises: a `BitsoError` with its text, or another exception.
pub data Raised : Type 0 where
  bitso_error : Category → String → Raised
  value_error : Raised

pub data Reconciled (A : Type 0) : Type 0 where
  filled : Fill A → Reconciled A
  unfilled : Reconciled A

-- `TwoPhaseExecutor`, over the state `W` of the venue.
pub record TwoPhaseExecutor (A W : Type 0) : Type 0 where
  pub place_order : Intent A → String → W → Result Raised OrderHandle × W
  pub reconcile : OrderHandle → String → W → Result Raised (Reconciled A) × W

pub data OrderState : Type 0 where
  placing submitted unknown resting filled rejected : OrderState

-- The texts of the enumeration.
abbrev pub state_value : OrderState → String
state_value OrderState.placing = "placing"
state_value OrderState.submitted = "submitted"
state_value OrderState.unknown = "unknown"
state_value OrderState.resting = "open"
state_value OrderState.filled = "filled"
state_value OrderState.rejected = "rejected"

abbrev pub is_terminal : OrderState → Bool
is_terminal OrderState.filled = true
is_terminal OrderState.rejected = true
is_terminal _ = false

pub record OrderRecord (A : Type 0) : Type 0 where
  pub origin_id : String
  pub state : OrderState
  pub symbol : String
  pub book : String
  pub side : Side
  pub oid : Option String
  pub attempts : ℕ
  pub reason : String
  pub fill : Option (Fill A)

-- `OrderRecord.handle`
abbrev pub handle : {A : Type 0} → OrderRecord A → OrderHandle
handle r = record { origin_id = r.origin_id; oid = r.oid; book = r.book; side = r.side }

pub record Outcome (A : Type 0) : Type 0 where
  pub origin_id : String
  pub state : OrderState
  pub fill : Option (Fill A)
  pub reason : String

-- `_outcome`
abbrev pub outcome : {A : Type 0} → OrderRecord A → Outcome A
outcome r = record { origin_id = r.origin_id; state = r.state; fill = r.fill; reason = r.reason }

abbrev pub Orders : Type 0 → Type 0
Orders A = Dict (OrderRecord A)

-- An entry of the ledger: what happened, and the record then.
pub record OrderEvent (A : Type 0) : Type 0 where
  pub event : OrderState
  pub entry : OrderRecord A

pub record Manager (A W : Type 0) : Type 0 where
  pub orders : Orders A
  pub journal : Journal (OrderEvent A) (Orders A)
  pub venue : W

abbrev pub Action : Type 0 → Type 0 → Type 0 → Type 0
Action A W B = Manager A W → Result Raised B × Manager A W

module _ {A W : Type 0} where
  infixl 5 ◌>>=◌ ◌>>◌
  abbrev pub ◌>>=◌ : {B C : Type 0} → Action A W B → (B → Action A W C) → Action A W C
  ◌>>=◌ m f s = let (r, s') = m s in elim r [ ok b ↦ f b s' | err e ↦ (err e, s') ]

  abbrev pub ◌>>◌ : {B C : Type 0} → Action A W B → Action A W C → Action A W C
  m >> k = m >>= λ _. k

  abbrev pub pure : {B : Type 0} → B → Action A W B
  pure b s = (ok b, s)

  -- A call of the executor, with what it returned or raised as a value.
  abbrev pub call : {B : Type 0} → (W → B × W) → Action A W B
  call f s = let (b, w) = f s.venue in (ok b, record s { venue = w })

  abbrev pub or_raise : {B : Type 0} → Result Raised B → Action A W B
  or_raise r s = (r, s)

  -- A change of a shared record that is not yet journaled.
  abbrev pub touch : OrderRecord A → Action A W (Unit {0})
  touch r s = (ok tt, record s { orders = insert r.origin_id r s.orders })

  -- The ledger first, then the checkpoint.
  unfoldable pub persist : OrderRecord A → OrderState → Action A W (Unit {0})
  persist r event s =
      let orders = insert r.origin_id r s.orders in
      (
        ok tt,
        record s {
          orders = orders;
          journal =
              checkpoint orders (append_event (record { event = event; entry = r }) s.journal);
        },
      )

  -- `_set`, which gives the changed record back.
  unfoldable pub set : OrderRecord A → OrderState → String → Action A W (OrderRecord A)
  set r state reason = do
    let r' = record r { state = state; reason = reason }
    persist r' state
    pure r'

abbrev pub or_else : String → String → String
or_else a b = if str_eq a "" then b else a

abbrev pub failed_state : Category → OrderState
failed_state c = if definitely_not_landed c then OrderState.rejected else OrderState.unknown

-- `__post_init__`: the records of the last checkpoint, if there is one, in the order of the checkpoint.
-- The file has them sorted by key, on which only the order in which `recover` visits them depends.
unfoldable pub post_init : {A E : Type 0} → Journal E (Orders A) → Orders A
post_init j = elim j.state [ none ↦ [] | some orders ↦ orders ]

-- A new process over the journal of an old one.
unfoldable pub restart : {A W : Type 0} → Manager A W → Manager A W
unfolding post_init
restart s = record s { orders = post_init s.journal }

-- A new order: journaled as `placing` before anything is sent.
abbrev pub new_record : {A : Type 0} → Intent A → String → String → OrderRecord A
new_record i origin_id symbol = record {
  origin_id = origin_id;
  state = OrderState.placing;
  symbol = symbol;
  book = "";
  side = i.side;
  oid = none;
  attempts = 0;
  reason = "";
  fill = none;
}

module _ {A W : Type 0} (ex : TwoPhaseExecutor A W) where
  abbrev pub placed : OrderRecord A → Result Raised OrderHandle → Action A W (OrderRecord A)
  placed r (ok h) = set (record r { oid = h.oid; book = h.book }) OrderState.submitted ""
  placed r (err (bitso_error c text)) = set r (failed_state c) text
  placed r (err value_error) = or_raise (err value_error)

  unfoldable pub place_once : OrderRecord A → Intent A → Action A W (OrderRecord A)
  place_once r i = do
    let r' = record r { attempts = suc r.attempts }
    touch r'
    reply ← call (ex.place_order i r.origin_id)
    placed r' reply

  abbrev pub settled : OrderRecord A → Reconciled A → Action A W (OrderRecord A × Bool)
  settled r (filled f) = do
    r' ← set (record r { fill = some f }) OrderState.filled ""
    pure (r', true)
  settled r unfilled = pure (r, false)

  -- `_try_fill`: the record, promoted on a fill, and whether it filled. A raise goes through.
  unfoldable pub try_fill : OrderRecord A → String → Action A W (OrderRecord A × Bool)
  try_fill r symbol = do
    reply ← call (ex.reconcile (handle r) (or_else symbol r.symbol))
    result ← or_raise reply
    settled r result

  abbrev pub is_unknown : OrderState → Bool
  is_unknown OrderState.unknown = true
  is_unknown _ = false

  -- What follows a reconcile with no fill: a landed order rests, an uncertain one goes to `again`.
  abbrev pub rests_or : Action A W (Outcome A) → OrderRecord A × Bool → Action A W (Outcome A)
  rests_or again (r, true) = pure (outcome r)
  rests_or again (r, false) =
      if is_unknown r.state
      then again
      else (do r' ← set r OrderState.resting "resting"; pure (outcome r'))

  abbrev pub is_rejected : OrderState → Bool
  is_rejected OrderState.rejected = true
  is_rejected _ = false

  abbrev pub unless_rejected : OrderRecord A → Action A W (Outcome A) → Action A W (Outcome A)
  unless_rejected r again = if is_rejected r.state then pure (outcome r) else again

  -- The placing loop, on fuel: `max_attempts - attempts` rounds are all that its test allows.
  unfoldable pub retry : ℕ → Intent A → String → ℕ → OrderRecord A → Action A W (Outcome A)
  retry zero i symbol max_attempts r = pure (outcome r)
  retry (suc fuel) i symbol max_attempts r =
      if ltb r.attempts max_attempts
      then (do
        r' ← place_once r i
        unless_rejected r' (do
          tried ← try_fill r' symbol
          rests_or (retry fuel i symbol max_attempts tried.0) tried))
      else pure (outcome r)

  unfoldable pub place_loop : Intent A → String → ℕ → OrderRecord A → Action A W (Outcome A)
  place_loop i symbol max_attempts r = retry (max_attempts - r.attempts) i symbol max_attempts r

  -- `_resolve`, by the state of the record.
  unfoldable pub resolve_in :
      OrderState → OrderRecord A → Intent A → String → ℕ → Action A W (Outcome A)
  resolve_in OrderState.filled r i symbol m = pure (outcome r)
  resolve_in OrderState.rejected r i symbol m = pure (outcome r)
  resolve_in OrderState.placing r i symbol m = place_loop i symbol m r
  resolve_in _ r i symbol m = do
    tried ← try_fill r symbol
    rests_or (place_loop i symbol m tried.0) tried

  abbrev pub known : Option (OrderRecord A) → OrderRecord A → Action A W (OrderRecord A)
  known (some r) fresh = pure r
  known none fresh = persist fresh OrderState.placing >> pure fresh

  unfoldable pub submit : Intent A → String → String → ℕ → Action A W (Outcome A)
  submit i origin_id symbol max_attempts s =
      (do
        r ← known (lookup origin_id s.orders) (new_record i origin_id symbol)
        resolve_in r.state r i symbol max_attempts)
        s

  abbrev pub rests_recovered : OrderRecord A × Bool → Action A W (OrderRecord A)
  rests_recovered (r, found) =
      if not found && is_some r.oid then set r OrderState.resting "resting (recovered)" else pure r

  -- One round of the loop in `recover`, at a key and its record.
  unfoldable pub recover_one : Dict String → String → OrderRecord A → Action A W (List (Outcome A))
  recover_one symbol_of origin_id r = if is_terminal r.state then pure [] else (do
    tried ← try_fill r (or_else r.symbol (get_or origin_id "" symbol_of))
    r' ← rests_recovered tried
    pure (outcome r' ∷ []))

  unfoldable pub recover_all : Dict String → Orders A → Action A W (List (Outcome A))
  recover_all symbol_of [] = pure []
  recover_all symbol_of ((origin_id, r) ∷ rest) = do
    first ← recover_one symbol_of origin_id r
    others ← recover_all symbol_of rest
    pure (first ++ others)

  unfoldable pub recover : Dict String → Action A W (List (Outcome A))
  recover symbol_of s = recover_all symbol_of s.orders s
