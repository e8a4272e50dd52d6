-- ===== src/Bitso/Validation.antt =====
-- treasuryforge/exchanges/bitso/validation.py: the go/no-go ladder over the account client and the
-- executor. The texts of the details are left out.
pub mod Gated
use treasuryforge.Base.{
  ℕ, Bool, true, false, not, ◌&&◌, ◌||◌, Option, none, some, List, [], ◌∷◌, ◌++◌, String, str_eq,
  if◌then◌else◌, ◌==◌, any, is_some, contains,
}
use Prim.Native.String.{◌++◌ as ◌⊕◌}
use treasuryforge.Base.Float.{Float, ◌*◌ as ◌⊠◌, ◌/◌ as ◌⊘◌, le, lt, whole, max, min}
use treasuryforge.Base.Dict.{Dict, lookup, insert}
use treasuryforge.Base.Result.{Result, ok, err}
use treasuryforge.Types.{Intent, Fill, Side, OrderType}
use treasuryforge.Orders.{
  OrderHandle, Raised, bitso_error, value_error, Reconciled, filled, unfilled, TwoPhaseExecutor,
}
use treasuryforge.Bitso.Client.{
  Book, Payload, Response, BitsoClient, get_books, get_balance, get_fees, get_open_orders,
  send_cancel_all, probe_withdrawal,
}

pub data RungStatus : Type 0 where
  pass fail warn skip : RungStatus

pub data Rung : Type 0 where
  available_books balance no_withdraw fees kill_path tiny_order order : Rung

pub record RungResult : Type 0 where
  pub name : Rung
  pub status : RungStatus

abbrev pub rung : Rung → RungStatus → RungResult
rung name status = record { name = name; status = status }

-- The arguments of `run_ladder`.
pub record Ladder (A : Type 0) : Type 0 where
  pub symbol : String
  pub book : String
  pub arm : Bool
  pub max_mxn : A
  pub origin_prefix : String

abbrev pub auth_failed : List String
auth_failed = "0201" ∷ "0206" ∷ "0207" ∷ "0213" ∷ "0215" ∷ []

abbrev pub is_oid : Option String → String → Bool
is_oid none o = false
is_oid (some oid) o = str_eq o oid

module _ {A : Type 0} where
  -- `{b["book"]: b for b in ...}`: a later book of a name replaces an earlier one.
  abbrev pub by_name : Dict (Book A) → List (Book A) → Dict (Book A)
  by_name d [] = d
  by_name d (b ∷ bs) = by_name (insert b.name b d) bs

  abbrev pub books_in : Payload A → List (Book A)
  books_in (Payload.books bs) = bs
  books_in _ = []

  abbrev pub opened_in : Payload A → List String
  opened_in (Payload.opened oids) = oids
  opened_in _ = []

  -- The book of rung 1, where the market answers and lists it.
  abbrev pub listed_book : String → Response A → Option (Book A)
  listed_book book r =
      if r.status == 200 && r.success then lookup book (by_name [] (books_in r.payload)) else none

  abbrev pub answered : Response A → Bool
  answered r = r.status == 200 && r.success

  abbrev pub error_code : Response A → String
  error_code r = elim r.code [ none ↦ "" | some code ↦ code ]

  -- What rung 3 makes of the answer to the withdrawal that must be refused.
  unfoldable pub withdraw_verdict : Response A → RungStatus
  withdraw_verdict r =
      if r.success || (r.status == 200 || r.status == 201)
      then RungStatus.fail
      else if str_eq (error_code r) "0202"
      then RungStatus.pass
      else if r.status == 404
      then RungStatus.warn
      else if contains (error_code r) auth_failed
      then RungStatus.warn
      else RungStatus.fail

abbrev pub is_fail : RungStatus → Bool
is_fail RungStatus.fail = true
is_fail _ = false

abbrev pub skipped : List RungResult
skipped = rung Rung.kill_path RungStatus.skip ∷ rung Rung.tiny_order RungStatus.skip ∷ []

-- What the ladder returns or raises, with the results so far in front.
abbrev pub after :
    {W : Type 0}
    → List RungResult
    → Result Raised (List RungResult) × W
    → Result Raised (List RungResult) × W
after front (ok rest, w) = (ok (front ++ rest), w)
after front (err e, w) = (err e, w)

module _ {A W : Type 0} ⦃F : Float A⦄ (c : BitsoClient A W) (x : TwoPhaseExecutor A W) where
  abbrev pub Out : Type 0
  Out = Result Raised (List RungResult) × W

  -- The `except` clause: a BitsoError fails the rung, another exception goes through.
  abbrev pub caught : Raised → W → Out
  caught (bitso_error category text) w = (ok (rung Rung.order RungStatus.fail ∷ []), w)
  caught value_error w = (err value_error, w)

  abbrev pub given : A → Option A → A
  given default none = default
  given default (some a) = a

  abbrev pub rest_intent : Ladder A → Book A → Intent A
  rest_intent l b =
      let price = max (given (whole 1) b.minimum_price) (whole 1) in
      let least = given (F.lit 1 4) b.minimum_amount in
      record {
        symbol = l.symbol;
        side = Side.buy;
        base_amount = max least (l.max_mxn ⊘ price);
        reason = "kill-path resting order";
        order_type = OrderType.limit;
        limit_price = some price;
        quote_amount = none;
      }

  abbrev pub tiny_intent : Ladder A → Intent A
  tiny_intent l = record {
    symbol = l.symbol;
    side = Side.buy;
    base_amount = whole 0;
    reason = "tiny validation buy";
    order_type = OrderType.market;
    limit_price = none;
    quote_amount = some (min l.max_mxn (whole 20));
  }

  -- What a fill cost, as a share of its notional; `if notional` is a test for zero.
  abbrev pub eff_cost : Fill A → A
  eff_cost f =
      let notional = f.base_amount ⊠ f.price in
      let fee_quote = if str_eq f.fee_currency "base" then f.fee ⊠ f.price else f.fee in
      if le notional (whole 0) && le (whole 0) notional then whole 1 else fee_quote ⊘ notional

  abbrev pub tiny_status : Reconciled A → RungStatus
  tiny_status unfilled = RungStatus.fail
  tiny_status (filled f) = if le (eff_cost f) (F.lit 15 3) then RungStatus.pass else RungStatus.fail

  abbrev pub tiny_reconciled : Result Raised (Reconciled A) → W → Out
  tiny_reconciled (err e) w = caught e w
  tiny_reconciled (ok r) w = (ok (rung Rung.tiny_order (tiny_status r) ∷ []), w)

  abbrev pub tiny_placed : Ladder A → Result Raised OrderHandle → W → Out
  tiny_placed l (err e) w = caught e w
  tiny_placed l (ok h) w = let (r, w') = x.reconcile h l.symbol w in tiny_reconciled r w'

  -- Rung 6.
  unfoldable pub tiny_buy : Ladder A → W → Out
  tiny_buy l w =
      let (r, w') = x.place_order (tiny_intent l) (l.origin_prefix ⊕ "-buy") w in tiny_placed l r w'

  -- Rung 5, once its order is placed: it must be open, and no longer so when all are cancelled.
  unfoldable pub cancelled_path : Ladder A → OrderHandle → W → Out
  cancelled_path l h w =
      let (before, w1) = get_open_orders c (some l.book) w in
      let (_, w2) = send_cancel_all c w1 in
      let (later, w3) = get_open_orders c (some l.book) w2 in
      if any (is_oid h.oid) (opened_in before.payload)
        && not (any (is_oid h.oid) (opened_in later.payload))
      then after (rung Rung.kill_path RungStatus.pass ∷ []) (tiny_buy l w3)
      else (ok (rung Rung.kill_path RungStatus.fail ∷ []), w3)

  abbrev pub rest_placed : Ladder A → Result Raised OrderHandle → W → Out
  rest_placed l (err e) w = caught e w
  rest_placed l (ok h) w = cancelled_path l h w

  unfoldable pub order_rungs : Ladder A → Book A → W → Out
  order_rungs l b w =
      let (r, w') = x.place_order (rest_intent l b) (l.origin_prefix ⊕ "-rest") w in
      rest_placed l r w'

  -- Rung 4, which only warns.
  unfoldable pub fee_rung : Ladder A → Book A → W → Out
  fee_rung l b w =
      let (r, w') = get_fees c w in
      after (rung Rung.fees (if answered r then RungStatus.pass else RungStatus.warn) ∷ [])
        (if l.arm then order_rungs l b w' else (ok skipped, w'))

  -- Rung 3.
  unfoldable pub withdraw_rung : Ladder A → Book A → W → Out
  withdraw_rung l b w =
      let (r, w') = probe_withdrawal c w in
      let status = withdraw_verdict r in
      if is_fail status
      then (ok (rung Rung.no_withdraw RungStatus.fail ∷ []), w')
      else after (rung Rung.no_withdraw status ∷ []) (fee_rung l b w')

  -- Rung 2.
  unfoldable pub balance_rung : Ladder A → Book A → W → Out
  balance_rung l b w =
      let (r, w') = get_balance c w in
      if answered r
      then after (rung Rung.balance RungStatus.pass ∷ []) (withdraw_rung l b w')
      else (ok (rung Rung.balance RungStatus.fail ∷ []), w')

  abbrev pub from_book : Ladder A → Option (Book A) → W → Out
  from_book l none w = (ok (rung Rung.available_books RungStatus.fail ∷ []), w)
  from_book l (some b) w =
      after (rung Rung.available_books RungStatus.pass ∷ []) (balance_rung l b w)

  unfoldable pub run_ladder : Ladder A → W → Out
  run_ladder l w = let (r, w') = get_books c w in from_book l (listed_book l.book r) w'
