-- ===== src/Bitso/Client.antt =====
-- treasuryforge/exchanges/bitso/client.py: the calls of the account client. The transport is a
-- parameter over a state of its own; a response is what is in its body, and signing is the
-- transport's, told apart by the header that a signed call carries.
use treasuryforge.Base.{ℕ, Bool, true, false, Option, none, List, [], String}
use treasuryforge.Bitso.Executor.{Request, Reply, Trade}

pub data Endpoint (A : Type 0) : Type 0 where
  available_books balance fees account_status cancel_all withdrawals : Endpoint A
  -- with the book asked for, if one is
  open_orders : Option String → Endpoint A
  -- what the executor sends: an order, or a query for trades
  trading : Request A → Endpoint A

pub record Book (A : Type 0) : Type 0 where
  pub name : String
  pub minimum_amount : Option A
  pub minimum_price : Option A

-- The `payload` of a response.
pub data Payload (A : Type 0) : Type 0 where
  nothing account : Payload A
  books : List (Book A) → Payload A
  -- a currency and what is available of it
  balances : List (String × A) → Payload A
  -- a book, its taker fee and its maker fee
  fee_rows : List (String × A × A) → Payload A
  -- the exchange ids of the open orders
  opened : List String → Payload A
  cancelled : List String → Payload A
  trades : List (Trade A) → Payload A
  placed : Option String → Payload A

pub record Response (A : Type 0) : Type 0 where
  pub status : ℕ
  pub success : Bool
  pub payload : Payload A
  pub code : Option String
  pub message : String

pub record BitsoClient (A W : Type 0) : Type 0 where
  -- the endpoint, and whether the call carries an `Authorization` header
  pub transport : Endpoint A → Bool → W → Response A × W

module _ {A W : Type 0} (c : BitsoClient A W) where
  abbrev pub public : Endpoint A → W → Response A × W
  public e w = c.transport e false w

  abbrev pub signed : Endpoint A → W → Response A × W
  signed e w = c.transport e true w

  abbrev pub get_books : W → Response A × W
  get_books = public available_books

  abbrev pub get_balance : W → Response A × W
  get_balance = signed balance

  abbrev pub get_fees : W → Response A × W
  get_fees = signed fees

  abbrev pub get_open_orders : Option String → W → Response A × W
  get_open_orders book = signed (open_orders book)

  abbrev pub send_cancel_all : W → Response A × W
  send_cancel_all = signed cancel_all

  abbrev pub probe_withdrawal : W → Response A × W
  probe_withdrawal = signed withdrawals

module _ {A : Type 0} where
  abbrev pub oid_in : Payload A → Option String
  oid_in (placed oid) = oid
  oid_in _ = none

  abbrev pub trades_in : Payload A → List (Trade A)
  trades_in (trades ts) = ts
  trades_in _ = []

  -- What the executor reads of a response.
  abbrev pub as_reply : Response A → Reply A
  as_reply r = record {
    status = r.status;
    success = r.success;
    oid = oid_in r.payload;
    trades = trades_in r.payload;
    code = r.code;
    message = r.message;
  }

  -- The executor's transport over the same connection: its calls are all signed.
  abbrev pub executor_transport : {W : Type 0} → BitsoClient A W → Request A → W → Reply A × W
  executor_transport c q w = let (r, w') = c.transport (trading q) true w in (as_reply r, w')
