-- ===== src/Research/Breakdown.antt =====
-- treasuryforge/pnl_decomposition.py: where the return of a paper book comes from.
use treasuryforge.Base.{ℕ, suc, Bool, ◌||◌, List, [], ◌∷◌, String, str_eq, if◌then◌else◌}
use treasuryforge.Base.Float.{Float, ◌+◌ as ◌⊞◌, ◌-◌ as ◌⊟◌, ◌/◌ as ◌⊘◌, lt, whole}

pub data Action : Type 0 where
  enter exit hold flat : Action

-- What is read of an event of the ledger; a missing number is zero.
pub record BookEvent (A : Type 0) : Type 0 where
  pub kind : String
  pub action : Action
  pub r : A
  pub funding : A

pub record PnlBreakdown (A : Type 0) : Type 0 where
  pub funding : A
  pub convergence : A
  pub entry_fees : A
  pub exit_fees : A
  pub slippage : A
  pub hedge_drift : A
  pub n_intervals : ℕ
  pub n_hold : ℕ

-- `kind in ("shadow", "basis")`
abbrev pub is_book_event : {A : Type 0} → BookEvent A → Bool
is_book_event e = str_eq e.kind "shadow" || str_eq e.kind "basis"

module _ {A : Type 0} ⦃F : Float A⦄ where
  abbrev pub gross : PnlBreakdown A → A
  gross b = b.funding ⊞ b.convergence

  abbrev pub costs : PnlBreakdown A → A
  costs b = ((b.entry_fees ⊞ b.exit_fees) ⊞ b.slippage) ⊞ b.hedge_drift

  abbrev pub net : PnlBreakdown A → A
  net b = gross b ⊞ costs b

  -- `cost_to_gross`, with infinity given
  abbrev pub cost_to_gross : A → PnlBreakdown A → A
  cost_to_gross infinity b =
      if lt (F.lit 1 12) (gross b) then F.magnitude (costs b) ⊘ gross b else infinity

  abbrev pub booked : Action → BookEvent A → PnlBreakdown A → PnlBreakdown A
  booked enter e b = record b { entry_fees = b.entry_fees ⊞ e.r }
  booked exit e b = record b { exit_fees = b.exit_fees ⊞ e.r }
  booked hold e b = record b {
    n_hold = suc b.n_hold;
    funding = b.funding ⊞ e.funding;
    convergence = b.convergence ⊞ (e.r ⊟ e.funding);
  }
  booked flat e b = b

  abbrev pub counted : BookEvent A → PnlBreakdown A → PnlBreakdown A
  counted e b =
      if is_book_event e
      then booked e.action e (record b { n_intervals = suc b.n_intervals })
      else b

  abbrev pub nothing : PnlBreakdown A
  nothing = record {
    funding = whole 0;
    convergence = whole 0;
    entry_fees = whole 0;
    exit_fees = whole 0;
    slippage = whole 0;
    hedge_drift = whole 0;
    n_intervals = 0;
    n_hold = 0;
  }

  unfoldable pub decompose_from : List (BookEvent A) → PnlBreakdown A → PnlBreakdown A
  decompose_from [] b = b
  decompose_from (e ∷ es) b = decompose_from es (counted e b)

  unfoldable pub decompose : List (BookEvent A) → PnlBreakdown A
  unfolding decompose_from
  decompose events = decompose_from events nothing
