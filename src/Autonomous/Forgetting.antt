-- ===== src/Autonomous/Forgetting.antt =====
-- What the policy of scripts/run_autonomous.py never learns: its entries.
use treasuryforge.Base.{
  ℕ, ◌≡◌, refl, ◌∙◌, inl, inr, Bool, true, false, ◌&&◌, ◌||◌, none, List, [], ◌∷◌, String,
  Bool-cases, Option-cases, ap,
}
use Prim.Native.String.{◌++◌ as ◌⊕◌}
use treasuryforge.Base.Float.{Float, ◌*◌ as ◌⊠◌, lt}
use treasuryforge.Base.Result.{Result, ok, err}
use treasuryforge.Types.{Intent}
use treasuryforge.Live.Budget.{evaluate_uncounted}
use treasuryforge.Orders.{Raised, TwoPhaseExecutor, Outcome, OrderState}
use treasuryforge.Hyperliquid.{HlTwoPhaseExecutor}
use treasuryforge.Shadow.Scalp.{ScalpAction, enter}
use treasuryforge.Autonomous.Scan.{ScalpEvent}
use treasuryforge.Autonomous.{
  Arguments, Account, LiveTrader, Clock, Coin, hit_book, position_of, close_intent, build_policy,
  enter_intent, hl_min, executor_for, submit_fresh, counted, ruled, ruling, open_position,
  close_position, closed_by, sized_by, maybe_execute, step_live, is_enter, is_exit,
}

never_hit : (st : OrderState) → hit_book st ≡ false
never_hit OrderState.placing = refl
never_hit OrderState.submitted = refl
never_hit OrderState.unknown = refl
never_hit OrderState.resting = refl
never_hit OrderState.filled = refl
never_hit OrderState.rejected = refl

-- A round of the live part: its arguments.
pub record LiveRound (A : Type 0) : Type 0 where
  pub armed : Bool
  pub action : ScalpAction
  pub clock : Clock
  pub price : A
  pub tier : A
  pub coin : Coin A

module _ {A W : Type 0} ⦃F : Float A⦄ (hl : HlTwoPhaseExecutor A W) (account : Account A W)
    (decimal : ℕ → String) where
  -- The journal of the policy is as it was, and if the policy had counted no trade, it still has not.
  pub record Forgotten (l l' : LiveTrader A W) : Type 0 where
    pub journal_kept : l'.policy_journal ≡ l.policy_journal
    pub uncounted : l.policy.recent_ts ≡ [] → l'.policy.recent_ts ≡ []

  forgotten : (l : LiveTrader A W) → Forgotten l l
  forgotten l = record { journal_kept = refl; uncounted = λ h. h }

  Forgotten-trans : {l m n : LiveTrader A W} → Forgotten l m → Forgotten m n → Forgotten l n
  Forgotten-trans f g = record {
    journal_kept = g.journal_kept ∙ f.journal_kept;
    uncounted = λ h. g.uncounted (f.uncounted h);
  }

  submit_fresh-Forgotten :
      (ex : TwoPhaseExecutor A W) (i : Intent A) (o : String) (l : LiveTrader A W)
      → Forgotten l (submit_fresh hl account decimal ex i o l).1
  unfolding submit_fresh
  submit_fresh-Forgotten ex i o l = record { journal_kept = refl; uncounted = λ h. h }

  counted-Forgotten :
      (now : ℕ) (notional : A) (r : Result Raised (Outcome A)) (l : LiveTrader A W)
      → Forgotten l (counted hl account decimal now notional r l)
  counted-Forgotten now notional (err e) l = forgotten l
  counted-Forgotten now notional (ok out) l = rw (never_hit out.state) (forgotten l)

  ruled-Forgotten :
      (c : Clock) (coin : String) (n : A) (allowed : Bool) (l : LiveTrader A W)
      → Forgotten l (ruled hl account decimal c coin n allowed l).1
  ruled-Forgotten c coin n false l = forgotten l
  ruled-Forgotten c coin n true l =
      let (r, l') =
        submit_fresh hl account decimal (executor_for hl account decimal (n ⊠ F.lit 12 1) false)
          (enter_intent coin n) ("auto:" ⊕ coin ⊕ ":" ⊕ decimal c.origin_at) l in
      Forgotten-trans
        (submit_fresh-Forgotten (executor_for hl account decimal (n ⊠ F.lit 12 1) false)
          (enter_intent coin n) ("auto:" ⊕ coin ⊕ ":" ⊕ decimal c.origin_at) l)
        (counted-Forgotten c.fill_at n r l')

  open_position-Forgotten :
      (c : Clock) (coin : String) (price collateral n : A) (l : LiveTrader A W)
      → Forgotten l (open_position hl account decimal c coin price collateral n l).1
  unfolding open_position
  open_position-Forgotten c coin price collateral n l = elim (Bool-cases (lt n hl_min)) [
    | inl low ↦ rw low (forgotten l)
    | inr enough ↦
        let rule = ruling hl account decimal c coin price collateral n l in
        let asked : Forgotten l (record l { policy = rule.1 }) = record {
          journal_kept = refl;
          uncounted = evaluate_uncounted l.policy (enter_intent coin n) _ _ none;
        } in
        rw enough
          (Forgotten-trans asked (ruled-Forgotten c coin n rule.0 (record l { policy = rule.1 })))
  ]

  closed_by-Forgotten :
      (c : Clock) (coin : String) (held : Result Raised (List (String × A))) (l : LiveTrader A W)
      → Forgotten l (closed_by hl account decimal c coin held l).1
  closed_by-Forgotten c coin (err e) l = forgotten l
  closed_by-Forgotten c coin (ok positions) l = elim (Option-cases (position_of coin positions)) [
    | inl none_held ↦ rw (none_held, closed_by) (forgotten l)
    | inr (size, found) ↦
        rw (found, closed_by) (submit_fresh-Forgotten _ (close_intent coin size) _ l)
  ]

  close_position-Forgotten :
      (c : Clock) (coin : String) (l : LiveTrader A W)
      → Forgotten l (close_position hl account decimal c coin l).1
  unfolding close_position
  close_position-Forgotten c coin l =
      let (positions, w) = account.open_positions l.venue in
      let read : Forgotten l (record l { venue = w }) = record {
        journal_kept = refl;
        uncounted = λ h. h;
      } in
      Forgotten-trans read (closed_by-Forgotten c coin positions (record l { venue = w }))

  sized_by-Forgotten :
      (action : ScalpAction) (c : Clock) (coin : String) (price tier : A) (m : Result Raised A)
      (l : LiveTrader A W)
      → Forgotten l (sized_by hl account decimal action c coin price tier m l).1
  sized_by-Forgotten action c coin price tier (err e) l = forgotten l
  sized_by-Forgotten enter c coin price tier (ok m) l =
      open_position-Forgotten c coin price m (tier ⊠ m) l
  sized_by-Forgotten _ c coin price tier (ok m) l = close_position-Forgotten c coin l

  maybe_execute-Forgotten :
      (open_gate : Bool) (action : ScalpAction) (c : Clock) (coin : String) (price tier : A)
      (l : LiveTrader A W)
      → Forgotten l (maybe_execute hl account decimal open_gate action c coin price tier l).1
  unfolding maybe_execute
  maybe_execute-Forgotten false action c coin price tier l = forgotten l
  maybe_execute-Forgotten true action c coin price tier l =
      let (collateral, w) = account.available_collateral l.venue in
      let read : Forgotten l (record l { venue = w }) = record {
        journal_kept = refl;
        uncounted = λ h. h;
      } in
      Forgotten-trans read
        (sized_by-Forgotten action c coin price tier collateral (record l { venue = w }))

  module _ (opens : List (ScalpEvent A) → Bool) where
    abbrev pub live_rounds : List (LiveRound A) → LiveTrader A W → LiveTrader A W
    live_rounds [] l = l
    live_rounds (x ∷ xs) l =
        live_rounds xs
          (step_live hl account decimal opens x.armed x.action x.clock x.price x.tier x.coin l)

    step_live-Forgotten :
        (x : LiveRound A) (l : LiveTrader A W)
        → Forgotten l
            (step_live hl account decimal opens x.armed x.action x.clock x.price x.tier x.coin l)
    step_live-Forgotten x l =
        elim (Bool-cases (x.armed && (is_enter x.action || is_exit x.action))) [
          | inl acts ↦ rw acts (maybe_execute-Forgotten _ x.action x.clock _ x.price x.tier l)
          | inr rests ↦ rw rests (forgotten l)
        ]

    -- No live round journals the policy's state or registers a fill with it, whatever orders it
    -- submits and whatever becomes of them: after any rounds the journal of the policy is as it was, a
    -- restart builds the engine that it would have built before, with its breaker as it was then, and
    -- an engine that had counted no trade has still counted none.
    pub live_rounds-Forgotten :
        (xs : List (LiveRound A)) (l : LiveTrader A W) (args : Arguments A) (coins : List String)
        (col0 : A)
        → let l' = live_rounds xs l in
          (l'.policy_journal ≡ l.policy_journal)
          × (build_policy args coins col0 l'.policy_journal
              ≡ build_policy args coins col0 l.policy_journal)
          × (l.policy.recent_ts ≡ [] → l'.policy.recent_ts ≡ [])
    live_rounds-Forgotten [] l args coins col0 = (refl, refl, λ h. h)
    live_rounds-Forgotten (x ∷ xs) l args coins col0 =
        let one = step_live-Forgotten x l in
        let (kept, same, none_counted) =
          live_rounds-Forgotten xs
            (step_live hl account decimal opens x.armed x.action x.clock x.price x.tier x.coin l)
            args coins col0 in
        (
          kept ∙ one.journal_kept,
          same ∙ ap (build_policy args coins col0) one.journal_kept,
          λ h. none_counted (one.uncounted h),
        )
