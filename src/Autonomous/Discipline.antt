-- ===== src/Autonomous/Discipline.antt =====
-- When scripts/run_autonomous.py trades.
use treasuryforge.Base.{
  ℕ, ◌≡◌, refl, ◌⊎◌, inl, inr, Bool, true, false, none, [], String, arith, Bool-cases,
}
use Prim.Native.String.{◌++◌ as ◌⊕◌}
use treasuryforge.Base.Float.{Float, ◌*◌ as ◌⊠◌, lt}
use treasuryforge.Base.Result.{Result, ok, err}
use treasuryforge.Policy.{PolicyEngine, evaluate}
use treasuryforge.Orders.{Raised, Outcome}
use treasuryforge.Hyperliquid.{HlTwoPhaseExecutor}
use treasuryforge.Shadow.Scalp.{enter}
use treasuryforge.Autonomous.{
  Account, LiveTrader, Clock, enter_intent, hl_min, executor_for, submit_fresh, counted, ruling,
  open_position, sized_by, maybe_execute,
}

module _ {A W : Type 0} ⦃F : Float A⦄ (hl : HlTwoPhaseExecutor A W) (account : Account A W)
    (decimal : ℕ → String) where
  -- No order manager was asked: only the collateral may have been read.
  pub record Idle (l l' : LiveTrader A W) : Type 0 where
    pub orders_kept : l'.orders_journal ≡ l.orders_journal
    pub policy_kept : l'.policy_journal ≡ l.policy_journal
    pub venue_read : (l'.venue ≡ l.venue) ⊎ (l'.venue ≡ (account.available_collateral l.venue).1)

  -- One order was submitted, once all the guards had passed.
  pub record Entered (c : Clock) (coin : String) (price tier : A) (l l' : LiveTrader A W)
      : Type 0 where
    pub collateral : A
    pub read : (account.available_collateral l.venue).0 ≡ ok collateral
    pub above_minimum : lt (tier ⊠ collateral) hl_min ≡ false
    pub allowed :
        (evaluate l.policy
          (enter_intent coin (tier ⊠ collateral))
          (record { symbol = coin; price = price; ts = c.tick_at })
          (record { quote = collateral; positions = [] })
          none).0.allowed
        ≡ true
    pub ruled_policy : PolicyEngine A
    pub submitted :
        let l1 = record l {
          venue = (account.available_collateral l.venue).1;
          policy = ruled_policy;
        } in
        let after =
          (submit_fresh hl account decimal
            (executor_for hl account decimal ((tier ⊠ collateral) ⊠ F.lit 12 1) false)
            (enter_intent coin (tier ⊠ collateral))
            ("auto:" ⊕ coin ⊕ ":" ⊕ decimal c.origin_at)
            l1).1 in
        (l'.orders_journal ≡ after.orders_journal) × (l'.venue ≡ after.venue)

  counted-kept :
      (now : ℕ) (notional : A) (r : Result Raised (Outcome A)) (l : LiveTrader A W)
      → let l' = counted hl account decimal now notional r l in
        (l'.orders_journal ≡ l.orders_journal) × (l'.venue ≡ l.venue)
  counted-kept now notional (err e) l = (refl, refl)
  counted-kept now notional (ok out) l = ground arith

  -- An entry submits an order only when the gate is open, the notional is not below the exchange's
  -- minimum, and the policy allows the intent; and then exactly one, through an executor whose cap is
  -- 1.2 times the notional. Else it changes no journal.
  pub maybe_execute-Entered :
      (open_gate : Bool) (c : Clock) (coin : String) (price tier : A) (l : LiveTrader A W)
      → let l' = (maybe_execute hl account decimal open_gate enter c coin price tier l).1 in
        Idle l l' ⊎ ((open_gate ≡ true) × Entered c coin price tier l l')
  unfolding maybe_execute open_position
  maybe_execute-Entered false c coin price tier l =
      inl (record { orders_kept = refl; policy_kept = refl; venue_read = inl refl })
  maybe_execute-Entered true c coin price tier l = go (account.available_collateral l.venue).0 refl
    where
      go :
          (m : Result Raised A)
          → (account.available_collateral l.venue).0 ≡ m
          → let l' =
              (sized_by hl account decimal enter c coin price tier m
                (record l { venue = (account.available_collateral l.venue).1 })).1 in
            Idle l l' ⊎ ((Bool.true ≡ true) × Entered c coin price tier l l')
      go (err e) at = inl (record { orders_kept = refl; policy_kept = refl; venue_read = inr refl })
      go (ok collateral) at =
          let n = tier ⊠ collateral in
          let l1 = record l { venue = (account.available_collateral l.venue).1 } in
          let rule = ruling hl account decimal c coin price collateral n l1 in
          elim (Bool-cases (lt n hl_min)) [
            | inl low ↦
                rw low
                  (inl (record { orders_kept = refl; policy_kept = refl; venue_read = inr refl }))
            | inr enough ↦ elim (Bool-cases rule.0) [
              | inl allowed ↦
                  let l2 = record l1 { policy = rule.1 } in
                  let (r, l3) =
                    submit_fresh hl account decimal
                      (executor_for hl account decimal (n ⊠ F.lit 12 1) false) (enter_intent coin n)
                      ("auto:" ⊕ coin ⊕ ":" ⊕ decimal c.origin_at) l2 in
                  rw (enough, allowed)
                    (inr (
                      refl,
                      record {
                        collateral = collateral;
                        read = at;
                        above_minimum = enough;
                        allowed = allowed;
                        ruled_policy = rule.1;
                        submitted = counted-kept c.fill_at n r l3;
                      },
                    ))
              | inr denied ↦
                  rw (enough, denied)
                    (inl (record { orders_kept = refl; policy_kept = refl; venue_read = inr refl }))
            ]
          ]
