-- ===== src/Orders/Crash.antt =====
-- A record of treasuryforge/orders.py that a crash left in `placing`: journaled, its reply unknown.
use treasuryforge.Base.{ℕ, zero, suc, ◌-◌, ◌<◌, ◌≡◌, refl, true, some, String, arith}
use treasuryforge.Base.Dict.{lookup}
use treasuryforge.Base.Result.{Result, ok, err}
use treasuryforge.Types.{Intent}
use treasuryforge.Bitso.Errors.{Category, definitely_not_landed}
use treasuryforge.Orders.{
  OrderHandle, Raised, TwoPhaseExecutor, OrderState, OrderRecord, Manager, Reconciled, outcome, set,
  persist, place_once, retry, place_loop, resolve_in, submit, bitso_error,
}

-- What the one call leaves of the record.
abbrev refused : {A : Type 0} → OrderRecord A → String → OrderRecord A
refused r text = record r { state = OrderState.rejected; attempts = suc r.attempts; reason = text }

module _ {A W : Type 0} where
  -- A venue that refuses a second order under an active id, and answers `ask` to a reconcile.
  abbrev pub answering :
      (Intent A → String → W → Result Raised OrderHandle × W)
      → (OrderHandle → String → W → Result Raised (Reconciled A) × W)
      → TwoPhaseExecutor A W
  answering place ask = record { place_order = place; reconcile = ask }

  abbrev Refusal :
      {B : Type 0}
      → (OrderRecord A → B)
      → OrderRecord A
      → String
      → W
      → Result Raised B × Manager A W
      → Type 0
  Refusal f r text w (result, s) = (result ≡ ok (f (refused r text))) × (s.venue ≡ w)

  place_once-Refusal :
      (place : Intent A → String → W → Result Raised OrderHandle × W)
      (ask : OrderHandle → String → W → Result Raised (Reconciled A) × W) (i : Intent A)
      (r : OrderRecord A) (s : Manager A W) (c : Category) (text : String) (w : W)
      → definitely_not_landed c ≡ true
      → place i r.origin_id s.venue ≡ (err (bitso_error c text), w)
      → Refusal (λ q. q) r text w (place_once (answering place ask) r i s)
  unfolding place_once set persist
  place_once-Refusal place ask i r s c text w landed reply = rw reply (rw landed (refl, refl))

  retry-Refusal :
      (place : Intent A → String → W → Result Raised OrderHandle × W)
      (ask : OrderHandle → String → W → Result Raised (Reconciled A) × W) (fuel : ℕ) (i : Intent A)
      (symbol : String) (m : ℕ) (r : OrderRecord A) (s : Manager A W) (text : String) (w : W)
      → 0 < fuel
      → r.attempts < m
      → Refusal (λ q. q) r text w (place_once (answering place ask) r i s)
      → Refusal outcome r text w (retry (answering place ask) fuel i symbol m r s)
  unfolding retry
  retry-Refusal place ask zero i symbol m r s text w h room one = absurd (omega arith)
  retry-Refusal place ask (suc fuel) i symbol m r s text w h room one = ground arith

  resolve_in-Refusal :
      (place : Intent A → String → W → Result Raised OrderHandle × W)
      (ask : OrderHandle → String → W → Result Raised (Reconciled A) × W) (st : OrderState)
      (i : Intent A) (symbol : String) (m : ℕ) (r : OrderRecord A) (s : Manager A W) (text : String)
      (w : W)
      → st ≡ OrderState.placing
      → r.attempts < m
      → Refusal (λ q. q) r text w (place_once (answering place ask) r i s)
      → Refusal outcome r text w (resolve_in (answering place ask) st r i symbol m s)
  unfolding resolve_in place_loop
  resolve_in-Refusal place ask st i symbol m r s text w e room one =
      rw e (retry-Refusal place ask (m - r.attempts) i symbol m r s text w (omega arith) room one)

  -- A record that a crash left in `placing` is sent again, not reconciled: where the venue refuses
  -- the second order, the order is settled as rejected after that one call, whatever a reconcile
  -- would have answered, a fill of the first order included.
  pub submit_placing :
      (place : Intent A → String → W → Result Raised OrderHandle × W)
      (ask : OrderHandle → String → W → Result Raised (Reconciled A) × W) (i : Intent A)
      (o symbol : String) (m : ℕ) (s : Manager A W) {r : OrderRecord A} {c : Category}
      {text : String} {w : W}
      → lookup o s.orders ≡ some r
      → r.state ≡ OrderState.placing
      → r.attempts < m
      → definitely_not_landed c ≡ true
      → place i r.origin_id s.venue ≡ (err (bitso_error c text), w)
      → let (result, s') = submit (answering place ask) i o symbol m s in
        (result
          ≡ ok (record {
            origin_id = r.origin_id;
            state = OrderState.rejected;
            fill = r.fill;
            reason = text;
          }))
        × (s'.venue ≡ w)
  unfolding submit
  submit_placing place ask i o symbol m s {r} {c} {text} {w} found state room landed reply =
      rw found (
        resolve_in-Refusal place ask r.state i symbol m r s text w state room
          (place_once-Refusal place ask i r s c text w landed reply))
