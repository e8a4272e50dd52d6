-- ===== src/Executor.antt =====
-- treasuryforge/executor.py: the executor's interface, and the one that fills against the simulation.
use treasuryforge.Base.Float.{Float, ◌+◌ as ◌⊞◌, ◌-◌ as ◌⊟◌, ◌*◌ as ◌⊠◌, ◌/◌ as ◌⊘◌, whole}
use treasuryforge.Base.Result.{Result, ok, err}
use treasuryforge.Types.{Intent, MarketTick, Fill, Side}
use treasuryforge.Wallet.{SimWallet, InsufficientFunds, apply_fill}

-- `Executor.execute`, which fills and changes the wallet, or raises and does neither.
abbrev pub Executor : Type 0 → Type 0
Executor A =
    Intent A → MarketTick A → SimWallet A → Result (InsufficientFunds A) (Fill A × SimWallet A)

pub record SimExecutor (A : Type 0) : Type 0 where
  pub fee_rate : A
  pub slippage_bps : A

module _ {A : Type 0} ⦃F : Float A⦄ where
  -- Slippage is adverse: a buyer pays more, a seller gets less.
  abbrev pub slipped : Side → A → A → A
  slipped Side.buy price slip = price ⊠ (whole 1 ⊞ slip)
  slipped Side.sell price slip = price ⊠ (whole 1 ⊟ slip)

  unfoldable pub sim_fill : SimExecutor A → Intent A → MarketTick A → Fill A
  sim_fill x i t =
      let fill_price = slipped i.side t.price (x.slippage_bps ⊘ whole 10_000) in
      let gross = i.base_amount ⊠ fill_price in
      record {
        symbol = i.symbol;
        side = i.side;
        base_amount = i.base_amount;
        price = F.round_to fill_price 6;
        fee = F.round_to (gross ⊠ x.fee_rate) 6;
        ts = t.ts;
        fee_currency = "quote";
      }

  abbrev pub with_fill :
      Fill A
      → Result (InsufficientFunds A) (SimWallet A)
      → Result (InsufficientFunds A) (Fill A × SimWallet A)
  with_fill f (ok w) = ok (f, w)
  with_fill f (err e) = err e

  -- `SimExecutor.execute`
  unfoldable pub execute : SimExecutor A → Executor A
  execute x i t w = let f = sim_fill x i t in with_fill f (apply_fill f w)
