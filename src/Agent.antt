-- ===== src/Agent.antt =====
-- treasuryforge/agent.py: the mean-reversion agent, and treasuryforge/market.py: the simulated market
-- that it is run on. The formats of Python's f-strings and its random generator are parameters.
pub mod Proposals
use treasuryforge.Base.{
  ℕ, zero, suc, ◌+◌, ◌-◌, ◌*◌, ◌≤◌, ◌<◌, ◌≡◌, ◌≢◌, refl, sym, subst, ap, ◌∙◌, ◌↔◌, ◌⊎◌, inl, inr,
  Bool, true, false, not, ◌&&◌, ◌||◌, Option, none, some, List, [], ◌∷◌, ◌++◌, map, String, str_eq,
  eq_iff, eq_refl, arith, if◌then◌else◌, ltb, leb, ◌==◌, Bool-cases, Option-cases, is_some, length,
  length-append, all, any, keep, All, All-append, contains, take,
}
use Prim.Native.String.{◌++◌ as ◌⊕◌}
use treasuryforge.Base.Float.{
  Float, ◌+◌ as ◌⊞◌, ◌-◌ as ◌⊟◌, ◌*◌ as ◌⊠◌, ◌/◌ as ◌⊘◌, le, lt, whole, min, max, sum,
}
use treasuryforge.Types.{Intent, MarketTick, Side, OrderType}
use treasuryforge.Wallet.{SimWallet, base_balance}

-- `{x:.2f}` and `{x:.0%}`
pub record Format (A : Type 0) : Type 0 where
  pub two_decimals : A → String
  pub percent : A → String

pub record MeanReversionAgent (A : Type 0) : Type 0 where
  pub symbol : String
  pub window : ℕ
  pub threshold : A
  pub trade_base : A
  pub prices : List A

-- Without the first entry.
abbrev pub popped {ℓ} : {B : Type ℓ} → List B → List B
popped [] = []
popped (x ∷ xs) = xs

-- `append` on a `deque(maxlen=n)`.
unfoldable pub push {ℓ} : {B : Type ℓ} → ℕ → B → List B → List B
push n x xs = let ys = xs ++ x ∷ [] in if ltb n (length ys) then popped ys else ys

module _ {A : Type 0} ⦃F : Float A⦄ (format : Format A) where
  abbrev dip : MeanReversionAgent A → A → A → Intent A
  dip a price lo = record {
    symbol = a.symbol;
    side = Side.buy;
    base_amount = a.trade_base;
    reason =
        "price "
        ⊕ format.two_decimals price
        ⊕ " <= MA-"
        ⊕ format.percent a.threshold
        ⊕ " ("
        ⊕ format.two_decimals lo
        ⊕ ")";
    order_type = OrderType.market;
    limit_price = none;
    quote_amount = none;
  }

  abbrev rip : MeanReversionAgent A → A → A → A → Intent A
  rip a price hi held = record {
    symbol = a.symbol;
    side = Side.sell;
    base_amount = min a.trade_base held;
    reason =
        "price "
        ⊕ format.two_decimals price
        ⊕ " >= MA+"
        ⊕ format.percent a.threshold
        ⊕ " ("
        ⊕ format.two_decimals hi
        ⊕ ")";
    order_type = OrderType.market;
    limit_price = none;
    quote_amount = none;
  }

  unfoldable pub proposed : MeanReversionAgent A → A → A → A → Option (Intent A)
  proposed a price ma held =
      let lo = ma ⊠ (whole 1 ⊟ a.threshold) in
      let hi = ma ⊠ (whole 1 ⊞ a.threshold) in
      if le price lo
      then some (dip a price lo)
      else if le hi price && lt (whole 0) held
      then some (rip a price hi held)
      else none

  -- The agent, and what `decide` returns: the outer `none` is the ZeroDivisionError of a window of
  -- no prices.
  unfoldable pub decide :
      MarketTick A
      → SimWallet A
      → MeanReversionAgent A
      → Option (Option (Intent A)) × MeanReversionAgent A
  decide t w a =
      let b = record a { prices = push a.window t.price a.prices } in
      let n = length b.prices in
      let out =
        if ltb n b.window
        then some none
        else if n == 0
        then none
        else some (proposed b t.price (sum b.prices ⊘ whole n) (base_balance w b.symbol)) in
      (out, b)

-- `random.Random`: the generator of a seed, and `gauss`.
pub record Rng (A G : Type 0) : Type 0 where
  pub seeded : ℕ → G
  pub gauss : A → A → G → A × G

pub record MarketSimulator (A : Type 0) : Type 0 where
  pub symbol : String
  pub start_price : A
  pub seed : ℕ
  pub drift : A
  pub volatility : A
  pub scripted : Option (List A)

module _ {A G : Type 0} ⦃F : Float A⦄ (rng : Rng A G) where
  -- The ticks of a script, from a stamp on.
  unfoldable pub play : MarketSimulator A → ℕ → List A → List (MarketTick A)
  play m ts [] = []
  play m ts (p ∷ ps) = record { symbol = m.symbol; price = p; ts = ts } ∷ play m (suc ts) ps

  -- The random walk: `n` ticks more, from a stamp, a price and a state of the generator.
  unfoldable pub walk : MarketSimulator A → ℕ → ℕ → A → G → List (MarketTick A)
  walk m zero ts price g = []
  walk m (suc n) ts price g =
      let (shock, h) = rng.gauss m.drift m.volatility g in
      record { symbol = m.symbol; price = F.round_to price 6; ts = ts }
      ∷ walk m n (suc ts) (max (price ⊠ (whole 1 ⊞ shock)) (F.lit 1 9)) h

  unfoldable pub ticks : MarketSimulator A → ℕ → List (MarketTick A)
  ticks m n = elim m.scripted [
    | some ps ↦ play m 0 (take n ps)
    | none ↦ walk m n 0 m.start_price (rng.seeded m.seed)
  ]
