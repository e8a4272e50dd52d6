-- ===== src/Research/Trend/Causal.antt =====
-- That the trend backtest of treasuryforge/tsmom_backtest.py looks at no later price.
use treasuryforge.Base.{◌-◌}
use treasuryforge.Base.Float.{Float, ◌-◌ as ◌⊟◌, ◌*◌ as ◌⊠◌, ◌/◌ as ◌⊘◌}
