-- ===== src/Risk.antt =====
-- Risk governance: treasuryforge/risk/stages.py, treasuryforge/risk/drift.py,
-- treasuryforge/risk/tax.py, treasuryforge/risk/ruin.py and treasuryforge/loss_limits.py.
pub mod Stages
pub mod Drift
pub mod Breakers
pub mod Tax
pub mod Ruin
