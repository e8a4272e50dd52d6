-- ===== src/Capital.antt =====
-- Which strategies get capital: treasuryforge/deployment_gate.py, treasuryforge/broker.py and
-- treasuryforge/promotion_gate.py; and how much each may hold, in Sizing.
pub mod Gate
pub mod Broker
pub mod Promotion
pub mod Sizing
pub mod Committee
