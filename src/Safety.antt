-- ===== src/Safety.antt =====
-- The guards around live execution: treasuryforge/staleness.py, watchdog.py and preflight.py.
pub mod Staleness
pub mod Watchdog
pub mod Preflight
