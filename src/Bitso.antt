-- ===== src/Bitso.antt =====
-- treasuryforge/exchanges/bitso: the error taxonomy, the two-phase executor, the account client, the
-- emulated exchange and the validation ladder.
pub mod Errors
pub mod Executor
pub mod Client
pub mod Mock
pub mod Validation
