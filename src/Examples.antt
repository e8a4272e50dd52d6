-- ===== src/Examples.antt =====
-- Concrete runs: the theorems applied to inputs on which the code does its work.
mod Fixed
mod Policies
mod OrderRuns
mod Files
mod Guards
mod Supervision
mod Taxes
mod Capitals
mod Audits
mod Papers
mod Autopilot
mod Research
mod Exchange
