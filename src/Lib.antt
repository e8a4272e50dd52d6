-- ===== src/Lib.antt =====
-- treasuryforge is a treasury agent that trades within hard limits. An agent proposes an intent; the
-- policy engine allows or denies it; an executor fills it; a wallet changes; a journal makes what
-- happened survive a crash. Live, an order manager drives each order to an end at an exchange that
-- may time out, a dead-man's switch and a staleness gate stand before each step, a preflight before
-- the first, and a service runs the steps and calls the fail-safe. The ladder of stages, the drift
-- switch and the loss breakers say how much capital a strategy may use; the tax ledger matches sales
-- with the lots that they sold; the deployment gate, the broker and the promotion gate decide which
-- strategy gets capital.
--
-- Which file models which part:
--   Types, Wallet, Policy      treasuryforge/types.py, wallet.py, policy.py. A denial is the rule with
--                              the values that its message prints; each rule of `evaluate` is a
--                              function that denies or hands the engine on to the next.
--   Executor, Runner           treasuryforge/executor.py, runner.py: `run` as a loop over the ticks of
--                              the market, with the agent's state, the journal and the audit trail.
--   Journal, Journal/File      treasuryforge/journal.py: the first is the store that the clients see,
--                              the second the text of the ledger and the calls of `checkpoint` on the
--                              file system, with a crash or an exception after any of them.
--   Orders, Bitso/Errors       treasuryforge/orders.py and exchanges/bitso/errors.py: a method is an
--                              action on the records, the journal and the venue, which returns or
--                              raises, and what it wrote stays written.
--   Safety                     treasuryforge/staleness.py, watchdog.py, preflight.py.
--   Live, Service, RunLive     treasuryforge/live.py, service.py, run_live.py.
--   Bitso/Executor             treasuryforge/exchanges/bitso/executor.py, over the transport.
--   Bitso/Client, Bitso/Mock   treasuryforge/exchanges/bitso/client.py and mock.py: the calls of the
--                              client and the emulated exchange, an instance of the transport.
--   Bitso/Validation           treasuryforge/exchanges/bitso/validation.py: the go/no-go ladder.
--   Hyperliquid                treasuryforge/exchanges/hyperliquid/wire.py (Hyperliquid/Wire), executor.py
--                              (the preview) and live_executor.py, over the SDK and the endpoint;
--                              Hyperliquid/Direct is the direct placing of executor.py.
--   Agent                      treasuryforge/agent.py, market.py.
--   Audit                      treasuryforge/audit.py: the lines of the file and the keyed chain.
--   Shadow                     treasuryforge/shadow.py and the signal of signals/funding.py.
--   Shadow/Scalp               treasuryforge/scalp_shadow.py, the entry of signals/momentum.py.
--   Shadow/Basis               treasuryforge/shadow_basis.py, signals/basis.py.
--   Carry                      treasuryforge/cross_venue_economics.py, economic_gate.py,
--                              cross_venue_legger.py, opportunity_duty_cycle.py, and in Carry/Spreads
--                              relay_feed.py and venue_spread.py.
--   Autonomous                 scripts/run_autonomous.py, which composes most of the others: the paper
--                              book, the gate, the policy, the order manager and the Hyperliquid
--                              executor. Its network reads are parameters.
--   Risk                       treasuryforge/risk/stages.py, risk/drift.py, risk/tax.py,
--                              loss_limits.py; Risk/Ruin is risk/ruin.py.
--   Research                   treasuryforge/backtest/cv.py (Folds) and metrics.py (Metrics),
--                              funding_persistence.py and carry_backtest.py (Episodes),
--                              signals/tsmom.py and tsmom_backtest.py (Trend), momentum_backtest.py with
--                              the exit of signals/momentum.py (Momentum), marketlab/fills.py,
--                              fill_model.py and backtest/costmodel.py (Fills), carry_screener.py and
--                              risk/live_gap.py (Screen), pnl_decomposition.py (Breakdown).
--   Capital                    treasuryforge/deployment_gate.py, broker.py, promotion_gate.py; in
--                              Capital/Sizing sizing.py, maturity.py and
--                              carry_portfolio_allocator.py; in Capital/Committee consultants.py.
--   Base                       what all share: integers, dicts, results, floats.
--   Examples                   the theorems at concrete inputs.
-- The modules below these hold the proofs: Policy/Admission, Policy/Rate and Policy/Latches about the
-- policy engine, Orders/Attempts, Orders/Accepted, Orders/Progress, Orders/Recovery and
-- Orders/Crash about orders, Journal/Refinement about the journal, and so on, each named for what it
-- proves.
--
-- Numbers. Times and counters are natural numbers, ages and drifts integers. Python's `float` is a
-- parameter (Base/Float): a type with the operations that the code uses. The laws of the order
-- (`IsOrdered`) are hypotheses where they are needed. The examples use multiples of 1e-9. Texts of
-- reasons are data with the numbers that they print.
--
-- Parameters. The strategy, the venue (`place_order` and `reconcile` with a state of its own), the
-- transport of the Bitso executor, `str.upper` and `str.lower`, the deflated Sharpe ratio and the
-- committee, the keyed hash, SHA-256 and the SDK of Hyperliquid, the random generator and the formats
-- of numbers, the square root, the logarithm and the error function, the JSON codec, the probe of the journal's directory and the action of
-- the fail-safe. Whether a write of the heartbeat or of the tax ledger returns, and whether the
-- fail-safe does, are parameters too: where they raise, what was done before stays done. Clock readings are inputs of a step.
--
-- Fuel. The loop of `_resolve` places an order while attempts remain; it runs on `max_attempts -
-- attempts` as fuel, which each round lowers by one, since each round counts an attempt. The bootstrap of
-- the ruin simulation runs on as much fuel as returns are asked for, since each round adds one at
-- least; the scan of the momentum backtest on as much as there are bars, since each round moves on by
-- one at least.
--
-- Not modelled: signing, HTTP and secrets; printing; the mean-reverting scalp and the funding predictor
-- with their backtests, the other signals, and the synthetic data of the market laboratory; the other
-- scripts and the API, which call what is modelled and print. The deployment gate and the committee take
-- the deflated Sharpe ratio and the probability of ruin as parameters, which Research/Metrics and
-- Risk/Ruin model.
pub mod Base
pub mod Types
pub mod Wallet
pub mod Policy
pub mod Journal
pub mod Bitso
pub mod Orders
pub mod Safety
pub mod Live
pub mod Service
pub mod RunLive
pub mod Audit
pub mod Carry
pub mod Research
pub mod Autonomous
pub mod Hyperliquid
pub mod Agent
pub mod Shadow
pub mod Executor
pub mod Runner
pub mod Risk
pub mod Capital
mod Examples
