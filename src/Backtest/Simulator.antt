-- ===== src/Backtest/Simulator.antt =====
-- `SimulatedBroker` (src/backtest/simulator.py): orders are filled at once against the history, with
-- slippage and commission. An exception keeps what was written before it.
pub mod State
pub mod Orders
pub mod Market
pub mod Books
pub mod Holdings
pub mod Moves
pub mod Sessions
pub mod Dates
pub mod History
pub mod Lookahead
pub mod Basis
pub mod Accounting
pub mod Solvency
