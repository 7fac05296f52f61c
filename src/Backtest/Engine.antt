-- ===== src/Backtest/Engine.antt =====
-- `BacktestEngine` (src/backtest/engine.py): the daily loop over the simulated broker.
pub mod State
pub mod Exits
pub mod Entries
pub mod Indicators
pub mod Signals
pub mod Run
pub mod Moves
pub mod Refines
pub mod Coupling
pub mod Closing
pub mod Caps
pub mod Limits
pub mod Snapshots
