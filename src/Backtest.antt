-- ===== src/Backtest.antt =====
-- The back-test (src/backtest): the price history and the simulated broker.
pub mod Loader
pub mod Simulator
pub mod Replay
pub mod Engine
pub mod WalkForward
