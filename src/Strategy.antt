-- ===== src/Strategy.antt =====
-- Decisions before and after a trade (src/strategy): sizes, exit prices, risk rules, positions.
pub mod ExitPrices
pub mod ExitConditions
pub mod Sizing
pub mod RiskManager
pub mod PositionManager
pub mod PortfolioState
