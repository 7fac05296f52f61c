-- ===== src/Tests.antt =====
-- Concrete runs of the components, on amounts in whole won.
mod Simulator
mod Risk
mod Trades
mod Mock
mod Engine
mod Backtest
mod Approval
mod Metrics
mod Portfolio
mod Costs
