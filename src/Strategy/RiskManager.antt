-- ===== src/Strategy/RiskManager.antt =====
-- `AlgoRiskManager` (src/strategy/risk_manager.py): the gate of eight rules before an order.
pub mod Rules
pub mod Check
pub mod Caps
pub mod Safety
pub mod Gate
