-- ===== src/Broker.antt =====
-- The brokers of src/broker.
pub mod Mock
