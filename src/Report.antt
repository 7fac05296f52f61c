-- ===== src/Report.antt =====
-- Reports (src/report): the performance metrics.
pub mod Metrics
