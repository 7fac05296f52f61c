-- ===== src/Execution.antt =====
-- The execution of orders (src/execution): approvals.
pub mod Approval
