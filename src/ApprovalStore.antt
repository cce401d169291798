-- ===== src/ApprovalStore.antt =====
-- The durable approval store (src/approval_store.py).
pub mod Records
pub mod Files
pub mod Access
pub mod Pending
pub mod Crash
