-- ===== src/ApprovalApi.antt =====
-- The human-approval API (src/approval_api.py): the service over a research runtime, and the HTTP
-- adapter in front of it.
pub mod Service
pub mod Path
pub mod Http
pub mod Lifecycle
pub mod Refusals
pub mod Index
pub mod Invariants
pub mod Issued
pub mod Decided
pub mod Routing
pub mod Main
pub mod Threads
