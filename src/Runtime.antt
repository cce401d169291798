-- ===== src/Runtime.antt =====
-- `ResearchRuntime` of src/runtime.py.
pub mod Resume
pub mod Handover
pub mod Backends
pub mod Synthesis
pub mod Tools
pub mod Gate
pub mod Wiring
pub mod Setup
pub mod Recall
pub mod Composed
pub mod Offline
pub mod Decisions
pub mod Lifecycle
