-- ===== src/Memory.antt =====
-- The tag-indexed memory of the agent (src/memory.py).
pub mod Topics
pub mod Store
pub mod Search
