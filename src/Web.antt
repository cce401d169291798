-- ===== src/Web.antt =====
-- The web tools of src/web.py: from a page to its text, and the two backends for search and fetch.
pub mod Extractor
pub mod Hidden
pub mod Layout
pub mod Network
pub mod Providers
pub mod Backend
pub mod Client
pub mod Offline
pub mod Bounds
