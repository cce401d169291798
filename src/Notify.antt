-- ===== src/Notify.antt =====
-- The notifiers of src/notify.py.
pub mod Client
pub mod Delivery
pub mod Outcomes
