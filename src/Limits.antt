-- ===== src/Limits.antt =====
-- agent/limits.py: the in-memory limits on messages, logins and generations.
pub mod Clock
pub mod Rate
pub mod Throttle
pub mod Gate
