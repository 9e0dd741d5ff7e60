-- ===== src/System.antt =====
-- The primitives of system/: the rate limiter and the power lock.
pub mod Rate
pub mod Locker
mod Examples
