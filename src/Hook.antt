-- ===== src/Hook.antt =====
-- pkg/hook: small helpers on slices, and functions that remember their results.
pub mod Array
pub mod Timer
pub mod Caching
pub mod Expiring
