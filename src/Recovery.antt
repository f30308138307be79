-- ===== src/Recovery.antt =====
-- Recovery from errors: sv2-core/src/recovery.rs. Times and durations are in nanoseconds.
pub mod Breaker
pub mod Retry
pub mod Degradation
