-- ===== src/Health.antt =====
-- Health checks and alerts: sv2-core/src/health.rs.
pub mod Types
pub mod Monitor
pub mod Checkers
pub mod History
pub mod Overall
