-- ===== src/Auth.antt =====
-- API keys, sessions, permissions and rate limits: sv2-core/src/auth.rs.
pub mod Types
pub mod RateLimit
pub mod System
pub mod Run
pub mod Cases
pub mod Quiet
pub mod SessionLimit
pub mod WellFormed
pub mod Access
pub mod Keys
pub mod Revocation
pub mod Throttle
pub mod Guessing
pub mod Cleanup
