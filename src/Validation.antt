-- ===== src/Validation.antt =====
-- Validation of inputs: sv2-core/src/validation.rs.
pub mod Types
pub mod Sanitize
pub mod Validator
pub mod Accepted
pub mod Limiter
pub mod Window
pub mod Cleanup
pub mod Fields
