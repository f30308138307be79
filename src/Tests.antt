-- ===== src/Tests.antt =====
-- Examples: small systems, and each theorem at one of them.
pub mod Systems
pub mod Auth
pub mod ConnectionAuth
pub mod Recovery
pub mod Mining
pub mod Router
pub mod Config
pub mod Health
pub mod Validation
pub mod Upstream
pub mod Logging
