-- ===== src/ConnectionAuth.antt =====
-- Authentication of connections: sv2-core/src/connection_auth.rs.
pub mod Manager
pub mod Consistent
pub mod Lifecycle
pub mod Stats
pub mod Expiry
pub mod History
