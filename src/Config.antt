-- ===== src/Config.antt =====
-- The configuration of the daemon: sv2-core/src/config.rs.
pub mod Types
pub mod Defaults
pub mod Validate
pub mod Dependencies
pub mod Modes
pub mod Load
pub mod Overrides
pub mod Sections
pub mod Valid
pub mod Upstreams
pub mod Priorities
pub mod Stricter
pub mod Fields
pub mod Sources
