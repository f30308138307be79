-- ===== src/Mining.antt =====
-- Shares and work templates: sv2-core/src/types.rs and sv2-core/src/share_validator.rs.
pub mod Chain
pub mod Types
pub mod Headers
pub mod Validator
pub mod Accepted
pub mod Replay
pub mod Lengths
pub mod Counts
