-- ===== src/Logging.antt =====
-- The log entries of sv2-core/src/logging.rs: the fields of an event, their redaction and the entry
-- that the JSON formatter prints.
pub mod Types
pub mod Redaction
pub mod Entries
pub mod Withheld
