-- ===== src/Logging/Types.antt =====
-- The data of sv2-core/src/logging.rs.
use stratum_v2_tools.Common.{Bool, Option, String, nat_eq, string_eq, ℕ}
use stratum_v2_tools.Common.Map.{Map}

-- An `i64`: `n`, or the negative of `n + 1`.
pub data ℤ : Type 0 where
  pos negsuc : ℕ → ℤ

-- The JSON values that the visitor makes.
pub data Value : Type 0 where
  string : String → Value
  number : ℤ → Value
  boolean : Bool → Value

-- A field of an event as the visitor receives it. Values of other types come as they print.
pub data Recorded : Type 0 where
  as_debug as_str : String → Recorded
  as_i64 : ℤ → Recorded
  as_u64 : ℕ → Recorded
  as_bool : Bool → Recorded

pub record JsonFormatter : Type 0 where
  pub redact_sensitive : Bool

pub record LogLocation : Type 0 where
  pub file : String
  pub line : ℕ
  pub module_path : String

pub record StructuredLogEntry : Type 0 where
  pub timestamp : String
  pub level : String
  pub component : String
  pub message : String
  pub correlation_id : Option String
  pub fields : Map String Value
  pub location : Option LogLocation

-- What the crate tracing knows of an event, its level as it prints.
pub record Metadata : Type 0 where
  pub level : String
  pub target : String
  pub file : Option String
  pub line : Option ℕ
  pub module_path : Option String

-- What the code takes from the tables of Unicode: a parameter.
pub record Cases : Type 0 where
  pub to_lowercase : String → String
  pub to_uppercase : String → String
