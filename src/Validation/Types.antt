-- ===== src/Validation/Types.antt =====
-- The data of sv2-core/src/validation.rs.
use stratum_v2_tools.Common.{
  Bool, List, Option, String, [], false, nat_eq, string_eq, true, ℕ, ◌^◌, ◌∷◌, ◌⊎◌,
}
use stratum_v2_tools.Common.Floats.{Floats}
use stratum_v2_tools.Common.Map.{Map}

-- The crate regex, and what the code takes from the tables of Unicode: a parameter. `compile` gives
-- an error as it prints.
pub record Texts : Type 1 where
  pub Regex : Type 0
  pub compile : String → String ⊎ Regex
  pub is_match : Regex → String → Bool
  pub replace_all : Regex → String → String → String
  pub trim : String → String
  pub to_lowercase : String → String

-- What the code asks of an `f64` beside its arithmetic.
pub record Shown (fl : Floats) : Type 0 where
  pub is_finite : fl.F64 → Bool
  pub show_f64 : fl.F64 → String

pub record NumericRange (fl : Floats) : Type 0 where
  pub min : fl.F64
  pub max : fl.F64

pub record ValidationConfig (fl : Floats) : Type 0 where
  pub max_lengths : Map String ℕ
  pub allowed_patterns : Map String String
  pub strict_mode : Bool
  pub max_collection_sizes : Map String ℕ
  pub numeric_ranges : Map String (NumericRange fl)

pub record InputValidator (fl : Floats) (tx : Texts) : Type 0 where
  pub config : ValidationConfig fl
  pub patterns : Map String tx.Regex

pub data ValidationErrorType : Type 0 where
  too_long too_short invalid_format invalid_characters out_of_range : ValidationErrorType
  too_many_items required invalid_type malicious : ValidationErrorType

pub record ValidationError : Type 0 where
  pub field : String
  pub error_type : ValidationErrorType
  pub message : String
  pub value : Option String

pub data ValidationResult : Type 0 where
  accepted : ValidationResult
  refused : List ValidationError → ValidationResult

pub record SanitizationOptions : Type 0 where
  pub strip_html : Bool
  pub strip_sql : Bool
  pub strip_scripts : Bool
  pub normalize_whitespace : Bool
  pub to_lowercase : Bool
  pub trim : Bool

-- `SanitizationOptions::default`.
abbrev pub default_options : SanitizationOptions
default_options = record {
  strip_html = true;
  strip_sql = true;
  strip_scripts = true;
  normalize_whitespace = true;
  to_lowercase = false;
  trim = true;
}

-- `ValidationConfig::default`.
abbrev pub default_rules : (fl : Floats) → ValidationConfig fl
default_rules fl = record {
  max_lengths =
      ("api_key", 256)
      ∷ ("username", 64)
      ∷ ("password", 128)
      ∷ ("email", 254)
      ∷ ("url", 2048)
      ∷ ("name", 128)
      ∷ ("description", 1024)
      ∷ ("address", 128)
      ∷ ("worker_name", 64)
      ∷ ("user_agent", 256)
      ∷ ("session_id", 128)
      ∷ [];
  allowed_patterns =
      ("api_key", "^[A-Za-z0-9_\\-+=/.]{1,256}$")
      ∷ ("username", "^[A-Za-z0-9_\\-\\.]{1,64}$")
      ∷ ("email", "^[A-Za-z0-9._%+-]+@[A-Za-z0-9.-]+\\.[A-Za-z]{2,}$")
      ∷ ("url", "^https?://[A-Za-z0-9\\-\\._~:/?#\\[\\]@!$&'()*+,;=%]+$")
      ∷ (
        "bitcoin_address",
        "^[13][a-km-zA-HJ-NP-Z1-9]{25,34}$|^bc1[a-z0-9]{39,59}$|^tb1[a-z0-9]{39,59}$",
      )
      ∷ ("worker_name", "^[A-Za-z0-9_\\-\\.]{1,64}$")
      ∷ ("hex", "^[0-9a-fA-F]*$")
      ∷ ("uuid", "^[0-9a-fA-F]{8}-[0-9a-fA-F]{4}-[0-9a-fA-F]{4}-[0-9a-fA-F]{4}-[0-9a-fA-F]{12}$")
      ∷ (
        "ip_address",
        "^(?:(?:25[0-5]|2[0-4][0-9]|[01]?[0-9][0-9]?)\\.){3}(?:25[0-5]|2[0-4][0-9]|[01]?[0-9][0-9]?)$|^(?:[0-9a-fA-F]{1,4}:){7}[0-9a-fA-F]{1,4}$",
      )
      ∷ [];
  strict_mode = true;
  max_collection_sizes =
      ("permissions", 50)
      ∷ ("upstream_pools", 10)
      ∷ ("transactions", 10000)
      ∷ ("connections", 10000)
      ∷ [];
  numeric_ranges =
      ("difficulty", record { min = fl.decimal "0.0001"; max = fl.of_nat (10 ^ 15) })
      ∷ ("hashrate", record { min = fl.of_nat 0; max = fl.of_nat (10 ^ 20) })
      ∷ ("port", record { min = fl.of_nat 1; max = fl.of_nat 65535 })
      ∷ ("timeout", record { min = fl.of_nat 1; max = fl.of_nat 86400 })
      ∷ ("percentage", record { min = fl.of_nat 0; max = fl.of_nat 100 })
      ∷ ("rate_limit", record { min = fl.of_nat 1; max = fl.of_nat 10000 })
      ∷ [];
}

-- The patterns of `contains_malicious_patterns`.
abbrev pub malicious_patterns : List String
malicious_patterns =
    "(?i)(union|select|insert|update|delete|drop|create|alter|exec|execute)"
    ∷ "(?i)(script|javascript|vbscript|onload|onerror|onclick)"
    ∷ "(?i)(<script|</script|<iframe|</iframe)" ∷ "(?i)(alert\\s*\\(|confirm\\s*\\(|prompt\\s*\\()"
    ∷ "(\\.\\./|\\.\\.\\\\)" ∷ "(?i)(;|\\||&|`|\\$\\(|\\${)" ∷ []

-- The patterns of `strip_sql_patterns`.
abbrev pub sql_patterns : List String
sql_patterns =
    "(?i)\\b(union|select|insert|update|delete|drop|create|alter|exec|execute)\\b"
    ∷ "(?i)\\b(or|and)\\s+\\d+\\s*=\\s*\\d+" ∷ "(?i)'\\s*(or|and)\\s+'" ∷ []

-- The patterns of `strip_script_patterns`.
abbrev pub script_patterns : List String
script_patterns =
    "(?i)<script[^>]*>.*?</script>" ∷ "(?i)javascript:" ∷ "(?i)vbscript:" ∷ "(?i)on\\w+\\s*=" ∷ []
