-- ===== src/Validation/Fields.antt =====
-- The numbers and the named fields that the validator of sv2-core/src/validation.rs accepts.
use stratum_v2_tools.Common.{
  Option-cases, String, arith, false, inl, inr, nat_eq, some, string_eq, true, ◌↔◌, ◌≡◌,
}
use stratum_v2_tools.Common.Floats.{Floats}
use stratum_v2_tools.Common.Map.{get}
use stratum_v2_tools.Error.{Error, Foreign, Result}
use stratum_v2_tools.Validation.Sanitize.{
  normalize_spaces, strip_html_tags, strip_script_patterns, strip_sql_patterns,
}
use stratum_v2_tools.Validation.Types.{InputValidator, NumericRange, Shown, Texts, accepted}
use stratum_v2_tools.Validation.Validator.{
  range_faults, validate_api_key, validate_bitcoin_address, validate_hex_string, validate_numeric,
  validate_url, validate_worker_name, verdict,
}

-- A number is accepted exactly if it is finite and not outside the range for its type.
pub validate_numeric_accepted_iff :
    {fl : Floats} {tx : Texts} (sh : Shown fl) (v : InputValidator fl tx) (field : String)
    (value : fl.F64) (numeric_type : String)
    → (validate_numeric sh v field value numeric_type ≡ accepted) ↔ (
        (sh.is_finite value ≡ true)
        × ((range : NumericRange fl)
            → get numeric_type v.config.numeric_ranges ≡ some range
            → (fl.lt value range.min ≡ false) × (fl.lt range.max value ≡ false)))
unfolding validate_numeric range_faults verdict
validate_numeric_accepted_iff sh v field value numeric_type = (
  λ h. (ground (arith, h), λ range e. ground (arith, h, e)),
  λ (finite, inside). elim (Option-cases (get numeric_type v.config.numeric_ranges)) [
    | inl e ↦ ground (arith, finite, e)
    | inr (range, e) ↦ ground (arith, finite, e, inside range e)
  ],
)

-- The five validations of fields, by the name of the field.
pub data Field : Type 0 where
  api_key_field bitcoin_address_field url_field worker_name_field hex_field : Field

abbrev pub name_of : Field → String
name_of api_key_field = "api_key"
name_of bitcoin_address_field = "bitcoin_address"
name_of url_field = "url"
name_of worker_name_field = "worker_name"
name_of hex_field = "hex"

-- What is left of a value for each field, step by step: trimmed, then without tags, queries and
-- scripts; the spaces of an address and of a worker's name are normalized, and the letters of a hex
-- string lowered.
unfoldable pub cleaned : Texts → Field → String → String
cleaned tx f value =
    let inert =
      strip_script_patterns tx (strip_sql_patterns tx (strip_html_tags tx (tx.trim value))) in
    elim f [
      | api_key_field ↦ inert
      | bitcoin_address_field ↦ normalize_spaces tx inert
      | url_field ↦ inert
      | worker_name_field ↦ normalize_spaces tx inert
      | hex_field ↦ tx.to_lowercase inert
    ]

module _ (F : Foreign) {fl : Floats} {tx : Texts} where
  unfoldable pub validate_by : Field → String → InputValidator fl tx → Result F String
  validate_by api_key_field = validate_api_key
  validate_by bitcoin_address_field = validate_bitcoin_address
  validate_by url_field = validate_url
  validate_by worker_name_field = validate_worker_name
  validate_by hex_field = validate_hex_string
