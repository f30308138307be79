-- ===== src/Validation/Validator.antt =====
-- `InputValidator` of sv2-core/src/validation.rs.
use Prim.Native.String.{len}
use stratum_v2_tools.Common.{
  Bool, List, Option, String, [], false, if◌then◌else◌, inl, inr, length, ltb, nat_eq, none, not,
  some, string_eq, true, ◌&&◌, ◌++◌, ◌==◌, ◌||◌, ◌∷◌,
}
use stratum_v2_tools.Common.Floats.{Floats}
use stratum_v2_tools.Common.Map.{Map, get, insert}
use stratum_v2_tools.Common.Text.{is_empty, show, ◌<>◌}
use stratum_v2_tools.Error.{Error, Foreign, Result, err, ok, ◌>>=◌}
use stratum_v2_tools.Validation.Sanitize.{sanitize_string}
use stratum_v2_tools.Validation.Types.{
  InputValidator, SanitizationOptions, Shown, Texts, ValidationConfig, ValidationError,
  ValidationErrorType, ValidationResult, accepted, default_options, invalid_format, invalid_type,
  malicious, malicious_patterns, out_of_range, refused, required, too_long, too_many_items,
}

unfoldable pub is_required_field : String → Bool
is_required_field f =
    (f == "api_key" || f == "bitcoin_address") || (f == "url" || f == "worker_name")

-- The end of each validation.
unfoldable pub verdict : List ValidationError → ValidationResult
verdict [] = accepted
verdict (e ∷ es) = refused (e ∷ es)

-- `join(", ")` of the messages.
unfoldable pub join_messages : List ValidationError → String
join_messages [] = ""
join_messages (e ∷ []) = e.message
join_messages (e ∷ es) = e.message <> ", " <> join_messages es

abbrev fault : String → ValidationErrorType → String → Option String → ValidationError
fault field kind message value = record {
  field = field;
  error_type = kind;
  message = message;
  value = value;
}

-- The loop of `contains_malicious_patterns`.
unfoldable pub matches_any : (tx : Texts) → List String → String → Bool
matches_any tx [] s = false
matches_any tx (p ∷ ps) s =
    let rest = matches_any tx ps s in
    elim (tx.compile p) [ inl _ ↦ rest | inr r ↦ if tx.is_match r s then true else rest ]

unfoldable pub contains_malicious_patterns : (tx : Texts) → String → Bool
unfolding matches_any
contains_malicious_patterns tx s = matches_any tx malicious_patterns s

-- The loop of `new` over the patterns.
unfoldable pub compile_patterns :
    {F : Foreign} (tx : Texts)
    → Map String String
    → Map String tx.Regex
    → Result F (Map String tx.Regex)
compile_patterns tx [] done = ok done
compile_patterns tx ((key, pattern) ∷ rest) done = elim (tx.compile pattern) [
  | inl e ↦ err (Error.config ("Invalid regex pattern for " <> key <> ": " <> e))
  | inr r ↦ compile_patterns tx rest (insert key r done)
]

module _ {fl : Floats} {tx : Texts} where
  unfoldable pub length_faults :
      InputValidator fl tx → String → String → String → List ValidationError
  length_faults v field value input_type = elim (get input_type v.config.max_lengths) [
    | none ↦ []
    | some max ↦
        if ltb max (len value)
        then fault field too_long ("Field '" <> field <> "' exceeds maximum length of " <> show max)
            (some value)
          ∷ []
        else []
  ]

  unfoldable pub format_faults :
      InputValidator fl tx → String → String → String → List ValidationError
  format_faults v field value input_type = elim (get input_type v.patterns) [
    | none ↦ []
    | some r ↦
        if not (tx.is_match r value)
        then fault field invalid_format ("Field '" <> field <> "' has invalid format") (some value)
          ∷ []
        else []
  ]

  unfoldable pub malice_faults : InputValidator fl tx → String → String → List ValidationError
  unfolding contains_malicious_patterns
  malice_faults v field value =
      if v.config.strict_mode && contains_malicious_patterns tx value
      then fault field malicious ("Field '" <> field <> "' contains potentially malicious content")
          (some value)
        ∷ []
      else []

  unfoldable pub validate_string :
      InputValidator fl tx → String → String → String → ValidationResult
  unfolding length_faults format_faults malice_faults verdict is_required_field
  validate_string v field value input_type =
      if is_empty value && is_required_field field
      then refused (fault field required ("Field '" <> field <> "' is required") none ∷ [])
      else if is_empty value
      then accepted
      else verdict (
          length_faults v field value input_type
          ++ (format_faults v field value input_type ++ malice_faults v field value))

  unfoldable pub range_faults :
      Shown fl → InputValidator fl tx → String → fl.F64 → String → List ValidationError
  range_faults sh v field value numeric_type = elim (get numeric_type v.config.numeric_ranges) [
    | none ↦ []
    | some range ↦
        if fl.lt value range.min || fl.lt range.max value
        then fault field out_of_range
            ("Field '"
              <> field
              <> "' must be between "
              <> sh.show_f64 range.min
              <> " and "
              <> sh.show_f64 range.max)
            (some (sh.show_f64 value))
          ∷ []
        else []
  ]

  unfoldable pub validate_numeric :
      Shown fl → InputValidator fl tx → String → fl.F64 → String → ValidationResult
  unfolding range_faults verdict
  validate_numeric sh v field value numeric_type = verdict (
      range_faults sh v field value numeric_type
      ++ (if not (sh.is_finite value)
          then fault field invalid_type ("Field '" <> field <> "' must be a finite number")
              (some (sh.show_f64 value))
            ∷ []
          else []))

  unfoldable pub validate_collection {ℓ} :
      {T : Type ℓ} → InputValidator fl tx → String → List T → String → ValidationResult
  unfolding verdict
  validate_collection v field collection collection_type =
      elim (get collection_type v.config.max_collection_sizes) [
        | none ↦ accepted
        | some max ↦
            if ltb max (length collection)
            then refused (
                fault field too_many_items
                  ("Field '" <> field <> "' exceeds maximum size of " <> show max)
                  (some (show (length collection)))
                ∷ [])
            else accepted
      ]

  module _ {F : Foreign} where
    unfoldable pub new_input_validator : ValidationConfig fl → Result F (InputValidator fl tx)
    unfolding compile_patterns
    new_input_validator config = do
      patterns ← compile_patterns tx config.allowed_patterns []
      ok (record { config = config; patterns = patterns })

    -- The common form of the five validations of a field.
    unfoldable pub validate_field :
        (String → Error F)
        → SanitizationOptions
        → String
        → String
        → InputValidator fl tx
        → Result F String
    unfolding validate_string sanitize_string join_messages
    validate_field fail options field value v = elim (validate_string v field value field) [
      | accepted ↦ ok (sanitize_string tx options value)
      | refused errors ↦ err (fail (join_messages errors))
    ]

    unfoldable pub validate_api_key : String → InputValidator fl tx → Result F String
    unfolding validate_field
    validate_api_key value v =
        validate_field (λ m. Error.authentication ("Invalid API key: " <> m))
          (record default_options { normalize_whitespace = false }) "api_key" value v

    unfoldable pub validate_bitcoin_address : String → InputValidator fl tx → Result F String
    unfolding validate_field
    validate_bitcoin_address value v =
        validate_field (λ m. Error.config ("Invalid Bitcoin address: " <> m)) default_options
          "bitcoin_address" value v

    unfoldable pub validate_url : String → InputValidator fl tx → Result F String
    unfolding validate_field
    validate_url value v =
        validate_field (λ m. Error.config ("Invalid URL: " <> m))
          (record default_options { normalize_whitespace = false }) "url" value v

    unfoldable pub validate_worker_name : String → InputValidator fl tx → Result F String
    unfolding validate_field
    validate_worker_name value v =
        validate_field (λ m. Error.config ("Invalid worker name: " <> m)) default_options
          "worker_name" value v

    unfoldable pub validate_hex_string : String → InputValidator fl tx → Result F String
    unfolding validate_field
    validate_hex_string value v =
        validate_field (λ m. Error.protocol ("Invalid hex string: " <> m))
          (record default_options { normalize_whitespace = false; to_lowercase = true }) "hex" value
          v
