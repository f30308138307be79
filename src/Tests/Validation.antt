-- ===== src/Tests/Validation.antt =====
-- The theorems on sv2-core/src/validation.rs at a small validator and a small limiter.
use stratum_v2_tools.Common.{
  All, String, [], arith, count_by, false, inr, min, nat_eq, none, refl, some, string_eq, true, ◌↔◌,
  ◌∷◌, ◌≡◌, ◌⊎◌,
}
use stratum_v2_tools.Common.Floats.{whole_floats}
use stratum_v2_tools.Common.Map.{IsMap, get, insert}
use stratum_v2_tools.Common.Text.{is_empty, starts_with}
use stratum_v2_tools.Error.{ok}
use stratum_v2_tools.Tests.Systems.{no_foreign}
use stratum_v2_tools.Validation.Accepted.{
  KeepsFormat, KeepsLength, KeepsPeace, validate_string_accepted_iff,
}
use stratum_v2_tools.Validation.Fields.{
  validate_by, validate_numeric_accepted_iff, worker_name_field,
}
use stratum_v2_tools.Validation.Limiter.{RateLimitConfig, RateLimiter, RequestCount}
use stratum_v2_tools.Validation.Sanitize.{
  normalize_spaces, sanitize_string, strip_html_tags, strip_patterns, strip_script_patterns,
  strip_sql_patterns,
}
use stratum_v2_tools.Validation.Types.{
  InputValidator, NumericRange, Shown, Texts, accepted, default_rules,
}
use stratum_v2_tools.Validation.Validator.{
  compile_patterns, contains_malicious_patterns, format_faults, is_required_field, length_faults,
  malice_faults, matches_any, new_input_validator, validate_field, validate_numeric,
  validate_string, validate_worker_name, verdict,
}
use stratum_v2_tools.Validation.Window.{
  Fits, run_requests, run_requests-window, run_requests_blocked,
}

-- Patterns are texts, and one that is anchored matches everything.
abbrev anchored : Texts
anchored = record {
  Regex = String;
  compile = λ p. inr p;
  is_match = λ r s. starts_with r "^";
  replace_all = λ r s t. s;
  trim = λ s. s;
  to_lowercase = λ s. s;
}

abbrev whole_numbers : Shown whole_floats
whole_numbers = record {
  is_finite = λ x. elim x [ none ↦ false | some _ ↦ true ];
  show_f64 = λ _. "number";
}

abbrev a_validator : InputValidator whole_floats anchored
a_validator = record {
  config = default_rules whole_floats;
  patterns = (default_rules whole_floats).allowed_patterns;
}

validator_made : new_input_validator {F = no_foreign} (default_rules whole_floats) ≡ ok a_validator
unfolding new_input_validator compile_patterns insert
validator_made = refl

patterns_IsMap : IsMap (default_rules whole_floats).allowed_patterns
unfolding get
patterns_IsMap = (refl, (refl, (refl, (refl, (refl, (refl, (refl, (refl, (refl, tt)))))))))

validate_string_accepted_iff_example :
    (validate_string a_validator "worker_name" "rig.1" "worker_name" ≡ accepted) ↔ (
      ((is_empty "rig.1" ≡ true) × (is_required_field "worker_name" ≡ false))
      ⊎ ((is_empty "rig.1" ≡ false)
          × KeepsLength (default_rules whole_floats) "rig.1" "worker_name"
          × KeepsFormat anchored (default_rules whole_floats) "rig.1" "worker_name"
          × KeepsPeace anchored (default_rules whole_floats) "rig.1"))
validate_string_accepted_iff_example =
    validate_string_accepted_iff no_foreign (default_rules whole_floats) a_validator "worker_name"
      "rig.1" "worker_name" patterns_IsMap validator_made

validate_numeric_accepted_iff_example :
    (validate_numeric whole_numbers a_validator "port" (some 3333) "port" ≡ accepted) ↔ (
      (whole_numbers.is_finite (some 3333) ≡ true)
      × ((range : NumericRange whole_floats)
          → get "port" (default_rules whole_floats).numeric_ranges ≡ some range
          → (whole_floats.lt (some 3333) range.min ≡ false)
            × (whole_floats.lt range.max (some 3333) ≡ false)))
validate_numeric_accepted_iff_example =
    validate_numeric_accepted_iff whole_numbers a_validator "port" (some 3333) "port"

a_rig_is_accepted : validate_by no_foreign worker_name_field "rig.1" a_validator ≡ ok "rig.1"
unfolding validate_by validate_worker_name validate_field validate_string length_faults
    format_faults malice_faults contains_malicious_patterns matches_any verdict is_required_field
    is_empty get sanitize_string strip_html_tags strip_sql_patterns strip_script_patterns
    strip_patterns normalize_spaces starts_with
a_rig_is_accepted = refl

-- Two requests in ten seconds, then a block of twenty.
abbrev a_limit : RateLimitConfig
a_limit = record { max_requests = 2; window_duration = 10; block_duration = 20 }

abbrev fresh_limiter : RateLimiter
fresh_limiter = record { request_counts = []; config = a_limit }

abbrev used_up : RequestCount
used_up = record { count = 2; window_start = 100; blocked_until = none }

abbrev used_limiter : RateLimiter
used_limiter = record { request_counts = ("web", used_up) ∷ []; config = a_limit }

limit_Fits : Fits a_limit
limit_Fits = (omega arith, omega arith)

run_requests-window_example :
    count_by (λ b. b) (run_requests "web" (100 ∷ 103 ∷ 105 ∷ []) fresh_limiter) ≡ min 3 2
unfolding get
run_requests-window_example =
    run_requests-window "web" 100 (103 ∷ 105 ∷ []) fresh_limiter limit_Fits refl (
      (omega arith, omega arith, omega arith),
      ((omega arith, omega arith, omega arith), ((omega arith, omega arith, omega arith), tt)),
    )

run_requests_blocked_example :
    All (λ a. a ≡ false) (run_requests "web" (105 ∷ 115 ∷ 124 ∷ []) used_limiter)
unfolding get
run_requests_blocked_example =
    run_requests_blocked "web" 105 (115 ∷ 124 ∷ []) used_limiter used_up limit_Fits refl
      (omega arith, omega arith, omega arith) refl (omega arith) (omega arith)
      (omega arith, (omega arith, tt))
