-- ===== src/Validation/Accepted.antt =====
-- What the validator of sv2-core/src/validation.rs accepts.
use Prim.Native.String.{len}
use stratum_v2_tools.Common.{
  ==_iff, Bool-cases, List, Option, Option-cases, String, [], ap, arith, false, inl, inr, nat_eq,
  none, some, string_eq, subst, sum_cases, sym, true, ℕ, ◌++◌, ◌==◌, ◌↔◌, ◌∙◌, ◌∷◌, ◌≡◌, ◌≤◌, ◌⊎◌,
}
use stratum_v2_tools.Common.Floats.{Floats}
use stratum_v2_tools.Common.Map.{IsMap, Map, get, get-insert, insert}
use stratum_v2_tools.Common.Text.{is_empty}
use stratum_v2_tools.Error.{Foreign, bind-ok, ok, ok-injective}
use stratum_v2_tools.Validation.Types.{
  InputValidator, Texts, ValidationConfig, ValidationError, accepted,
}
use stratum_v2_tools.Validation.Validator.{
  compile_patterns, contains_malicious_patterns, format_faults, is_required_field, length_faults,
  malice_faults, new_input_validator, validate_string, verdict,
}

-- A value keeps the rules that the configuration has for its type.
abbrev pub KeepsLength : {fl : Floats} → ValidationConfig fl → String → String → Type 0
KeepsLength config value input_type =
    (limit : ℕ) → get input_type config.max_lengths ≡ some limit → len value ≤ limit

abbrev pub KeepsFormat : {fl : Floats} (tx : Texts) → ValidationConfig fl → String → String → Type 0
KeepsFormat tx config value input_type =
    (p : String) (r : tx.Regex)
    → get input_type config.allowed_patterns ≡ some p
    → tx.compile p ≡ inr r
    → tx.is_match r value ≡ true

abbrev pub KeepsPeace : {fl : Floats} (tx : Texts) → ValidationConfig fl → String → Type 0
KeepsPeace tx config value =
    config.strict_mode ≡ true → contains_malicious_patterns tx value ≡ false

-- The pattern that stands for a type in a validator.
abbrev from_pattern : (tx : Texts) → Option String → Option tx.Regex → Option tx.Regex
from_pattern tx none before = before
from_pattern tx (some p) before = elim (tx.compile p) [ inl _ ↦ before | inr r ↦ some r ]

module _ (F : Foreign) (tx : Texts) where
  compile_patterns-get :
      (k : String) (ps : Map String String) (before after : Map String tx.Regex)
      → IsMap ps
      → compile_patterns {F = F} tx ps before ≡ ok after
      → get k after ≡ from_pattern tx (get k ps) (get k before)
  unfolding compile_patterns get
  compile_patterns-get k [] before after m h =
      ground (arith, ap (get k) (ok-injective before after h))
  compile_patterns-get k ((j, p) ∷ ps) before after (fresh, m) h = elim (sum_cases (tx.compile p)) [
    | inl (e, c) ↦ ground (arith, h, c)
    | inr (r, c) ↦
        let rest = compile_patterns-get k ps (insert j r before) after m (ground (arith, h, c)) in
        elim (Bool-cases (j == k)) [
          | inl hit ↦
              let absent = subst (λ x. get x ps ≡ none) ((==_iff j k).0 hit) fresh in
              ground (arith, rest, c, hit, absent, get-insert j k r before)
          | inr miss ↦ ground (arith, rest, c, miss, get-insert j k r before)
        ]
  ]

  new_input_validator-patterns :
      {fl : Floats} (config : ValidationConfig fl) (v : InputValidator fl tx) (k : String)
      → IsMap config.allowed_patterns
      → new_input_validator {F = F} config ≡ ok v
      → (v.config ≡ config)
        × (get k v.patterns ≡ from_pattern tx (get k config.allowed_patterns) none)
  unfolding new_input_validator get
  new_input_validator-patterns config v k m h =
      let (rs, c, e) = bind-ok (compile_patterns tx config.allowed_patterns []) _ v h in
      let same = ok-injective _ v e in
      (
        ap (λ x. x.config) (sym same),
        ap (λ x. get k x.patterns) (sym same)
            ∙ compile_patterns-get k config.allowed_patterns [] rs m c,
      )

module _ {fl : Floats} {tx : Texts} (v : InputValidator fl tx)
    (field value input_type : String) where
  length_faults-none :
      (length_faults v field value input_type ≡ []) ↔ KeepsLength v.config value input_type
  unfolding length_faults
  length_faults-none = (
    λ h limit e. ground (arith, h, e),
    λ h. elim (Option-cases (get input_type v.config.max_lengths)) [
      | inl e ↦ ground (arith, e)
      | inr (limit, e) ↦ ground (arith, e, h limit e)
    ],
  )

  format_faults-none :
      get input_type v.patterns ≡ from_pattern tx (get input_type v.config.allowed_patterns) none
      → (format_faults v field value input_type ≡ []) ↔ KeepsFormat tx v.config value input_type
  unfolding format_faults
  format_faults-none made = (
    λ h p r e c. ground (arith, h, made, e, c),
    λ h. elim (Option-cases (get input_type v.config.allowed_patterns)) [
      | inl e ↦ ground (arith, made, e)
      | inr (p, e) ↦ elim (sum_cases (tx.compile p)) [
        | inl (t, c) ↦ ground (arith, made, e, c)
        | inr (r, c) ↦ ground (arith, made, e, c, h p r e c)
      ]
    ],
  )

  malice_faults-none : (malice_faults v field value ≡ []) ↔ KeepsPeace tx v.config value
  unfolding malice_faults
  malice_faults-none = ground arith

-- Only three empty lists leave no fault.
verdict-accepted :
    (a b c : List ValidationError)
    → (verdict (a ++ (b ++ c)) ≡ accepted) ↔ ((a ≡ []) × (b ≡ []) × (c ≡ []))
unfolding verdict
verdict-accepted [] [] [] = ground arith
verdict-accepted [] [] (z ∷ c) = ground arith
verdict-accepted [] (y ∷ b) c = ground arith
verdict-accepted (x ∷ a) b c = ground arith

-- The validation in terms of what leaves each list of faults empty.
validate_string-parts :
    {fl : Floats} {tx : Texts} (v : InputValidator fl tx) (field value input_type : String)
    (L M N : Type 0)
    → (length_faults v field value input_type ≡ []) ↔ L
    → (format_faults v field value input_type ≡ []) ↔ M
    → (malice_faults v field value ≡ []) ↔ N
    → (validate_string v field value input_type ≡ accepted) ↔ (
        ((is_empty value ≡ true) × (is_required_field field ≡ false))
        ⊎ ((is_empty value ≡ false) × L × M × N))
unfolding validate_string
validate_string-parts v field value input_type L M N l m n = ground (
  arith,
  l,
  m,
  n,
  verdict-accepted (length_faults v field value input_type) (format_faults v field value input_type)
      (malice_faults v field value),
)

-- What a validator made from a configuration accepts: an empty value for a field that is not
-- required, or a value that is not empty, within the length for its type, of the format that a
-- compiled pattern gives to its type, and in strict mode without a malicious pattern.
pub validate_string_accepted_iff :
    (F : Foreign) {fl : Floats} {tx : Texts} (config : ValidationConfig fl)
    (v : InputValidator fl tx) (field value input_type : String)
    → IsMap config.allowed_patterns
    → new_input_validator {F = F} config ≡ ok v
    → (validate_string v field value input_type ≡ accepted) ↔ (
        ((is_empty value ≡ true) × (is_required_field field ≡ false))
        ⊎ ((is_empty value ≡ false)
            × KeepsLength config value input_type
            × KeepsFormat tx config value input_type
            × KeepsPeace tx config value))
validate_string_accepted_iff F {tx = tx} config v field value input_type m h =
    let (same, made) = new_input_validator-patterns F tx config v input_type m h in
    let made_here =
      subst
        (λ c. get input_type v.patterns ≡ from_pattern tx (get input_type c.allowed_patterns) none)
        (sym same) made in
    subst
      (λ c. (validate_string v field value input_type ≡ accepted) ↔ (
        ((is_empty value ≡ true) × (is_required_field field ≡ false))
        ⊎ ((is_empty value ≡ false)
            × KeepsLength c value input_type
            × KeepsFormat tx c value input_type
            × KeepsPeace tx c value)))
      same
      (validate_string-parts v field value input_type _ _ _
        (length_faults-none v field value input_type)
        (format_faults-none v field value input_type made_here)
        (malice_faults-none v field value input_type))
