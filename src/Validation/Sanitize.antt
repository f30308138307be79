-- ===== src/Validation/Sanitize.antt =====
-- `sanitize_string` of sv2-core/src/validation.rs and the functions it calls.
use stratum_v2_tools.Common.{List, String, [], if◌then◌else◌, inl, inr, nat_eq, string_eq, ◌∷◌}
use stratum_v2_tools.Validation.Types.{SanitizationOptions, Texts, script_patterns, sql_patterns}

module _ (tx : Texts) where
  -- `replace_all` of each pattern that compiles.
  unfoldable pub strip_patterns : List String → String → String
  strip_patterns [] s = s
  strip_patterns (p ∷ ps) s = elim (tx.compile p) [
    | inl _ ↦ strip_patterns ps s
    | inr r ↦ strip_patterns ps (tx.replace_all r s "")
  ]

  unfoldable pub strip_sql_patterns : String → String
  unfolding strip_patterns
  strip_sql_patterns s = strip_patterns sql_patterns s

  unfoldable pub strip_script_patterns : String → String
  unfolding strip_patterns
  strip_script_patterns s = strip_patterns script_patterns s

  -- The pattern is a constant that compiles; the source panics if it does not.
  unfoldable pub strip_html_tags : String → String
  strip_html_tags s = elim (tx.compile "<[^>]*>") [ inl _ ↦ s | inr r ↦ tx.replace_all r s "" ]

  unfoldable pub normalize_spaces : String → String
  normalize_spaces s = elim (tx.compile "\\s+") [
    | inl _ ↦ s
    | inr r ↦ tx.replace_all r (tx.trim s) " "
  ]

  unfoldable pub sanitize_string : SanitizationOptions → String → String
  unfolding strip_html_tags strip_sql_patterns strip_script_patterns normalize_spaces
  sanitize_string o s =
      let trimmed = if o.trim then tx.trim s else s in
      let plain = if o.strip_html then strip_html_tags trimmed else trimmed in
      let queried = if o.strip_sql then strip_sql_patterns plain else plain in
      let inert = if o.strip_scripts then strip_script_patterns queried else queried in
      let spaced = if o.normalize_whitespace then normalize_spaces inert else inert in
      if o.to_lowercase then tx.to_lowercase spaced else spaced
