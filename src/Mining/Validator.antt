-- ===== src/Mining/Validator.antt =====
-- `ShareValidator` of sv2-core/src/share_validator.rs. A clock reading is in nanoseconds since 1970.
-- A message that the source formats is the text that `format` gives for its parts.
use stratum_v2_tools.Common.{
  ==_iff, Bool, Eq, List, Option, String, [], arith, if◌then◌else◌, leb, length, ltb, nat_eq, none,
  not, some, string_eq, true, ℕ, ◌&&◌, ◌+◌, ◌-◌, ◌==◌, ◌↔◌, ◌≡◌,
}
use stratum_v2_tools.Common.Floats.{Floats}
use stratum_v2_tools.Common.Map.{Map, contains_key, get, insert, retain}
use stratum_v2_tools.Common.Words.{abs_i64, add_u32, as_u32, is_negative_i64}
use stratum_v2_tools.Error.{
  Foreign, Result, duplicate_share, err, expired_template, invalid_difficulty, invalid_nonce,
  invalid_timestamp, malformed_data, ok, share_validation, template_not_found, ◌>>=◌,
}
use stratum_v2_tools.Mining.Chain.{Chain}
use stratum_v2_tools.Mining.Headers.{build_block_header, calculate_block_hash, hash_meets_target}
use stratum_v2_tools.Mining.Types.{
  Share, ShareResult, ShareSubmission, WorkTemplate, is_expired_template, seconds, share_block,
  share_invalid, share_valid, unix_seconds,
}

pub record ShareValidatorConfig (fl : Floats) (ch : Chain) : Type 0 where
  pub min_difficulty : fl.F64
  pub max_difficulty : fl.F64
  pub max_share_age_seconds : ℕ
  pub enable_duplicate_detection : Bool
  pub duplicate_window_seconds : ℕ
  pub enable_block_detection : Bool
  pub network_target : ch.Target

-- `ShareValidatorConfig::default`; the network target is the greatest one.
abbrev pub default_validation : (fl : Floats) (ch : Chain) → ch.Target → ShareValidatorConfig fl ch
default_validation fl ch greatest = record {
  min_difficulty = fl.decimal "0.001";
  max_difficulty = fl.decimal "1000000.0";
  max_share_age_seconds = 300;
  enable_duplicate_detection = true;
  duplicate_window_seconds = 3600;
  enable_block_detection = true;
  network_target = greatest;
}

-- `ShareHash`: the connection, the nonce and the time stamp.
abbrev pub ShareHash : Type 0
ShareHash = (connection_id : ℕ) × (nonce : ℕ) × ℕ

abbrev pub share_hash : {fl : Floats} {ch : Chain} → Share fl ch → ShareHash
share_hash share = (share.connection_id, share.nonce, share.timestamp)

pub share_beq_iff :
    (g h : ShareHash) → ((g.0 == h.0 && (g.1 == h.1 && g.2 == h.2)) ≡ true) ↔ (g ≡ h)
share_beq_iff g h = ground (arith, ==_iff g.0 h.0, ==_iff g.1 h.1, ==_iff g.2 h.2)

instance abbrev pub share_eq : Eq ShareHash
share_eq = record {
  same = λ g h. g.0 == h.0 && (g.1 == h.1 && g.2 == h.2);
  same_iff = share_beq_iff;
}

pub record ShareValidator (fl : Floats) (ch : Chain) : Type 0 where
  pub config : ShareValidatorConfig fl ch
  pub recent_shares : Map ShareHash ℕ
  pub templates : Map ℕ (WorkTemplate fl ch)

pub record ShareValidatorStats (fl : Floats) : Type 0 where
  pub active_templates : ℕ
  pub recent_shares_tracked : ℕ
  pub duplicate_window_seconds : ℕ
  pub min_difficulty : fl.F64
  pub max_difficulty : fl.F64

-- The messages that are formatted, with their parts.
pub data Message (fl : Floats) : Type 0 where
  below_minimum above_maximum : fl.F64 → fl.F64 → Message fl
  too_old too_far : ℕ → Message fl
  bad_job_id no_template : String → Message fl
  expired_at : ℕ → ℕ → Message fl
  before_template : ℕ → ℕ → Message fl
  duplicate : ℕ → ℕ → Message fl
  bad_block_hash : String → Message fl

-- The clock where the validation reads it.
pub record Readings : Type 0 where
  pub basic : ℕ
  pub expiry : ℕ
  pub recorded : ℕ
  pub cleaned : ℕ

module _ {fl : Floats} {ch : Chain} where
  unfoldable pub new_validator : ShareValidatorConfig fl ch → ShareValidator fl ch
  new_validator config = record { config = config; recent_shares = []; templates = [] }

  unfoldable pub add_template : WorkTemplate fl ch → ShareValidator fl ch → ShareValidator fl ch
  add_template template v = record v { templates = insert template.id template v.templates }

  unfoldable pub cleanup_expired_templates : ℕ → ShareValidator fl ch → ShareValidator fl ch
  cleanup_expired_templates now v = record v {
    templates = retain (λ _ template. ltb now template.expires_at) v.templates;
  }

  unfoldable pub record_share : ℕ → Share fl ch → ShareValidator fl ch → ShareValidator fl ch
  record_share now share v = record v {
    recent_shares = insert (share_hash share) now v.recent_shares;
  }

  -- `Duration::seconds` takes at most i64::MAX / 1000 in either direction, and `now - window` has to
  -- be a date; otherwise they panic.
  unfoldable pub has_cutoff : ShareValidatorConfig fl ch → ℕ → Bool
  has_cutoff c now =
      let window = c.duplicate_window_seconds in
      leb (abs_i64 window) 9_223_372_036_854_775
      && (if is_negative_i64 window
          then leb (now + seconds (abs_i64 window)) ch.latest
          else leb (seconds (abs_i64 window)) (now + ch.earliest))

  -- `timestamp > now - window`, where the window may be negative.
  unfoldable pub is_recent : ShareValidatorConfig fl ch → ℕ → ℕ → Bool
  is_recent c now timestamp =
      let window = c.duplicate_window_seconds in
      if is_negative_i64 window
      then ltb (now + seconds (abs_i64 window)) timestamp
      else ltb now (timestamp + seconds (abs_i64 window))

  -- `none` is a panic, before anything has changed.
  unfoldable pub cleanup_old_shares : ℕ → ShareValidator fl ch → Option (ShareValidator fl ch)
  unfolding has_cutoff is_recent
  cleanup_old_shares now v =
      if has_cutoff v.config now
      then some (record v {
        recent_shares = retain (λ _ timestamp. is_recent v.config now timestamp) v.recent_shares;
      })
      else none

  unfoldable pub get_stats : ShareValidator fl ch → ShareValidatorStats fl
  get_stats v = record {
    active_templates = length v.templates;
    recent_shares_tracked = length v.recent_shares;
    duplicate_window_seconds = v.config.duplicate_window_seconds;
    min_difficulty = v.config.min_difficulty;
    max_difficulty = v.config.max_difficulty;
  }

unfoldable pub difficulty_to_target :
    {F : Foreign} (fl : Floats) (ch : Chain) → fl.F64 → Result F ch.Target
difficulty_to_target fl ch difficulty =
    if fl.le difficulty (fl.of_nat 0)
    then err (share_validation (invalid_difficulty "Difficulty must be positive"))
    else ok (ch.from_compact (fl.to_u32 (fl.div (fl.of_nat 486604799) difficulty)))

module _ {fl : Floats} {ch : Chain} {F : Foreign} (format : Message fl → String) where
  unfoldable pub validate_basic_share_data :
      ShareValidatorConfig fl ch → ℕ → Share fl ch → Result F (Unit {0})
  validate_basic_share_data c clock share =
      let now = as_u32 (unix_seconds clock) in
      if fl.lt share.difficulty c.min_difficulty
      then err (
          share_validation
            (invalid_difficulty (format (below_minimum share.difficulty c.min_difficulty))))
      else if fl.lt c.max_difficulty share.difficulty
      then err (
          share_validation
            (invalid_difficulty (format (above_maximum share.difficulty c.max_difficulty))))
      else if ltb share.timestamp (now - as_u32 c.max_share_age_seconds)
      then err (share_validation (invalid_timestamp (format (too_old share.timestamp))))
      else if ltb (add_u32 now 300) share.timestamp
      then err (share_validation (invalid_timestamp (format (too_far share.timestamp))))
      else if share.nonce == 0
      then err (share_validation (invalid_nonce "Nonce cannot be zero"))
      else ok tt

  unfoldable pub get_template : ShareValidator fl ch → String → Result F (WorkTemplate fl ch)
  get_template v job_id = elim (ch.parse_uuid job_id) [
    | none ↦ err (share_validation (malformed_data (format (bad_job_id job_id))))
    | some template_id ↦ elim (get template_id v.templates) [
      | none ↦ err (share_validation (template_not_found (format (no_template job_id))))
      | some template ↦ ok template
    ]
  ]

  unfoldable pub validate_against_template :
      ℕ → Share fl ch → WorkTemplate fl ch → Result F (Unit {0})
  unfolding is_expired_template
  validate_against_template now share template =
      if is_expired_template now template
      then err (
          share_validation (expired_template (format (expired_at template.id template.expires_at))))
      else if ltb share.timestamp template.timestamp
      then err (
          share_validation
            (invalid_timestamp (format (before_template share.timestamp template.timestamp))))
      else ok tt

  unfoldable pub check_duplicate_share : ShareValidator fl ch → Share fl ch → Result F (Unit {0})
  check_duplicate_share v share =
      if contains_key (share_hash share) v.recent_shares
      then err
          (share_validation (duplicate_share (format (duplicate share.nonce share.connection_id))))
      else ok tt

  -- The block hash of a hash that meets the network's target.
  unfoldable pub block_of : List ℕ → Result F (ShareResult ch)
  block_of hash = elim (ch.parse_hash (ch.hex_encode hash)) [
    | none ↦ err (share_validation (malformed_data (format (bad_block_hash (ch.hex_encode hash)))))
    | some block_hash ↦ ok (share_block block_hash)
  ]

  -- What a hash is worth against the target of the share.
  unfoldable pub judge_hash :
      ShareValidatorConfig fl ch → List ℕ → ch.Target → Result F (ShareResult ch)
  unfolding block_of hash_meets_target
  judge_hash c hash target =
      if not (hash_meets_target ch hash target)
      then ok (share_invalid "Hash does not meet target difficulty")
      else if c.enable_block_detection && hash_meets_target ch hash c.network_target
      then block_of hash
      else ok share_valid

  unfoldable pub validate_proof_of_work :
      ShareValidatorConfig fl ch
      → Share fl ch
      → WorkTemplate fl ch
      → List ℕ
      → Result F (ShareResult ch)
  unfolding difficulty_to_target judge_hash build_block_header calculate_block_hash
  validate_proof_of_work c share template extranonce2 = do
    target ← difficulty_to_target fl ch share.difficulty
    judge_hash c (calculate_block_hash ch (build_block_header share template extranonce2)) target

  -- The checks of `validate_share`, up to the first error.
  unfoldable pub judge :
      Readings → ShareSubmission fl ch → ShareValidator fl ch → Result F (ShareResult ch)
  unfolding validate_basic_share_data get_template validate_against_template check_duplicate_share
      validate_proof_of_work
  judge at submission v = do
    _ ← validate_basic_share_data v.config at.basic submission.share
    template ← get_template v submission.job_id
    _ ← validate_against_template at.expiry submission.share template
    _ ←
        (if v.config.enable_duplicate_detection
          then check_duplicate_share v submission.share
          else ok tt)
    validate_proof_of_work v.config submission.share template submission.extranonce2

  -- The clean-up behind a share that was judged; a panic there leaves no answer.
  unfoldable pub answer_cleaned :
      ℕ
      → ShareResult ch
      → ShareValidator fl ch
      → ShareValidator fl ch × Option (Result F (ShareResult ch))
  unfolding cleanup_old_shares
  answer_cleaned now work_result v = elim (cleanup_old_shares now v) [
    | none ↦ (v, none)
    | some cleaned ↦ (cleaned, some (ok work_result))
  ]

  unfoldable pub validate_share :
      Readings
      → ShareSubmission fl ch
      → ShareValidator fl ch
      → ShareValidator fl ch × Option (Result F (ShareResult ch))
  unfolding judge record_share answer_cleaned
  validate_share at submission v = elim (judge at submission v) [
    | err e ↦ (v, some (err e))
    | ok work_result ↦ answer_cleaned at.cleaned work_result (
        if v.config.enable_duplicate_detection
        then record_share at.recorded submission.share v
        else v)
  ]
