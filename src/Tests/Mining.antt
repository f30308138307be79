-- ===== src/Tests/Mining.antt =====
-- The theorems on sv2-core/src/types.rs and sv2-core/src/share_validator.rs at a small validator.
use stratum_v2_tools.Common.{
  String, [], arith, false, nat_eq, none, refl, some, string_eq, true, ℕ, ◌↔◌, ◌∷◌, ◌≡◌,
}
use stratum_v2_tools.Common.Floats.{whole_floats}
use stratum_v2_tools.Common.Map.{contains_key, get, insert, retain}
use stratum_v2_tools.Common.Words.{abs_i64, add_u32, as_u32, is_negative_i64}
use stratum_v2_tools.Error.{Error, err, ok}
use stratum_v2_tools.Mining.Accepted.{validate_proof_of_work_block_iff}
use stratum_v2_tools.Mining.Chain.{toy_chain}
use stratum_v2_tools.Mining.Headers.{
  backwards, calculate_block_hash, from_be_bytes, hash_meets_target, repeat, take,
}
use stratum_v2_tools.Mining.Replay.{after_sent, no_replay}
use stratum_v2_tools.Mining.Types.{
  Connection, Share, ShareSubmission, WorkTemplate, is_expired_template, seconds, share_block,
  share_valid, state_connected, sv2,
}
use stratum_v2_tools.Mining.Validator.{
  Message, Readings, ShareValidator, ShareValidatorConfig, answer_cleaned, block_of,
  check_duplicate_share, cleanup_old_shares, difficulty_to_target, get_template, has_cutoff,
  is_recent, judge, judge_hash, record_share, validate_against_template, validate_basic_share_data,
  validate_proof_of_work, validate_share,
}
use stratum_v2_tools.Tests.Systems.{no_foreign}

abbrev no_format : Message whole_floats → String
no_format m = "message"

abbrev a_template : WorkTemplate whole_floats toy_chain
a_template = record {
  id = 7;
  previous_hash = tt;
  coinbase_tx = tt;
  transactions = tt ∷ [];
  difficulty = some 1;
  timestamp = 900;
  expires_at = 2_000_000_000_000;
}

abbrev a_share : ℕ → Share whole_floats toy_chain
a_share nonce = record {
  connection_id = 1;
  nonce = nonce;
  timestamp = 1000;
  difficulty = some 1;
  is_valid = false;
  block_hash = none;
  submitted_at = 1_000_000_000_000;
}

abbrev a_submission : ℕ → ShareSubmission whole_floats toy_chain
a_submission nonce = record {
  connection_id = 1;
  job_id = "job";
  worker_name = "worker";
  nonce = nonce;
  timestamp = 1000;
  extranonce2 = 5 ∷ [];
  share = a_share nonce;
}

abbrev a_validation : ShareValidatorConfig whole_floats toy_chain
a_validation = record {
  min_difficulty = some 1;
  max_difficulty = some 1000;
  max_share_age_seconds = 300;
  enable_duplicate_detection = true;
  duplicate_window_seconds = 3600;
  enable_block_detection = false;
  network_target = 0;
}

abbrev a_validator : ShareValidator whole_floats toy_chain
a_validator = record { config = a_validation; recent_shares = []; templates = (7, a_template) ∷ [] }

abbrev now_at : ℕ → Readings
now_at s = record {
  basic = seconds s;
  expiry = seconds s;
  recorded = seconds s;
  cleaned = seconds s;
}

an_answer :
    (validate_share {F = no_foreign} no_format (now_at 1010) (a_submission 3) a_validator).1
    ≡ some (ok share_valid)
unfolding validate_share judge validate_basic_share_data get_template get validate_against_template
    is_expired_template check_duplicate_share contains_key validate_proof_of_work
    difficulty_to_target judge_hash hash_meets_target from_be_bytes backwards take
    calculate_block_hash as_u32 add_u32 answer_cleaned cleanup_old_shares has_cutoff is_recent
    abs_i64 is_negative_i64 retain record_share insert
an_answer = refl

no_replay_example :
    let w =
      after_sent no_foreign no_format
        (validate_share {F = no_foreign} no_format (now_at 1010) (a_submission 3) a_validator).0
        (record { at = now_at 1011; submission = a_submission 4 } ∷ []) in
    (e : Error no_foreign) × (validate_share {F = no_foreign} no_format
        (now_at 1012)
        (a_submission 3)
        w
      ≡ (w, some (err e)))
no_replay_example =
    no_replay no_foreign no_format (now_at 1010) (now_at 1012) (a_submission 3) (a_submission 3)
      (record { at = now_at 1011; submission = a_submission 4 } ∷ []) a_validator share_valid refl
      (omega arith) tt an_answer (omega arith) (omega arith, tt) refl

-- A window of 2 ^ 64 - 1 seconds is one of -1 second: the share is forgotten at once.
abbrev endless : ShareValidator whole_floats toy_chain
endless = record a_validator {
  config = record a_validation { duplicate_window_seconds = 18_446_744_073_709_551_615 };
}

endless_forgets :
    (validate_share {F = no_foreign} no_format (now_at 1010) (a_submission 3) endless).0 ≡ endless
unfolding validate_share judge validate_basic_share_data get_template get validate_against_template
    is_expired_template check_duplicate_share contains_key validate_proof_of_work
    difficulty_to_target judge_hash hash_meets_target from_be_bytes backwards take
    calculate_block_hash as_u32 add_u32 answer_cleaned cleanup_old_shares has_cutoff is_recent
    abs_i64 is_negative_i64 retain record_share insert
endless_forgets = refl

-- Blocks are looked for, and the hash of zeros meets every target.
abbrev finding : ShareValidatorConfig whole_floats toy_chain
finding = record a_validation { enable_block_detection = true }

validate_proof_of_work_block_iff_example :
    (validate_proof_of_work {F = no_foreign} no_format finding (a_share 3) a_template (5 ∷ [])
      ≡ ok (share_block (tt {0})))
    ↔ ((false ≡ false)
        × (true ≡ true)
        × (true ≡ true)
        × (true ≡ true)
        × (some (tt {0}) ≡ some (tt {0})))
validate_proof_of_work_block_iff_example =
    validate_proof_of_work_block_iff {F = no_foreign} no_format finding (a_share 3) a_template
      (5 ∷ []) (repeat 28) 0 0 0 0 tt refl

a_block_is_found :
    validate_proof_of_work {F = no_foreign} no_format finding (a_share 3) a_template (5 ∷ [])
    ≡ ok (share_block (tt {0}))
unfolding validate_proof_of_work difficulty_to_target judge_hash hash_meets_target from_be_bytes
    backwards take calculate_block_hash block_of
a_block_is_found = refl

abbrev nan_share : Share whole_floats toy_chain
nan_share = record (a_share 3) { difficulty = none }

abbrev a_socket : Connection
a_socket = record {
  id = 1;
  address = "10.0.0.1:3333";
  protocol = sv2;
  state = state_connected;
  connected_at = 0;
  last_activity = 0;
}
