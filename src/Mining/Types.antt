-- ===== src/Mining/Types.antt =====
-- The data types of sv2-core/src/types.rs and their small methods. A `Uuid` is a number; a `DateTime`
-- is its nanoseconds since 1970; a socket address is its printed form.
use stratum_v2_tools.Common.{
  Bool, List, Option, String, [], false, if◌then◌else◌, ltb, nat_eq, none, string_eq, ℕ, ◌*◌, ◌+◌,
  ◌-◌, ◌/◌,
}
use stratum_v2_tools.Common.Floats.{Floats}
use stratum_v2_tools.Common.Words.{add_u64, as_u32}
use stratum_v2_tools.Mining.Chain.{Chain}

pub data Protocol : Type 0 where
  sv1 sv2 stratum_v1 stratum_v2 : Protocol

pub data ConnectionState : Type 0 where
  state_connected state_disconnected state_connecting state_authenticated state_error :
      ConnectionState

pub record Connection : Type 0 where
  pub id : ℕ
  pub address : String
  pub protocol : Protocol
  pub state : ConnectionState
  pub connected_at : ℕ
  pub last_activity : ℕ

pub record ConnectionInfo (fl : Floats) : Type 0 where
  pub id : ℕ
  pub address : String
  pub protocol : Protocol
  pub state : ConnectionState
  pub connected_at : ℕ
  pub last_activity : ℕ
  pub subscribed_difficulty : Option fl.F64
  pub authorized_workers : List String
  pub total_shares : ℕ
  pub valid_shares : ℕ

pub record Worker (fl : Floats) : Type 0 where
  pub id : String
  pub connection_id : ℕ
  pub username : String
  pub difficulty : fl.F64
  pub shares_submitted : ℕ
  pub shares_accepted : ℕ
  pub total_shares : ℕ
  pub hashrate : fl.F64
  pub last_activity : ℕ

pub record Job (fl : Floats) : Type 0 where
  pub id : String
  pub template_id : ℕ
  pub difficulty : fl.F64
  pub created_at : ℕ
  pub expires_at : ℕ

pub record Share (fl : Floats) (ch : Chain) : Type 0 where
  pub connection_id : ℕ
  pub nonce : ℕ
  pub timestamp : ℕ
  pub difficulty : fl.F64
  pub is_valid : Bool
  pub block_hash : Option ch.BlockHash
  pub submitted_at : ℕ

pub record ShareSubmission (fl : Floats) (ch : Chain) : Type 0 where
  pub connection_id : ℕ
  pub job_id : String
  pub worker_name : String
  pub nonce : ℕ
  pub timestamp : ℕ
  pub extranonce2 : List ℕ
  pub share : Share fl ch

pub data ShareResult (ch : Chain) : Type 0 where
  share_accepted : ShareResult ch
  share_rejected : String → ShareResult ch
  share_stale share_valid : ShareResult ch
  share_invalid : String → ShareResult ch
  share_block : ch.BlockHash → ShareResult ch

pub record WorkTemplate (fl : Floats) (ch : Chain) : Type 0 where
  pub id : ℕ
  pub previous_hash : ch.BlockHash
  pub coinbase_tx : ch.Transaction
  pub transactions : List ch.Transaction
  pub difficulty : fl.F64
  pub timestamp : ℕ
  pub expires_at : ℕ

-- `Utc::now().timestamp()` at a reading in nanoseconds, and `Duration::seconds`.
abbrev pub unix_seconds : ℕ → ℕ
unix_seconds now = now / 1_000_000_000

abbrev pub seconds : ℕ → ℕ
seconds s = s * 1_000_000_000

module _ {fl : Floats} where
  unfoldable pub from_connection : Connection → ConnectionInfo fl
  from_connection conn = record {
    id = conn.id;
    address = conn.address;
    protocol = conn.protocol;
    state = conn.state;
    connected_at = conn.connected_at;
    last_activity = conn.last_activity;
    subscribed_difficulty = none;
    authorized_workers = [];
    total_shares = 0;
    valid_shares = 0;
  }

  -- `ConnectionInfo::add_share`.
  unfoldable pub count_share : Bool → ConnectionInfo fl → ConnectionInfo fl
  count_share valid c = record c {
    total_shares = add_u64 c.total_shares 1;
    valid_shares = if valid then add_u64 c.valid_shares 1 else c.valid_shares;
  }

  -- `ConnectionInfo::is_stale`: more than 300 whole seconds without activity.
  unfoldable pub is_stale_connection : ℕ → ConnectionInfo fl → Bool
  is_stale_connection now c = ltb 300 (unix_seconds (now - c.last_activity))

  -- `Worker::add_share`.
  unfoldable pub add_worker_share : ℕ → Bool → Worker fl → Worker fl
  add_worker_share now accepted w = record w {
    shares_submitted = add_u64 w.shares_submitted 1;
    total_shares = add_u64 w.total_shares 1;
    shares_accepted = if accepted then add_u64 w.shares_accepted 1 else w.shares_accepted;
    last_activity = now;
  }

  -- `Worker::is_active`: activity within the last 600 whole seconds.
  unfoldable pub is_active_worker : ℕ → Worker fl → Bool
  is_active_worker now w = ltb (unix_seconds (now - w.last_activity)) 600

  -- `Worker::new`.
  unfoldable pub new_worker : String → ℕ → ℕ → String → fl.F64 → Worker fl
  new_worker id now connection_id username difficulty = record {
    id = id;
    connection_id = connection_id;
    username = username;
    difficulty = difficulty;
    shares_submitted = 0;
    shares_accepted = 0;
    total_shares = 0;
    hashrate = fl.of_nat 0;
    last_activity = now;
  }

  -- `Job::new`.
  unfoldable pub new_job : String → ℕ → ℕ → fl.F64 → Job fl
  new_job id now template_id difficulty = record {
    id = id;
    template_id = template_id;
    difficulty = difficulty;
    created_at = now;
    expires_at = now + seconds 300;
  }

  unfoldable pub is_expired_job : ℕ → Job fl → Bool
  is_expired_job now job = ltb job.expires_at now

module _ {fl : Floats} {ch : Chain} where
  -- `Share::new`.
  unfoldable pub new_share : ℕ → ℕ → ℕ → ℕ → fl.F64 → Share fl ch
  new_share now connection_id nonce timestamp difficulty = record {
    connection_id = connection_id;
    nonce = nonce;
    timestamp = timestamp;
    difficulty = difficulty;
    is_valid = false;
    block_hash = none;
    submitted_at = now;
  }

  -- `ShareSubmission::new`, which reads the clock for the time stamp and again in `Share::new`.
  unfoldable pub new_submission : ℕ → ℕ → ℕ → String → String → ℕ → ShareSubmission fl ch
  unfolding new_share
  new_submission stamped now connection_id job_id worker_name nonce =
      let timestamp = as_u32 (unix_seconds stamped) in
      record {
        connection_id = connection_id;
        job_id = job_id;
        worker_name = worker_name;
        nonce = nonce;
        timestamp = timestamp;
        extranonce2 = [];
        share = new_share now connection_id nonce timestamp (fl.decimal "1.0");
      }

  -- `WorkTemplate::new`, with its two readings of the clock.
  unfoldable pub new_template :
      ℕ → ℕ → ℕ → ch.BlockHash → ch.Transaction → List ch.Transaction → fl.F64 → WorkTemplate fl ch
  new_template id stamped now previous_hash coinbase_tx transactions difficulty = record {
    id = id;
    previous_hash = previous_hash;
    coinbase_tx = coinbase_tx;
    transactions = transactions;
    difficulty = difficulty;
    timestamp = as_u32 (unix_seconds stamped);
    expires_at = now + seconds 300;
  }

  -- `WorkTemplate::is_expired`.
  unfoldable pub is_expired_template : ℕ → WorkTemplate fl ch → Bool
  is_expired_template now w = ltb w.expires_at now
