-- ===== src/Tests/Systems.antt =====
-- Small systems for the examples: sv2-core/src/auth.rs and sv2-core/src/connection_auth.rs. A key is
-- its own hash.
use stratum_v2_tools.Auth.Types.{
  ApiKeyInfo, AuthConfig, AuthSystem, SessionInfo, default_config, permission_eq, view_shares,
}
use stratum_v2_tools.Auth.WellFormed.{IsWellFormed}
use stratum_v2_tools.Common.{
  ==_iff, String, [], arith, nat_eq, none, refl, some, string_eq, true, ℕ, ◌∷◌,
}
use stratum_v2_tools.Common.Map.{get}
use stratum_v2_tools.ConnectionAuth.Consistent.{IsConsistent}
use stratum_v2_tools.ConnectionAuth.Manager.{ConnectionAuthManager, ConnectionMetadata}
use stratum_v2_tools.Error.{Foreign}

abbrev pub hash : String → String
hash s = s

abbrev pub small_config : AuthConfig
small_config = record default_config {
  enabled = true;
  max_sessions_per_key = 2;
  rate_limit_per_minute = 3;
}

abbrev pub a_key : ApiKeyInfo
a_key = record {
  id = "key";
  key_hash = "secret";
  name = "monitor";
  permissions = view_shares ∷ [];
  created_at = 10;
  expires_at = none;
  active = true;
  last_used = none;
}

abbrev pub a_session : SessionInfo
a_session = record {
  id = "session";
  api_key_id = "key";
  client_id = "10.0.0.1:3333";
  created_at = 20;
  last_activity = 20;
  expires_at = 3620;
  permissions = view_shares ∷ [];
}

-- One key and one session of it.
abbrev pub a_system : AuthSystem
a_system = record {
  api_keys = ("key", a_key) ∷ [];
  sessions = ("session", a_session) ∷ [];
  rate_limits = [];
  config = small_config;
}

abbrev pub empty_system : AuthSystem
empty_system = record { api_keys = []; sessions = []; rate_limits = []; config = small_config }

abbrev pub open_system : AuthSystem
open_system = record { api_keys = []; sessions = []; rate_limits = []; config = default_config }

pub a_system-IsWellFormed : IsWellFormed a_system
unfolding get
a_system-IsWellFormed = record {
  api_keys_map = (refl, tt);
  sessions_map = (refl, tt);
  limits_map = tt;
  key_ids = λ k i e. ground (arith, ==_iff "key" k);
  session_ids = λ k s e. ground (arith, ==_iff "session" k);
}

pub open_system-IsWellFormed : IsWellFormed open_system
unfolding get
open_system-IsWellFormed = record {
  api_keys_map = tt;
  sessions_map = tt;
  limits_map = tt;
  key_ids = λ k i e. ground arith;
  session_ids = λ k s e. ground arith;
}

abbrev pub a_connection : ConnectionMetadata
a_connection = record {
  id = "connection";
  remote_addr = "10.0.0.1:3333";
  protocol = "sv2";
  mode = "pool";
  session_id = some "session";
  connected_at = 15;
  last_activity = 20;
}

-- One connection, with the session of `a_system`.
abbrev pub a_manager : ConnectionAuthManager
a_manager = record {
  auth_system = a_system;
  connection_sessions = ("connection", "session") ∷ [];
  connection_metadata = ("connection", a_connection) ∷ [];
}

pub a_manager-IsConsistent : IsConsistent a_manager
unfolding get
a_manager-IsConsistent = record {
  sessions_map = (refl, tt);
  metadata_map = (refl, tt);
  agree = λ c. ground (arith, ==_iff "connection" c);
}

-- One connection without a session, where authentication is off.
abbrev pub open_manager : ConnectionAuthManager
open_manager = record {
  auth_system = open_system;
  connection_sessions = [];
  connection_metadata = ("connection", record a_connection { session_id = none }) ∷ [];
}

pub open_manager-IsConsistent : IsConsistent open_manager
unfolding get
open_manager-IsConsistent = record {
  sessions_map = tt;
  metadata_map = (refl, tt);
  agree = λ c. ground (arith, ==_iff "connection" c);
}

abbrev pub no_foreign : Foreign
no_foreign = record {
  Sqlx = Unit;
  pool_closed = tt;
  Migrate = ℕ;
  version_missing = λ n. n;
  Io = String;
  io_other = λ s. s;
  Json = String;
  json_io = λ e. e;
  UuidParse = Unit;
  AddrParse = Unit;
  Hex = ℕ;
  invalid_char = λ n. n;
  Encode = String;
  encode_io = λ e. e;
  FromUtf8 = Unit;
}
