-- ===== src/ConnectionAuth/Manager.antt =====
-- `ConnectionAuthManager` of sv2-core/src/connection_auth.rs. A remote address is its printed form.
-- Each method runs without interleaving, except that `authenticate_connection` comes in the two parts
-- between which the source holds no lock on the connections.
use stratum_v2_tools.Auth.System.{
  authenticate, authorize, cleanup_expired, get_active_sessions, invalidate_session, requires_auth,
}
use stratum_v2_tools.Auth.Types.{
  AuthResult, AuthSystem, AuthzResult, Permission, denied, failed, granted, permission_eq,
  rate_limited, session_invalid, success,
}
use stratum_v2_tools.Common.{
  Bool, List, Option, String, [], contains, false, foldl, get_or, if◌then◌else◌, length, map,
  nat_eq, none, select, some, string_eq, true, ℕ, ◌∷◌,
}
use stratum_v2_tools.Common.Map.{Map, get, insert, modify, remove, values}
use stratum_v2_tools.Common.Words.{add_u64, sub_u64}
use stratum_v2_tools.Error.{Foreign, Result, authentication, err, ok, ◌>>=◌}

pub record ConnectionMetadata : Type 0 where
  pub id : String
  pub remote_addr : String
  pub protocol : String
  pub mode : String
  pub session_id : Option String
  pub connected_at : ℕ
  pub last_activity : ℕ

pub record AuthChallenge : Type 0 where
  pub id : String
  pub challenge : String
  pub expected_response : String
  pub expires_at : ℕ

pub data ConnectionAuthResult : Type 0 where
  connected : String → String → List Permission → ConnectionAuthResult
  auth_required : AuthChallenge → ConnectionAuthResult
  connection_failed : String → ConnectionAuthResult
  connection_rate_limited : ℕ → ConnectionAuthResult

pub record ConnectionAuthManager : Type 0 where
  pub auth_system : AuthSystem
  pub connection_sessions : Map String String
  pub connection_metadata : Map String ConnectionMetadata

pub record ConnectionStats : Type 0 where
  pub total_connections : ℕ
  pub authenticated_connections : ℕ
  pub unauthenticated_connections : ℕ
  pub protocol_stats : Map String ℕ
  pub mode_stats : Map String ℕ

unfoldable pub new_manager : AuthSystem → ConnectionAuthManager
new_manager auth_system = record {
  auth_system = auth_system;
  connection_sessions = [];
  connection_metadata = [];
}

unfoldable pub register_connection :
    ℕ → String → String → String → String → ConnectionAuthManager → ConnectionAuthManager × String
register_connection now connection_id remote_addr protocol mode m = (
  record m {
    connection_metadata =
        insert connection_id
          (record {
            id = connection_id;
            remote_addr = remote_addr;
            protocol = protocol;
            mode = mode;
            session_id = none;
            connected_at = now;
            last_activity = now;
          })
          m.connection_metadata;
  },
  connection_id,
)

-- The first part of `authenticate_connection`: the client of the connection.
unfoldable pub client_of : {F : Foreign} → String → ConnectionAuthManager → Result F String
client_of connection_id m = elim (get connection_id m.connection_metadata) [
  | none ↦ err (authentication "Connection not found")
  | some metadata ↦ ok metadata.remote_addr
]

-- What a successful authentication writes at `touched`.
unfoldable pub attach_session :
    ℕ → String → String → AuthSystem → ConnectionAuthManager → ConnectionAuthManager
attach_session touched connection_id session_id auth m = record m {
  auth_system = auth;
  connection_metadata =
      modify connection_id (λ d. record d { session_id = some session_id; last_activity = touched })
        m.connection_metadata;
  connection_sessions = insert connection_id session_id m.connection_sessions;
}

-- The match of `authenticate_connection` on the result of the authentication.
unfoldable pub conclude :
    ℕ
    → String
    → AuthSystem × AuthResult
    → ConnectionAuthManager
    → ConnectionAuthManager × ConnectionAuthResult
unfolding attach_session
conclude touched connection_id (auth, success session_id permissions) m = (
  attach_session touched connection_id session_id auth m,
  connected connection_id session_id permissions,
)
conclude touched connection_id (auth, failed reason) m =
    (record m { auth_system = auth }, connection_failed reason)
conclude touched connection_id (auth, rate_limited retry_after) m =
    (record m { auth_system = auth }, connection_rate_limited retry_after)

-- The second part of `authenticate_connection`. `checked` and `now` are the clock in the
-- authentication, `touched` after it.
unfoldable pub authenticate_client :
    (String → String)
    → ℕ
    → ℕ
    → ℕ
    → String
    → String
    → String
    → String
    → ConnectionAuthManager
    → ConnectionAuthManager × ConnectionAuthResult
unfolding conclude
authenticate_client hash_key checked now touched session_id connection_id api_key client_id m =
    conclude touched connection_id
      (authenticate hash_key checked now session_id api_key client_id m.auth_system) m

-- The manager and what the call returns.
unfoldable pub authenticate_connection :
    {F : Foreign}
    → (String → String)
    → ℕ
    → ℕ
    → ℕ
    → String
    → String
    → String
    → ConnectionAuthManager
    → Result F (ConnectionAuthManager × ConnectionAuthResult)
unfolding client_of authenticate_client
authenticate_connection hash_key checked now touched session_id connection_id api_key m = do
  client_id ← client_of connection_id m
  ok (authenticate_client hash_key checked now touched session_id connection_id api_key client_id m)

-- The update of the last activity after a granted authorization.
unfoldable pub touch_if_granted :
    ℕ → String → AuthzResult → Map String ConnectionMetadata → Map String ConnectionMetadata
touch_if_granted touched connection_id granted m =
    modify connection_id (λ d. record d { last_activity = touched }) m
touch_if_granted touched connection_id (denied _) m = m
touch_if_granted touched connection_id session_invalid m = m

unfoldable pub authorize_connection :
    ℕ → ℕ → String → Permission → ConnectionAuthManager → ConnectionAuthManager × AuthzResult
unfolding touch_if_granted
authorize_connection now touched connection_id permission m =
    elim (get connection_id m.connection_sessions) [
      | none ↦ (m, session_invalid)
      | some session_id ↦
          let r = authorize now session_id permission m.auth_system in
          (
            record m {
              auth_system = r.0;
              connection_metadata =
                  touch_if_granted touched connection_id r.1 m.connection_metadata;
            },
            r.1,
          )
    ]

unfoldable pub invalidate_if_some : Option String → AuthSystem → AuthSystem
invalidate_if_some none a = a
invalidate_if_some (some session_id) a = invalidate_session session_id a

unfoldable pub disconnect_connection : String → ConnectionAuthManager → ConnectionAuthManager
unfolding invalidate_if_some
disconnect_connection connection_id m = record {
  auth_system = invalidate_if_some (get connection_id m.connection_sessions) m.auth_system;
  connection_sessions = remove connection_id m.connection_sessions;
  connection_metadata = remove connection_id m.connection_metadata;
}

unfoldable pub get_connection_metadata : String → ConnectionAuthManager → Option ConnectionMetadata
get_connection_metadata connection_id m = get connection_id m.connection_metadata

unfoldable pub get_active_connections : ConnectionAuthManager → List ConnectionMetadata
get_active_connections m = values m.connection_metadata

-- `ConnectionAuth for ConnectionMetadata`.
unfoldable pub is_authenticated : ConnectionMetadata → Bool
is_authenticated d = elim d.session_id [ none ↦ false | some _ ↦ true ]

unfoldable pub get_session_id : ConnectionMetadata → Option String
get_session_id d = d.session_id

unfoldable pub connection_requires_auth : Permission → ConnectionAuthManager → Bool
connection_requires_auth permission m = requires_auth permission m.auth_system

unfoldable pub get_authenticated_connections : ConnectionAuthManager → List ConnectionMetadata
unfolding is_authenticated
get_authenticated_connections m = select is_authenticated (values m.connection_metadata)

-- The connections whose session is not among the active ones.
unfoldable pub expired_connections : List String → Map String String → List String
expired_connections active [] = []
expired_connections active ((connection_id, session_id) ∷ m) =
    if contains active session_id
    then expired_connections active m
    else connection_id ∷ expired_connections active m

unfoldable pub disconnect_all : List String → ConnectionAuthManager → ConnectionAuthManager
disconnect_all [] m = m
disconnect_all (c ∷ cs) m = disconnect_all cs (disconnect_connection c m)

-- `cleaned` is the clock in the clean-up of the sessions, `listed` in the listing of those left.
unfoldable pub cleanup_connections : ℕ → ℕ → ConnectionAuthManager → ConnectionAuthManager
unfolding disconnect_all expired_connections
cleanup_connections cleaned listed m =
    let auth = cleanup_expired cleaned m.auth_system in
    let active = map (λ s. s.id) (get_active_sessions listed auth) in
    disconnect_all (expired_connections active m.connection_sessions)
      (record m { auth_system = auth })

-- `*entry(k).or_insert(0) += 1`.
unfoldable pub bump : String → Map String ℕ → Map String ℕ
bump k m = insert k (add_u64 (get_or (get k m) 0) 1) m

unfoldable pub tally : (ConnectionMetadata → String) → List ConnectionMetadata → Map String ℕ
unfolding bump
tally f ds = foldl (λ m d. bump (f d) m) [] ds

unfoldable pub get_connection_stats : ConnectionAuthManager → ConnectionStats
unfolding tally
get_connection_stats m = record {
  total_connections = length m.connection_metadata;
  authenticated_connections = length m.connection_sessions;
  unauthenticated_connections =
      sub_u64 (length m.connection_metadata) (length m.connection_sessions);
  protocol_stats = tally (λ d. d.protocol) (values m.connection_metadata);
  mode_stats = tally (λ d. d.mode) (values m.connection_metadata);
}
