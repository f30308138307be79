-- ===== src/ConnectionAuth/Lifecycle.antt =====
-- A connection of sv2-core/src/connection_auth.rs from its authentication to its end.
use stratum_v2_tools.Auth.Access.{MayUse, authenticate_disabled, authorize_granted_iff}
use stratum_v2_tools.Auth.System.{invalidate_session, is_live}
use stratum_v2_tools.Auth.Types.{Permission, granted, permission_eq, session_invalid}
use stratum_v2_tools.Auth.WellFormed.{IsWellFormed}
use stratum_v2_tools.Common.{
  ==_iff, ==_refl, Option-cases, String, arith, false, inl, inr, nat_eq, none, some, string_eq,
  subst, sym, true, ℕ, ◌↔◌, ◌≡◌, ◌≢◌, ◌≤◌,
}
use stratum_v2_tools.Common.Map.{get, get-insert, get-remove, insert-IsMap}
use stratum_v2_tools.ConnectionAuth.Consistent.{IsConsistent, session_of}
use stratum_v2_tools.ConnectionAuth.Expiry.{cleanup_connections_lem}
use stratum_v2_tools.ConnectionAuth.Manager.{
  ConnectionAuthManager, ConnectionAuthResult, attach_session, authenticate_connection,
  authorize_connection, cleanup_connections, disconnect_connection,
}
use stratum_v2_tools.Error.{Foreign, ok}

-- A disconnected connection has no metadata and no session, its session is gone from the
-- authentication, it may do nothing, and the other connections are as they were.
pub disconnect_connection_lem :
    (connection_id : String) (now touched : ℕ) (permission : Permission) (m : ConnectionAuthManager)
    → let n = disconnect_connection connection_id m in
      (get connection_id n.connection_metadata ≡ none)
      × ((sid : String)
          → get connection_id m.connection_sessions ≡ some sid
          → get sid n.auth_system.sessions ≡ none)
      × ((authorize_connection now touched connection_id permission n).1 ≡ session_invalid)
      × ((c : String)
          → connection_id ≢ c
          → (get c n.connection_metadata ≡ get c m.connection_metadata)
            × (get c n.connection_sessions ≡ get c m.connection_sessions))
unfolding disconnect_connection authorize_connection invalidate_session
disconnect_connection_lem connection_id now touched permission m = (
  ground
      (arith, get-remove connection_id connection_id m.connection_metadata, ==_refl connection_id),
  (λ sid e. ground (arith, e, get-remove sid sid m.auth_system.sessions, ==_refl sid)),
  ground
      (arith, get-remove connection_id connection_id m.connection_sessions, ==_refl connection_id),
  (λ c ne. (
    ground (arith, get-remove connection_id c m.connection_metadata, ==_iff connection_id c),
    ground (arith, get-remove connection_id c m.connection_sessions, ==_iff connection_id c),
  )),
)

-- A connection that was never authenticated, or is not there, is never granted anything, whether
-- authentication is enabled or not.
pub authorize_connection_needs_session :
    (now touched : ℕ) (connection_id : String) (permission : Permission) (m : ConnectionAuthManager)
    → IsConsistent m
    → session_of (get connection_id m.connection_metadata) ≡ none
    → authorize_connection now touched connection_id permission m ≡ (m, session_invalid)
unfolding authorize_connection
authorize_connection_needs_session now touched connection_id permission m v e =
    ground (arith, v.agree connection_id, e)

-- With authentication enabled a connection is granted an operation exactly if it has a session that
-- may use it.
pub authorize_connection_iff :
    (now touched : ℕ) (connection_id sid : String) (permission : Permission)
    (m : ConnectionAuthManager)
    → m.auth_system.config.enabled ≡ true
    → get connection_id m.connection_sessions ≡ some sid
    → ((authorize_connection now touched connection_id permission m).1 ≡ granted)
      ↔ MayUse now sid permission m.auth_system
unfolding authorize_connection
authorize_connection_iff now touched connection_id sid permission m on e =
    rw (e, authorize_connection) (authorize_granted_iff now sid permission m.auth_system on)

authenticate_connection_disabled :
    {F : Foreign} (hash_key : String → String) (checked now touched : ℕ)
    (session_id connection_id api_key : String) (m n : ConnectionAuthManager)
    (r : ConnectionAuthResult)
    → m.auth_system.config.enabled ≡ false
    → authenticate_connection {F = F} hash_key checked now touched session_id connection_id api_key
        m
      ≡ ok (n, r)
    → n ≡ attach_session touched connection_id session_id m.auth_system m
unfolding authenticate_connection
authenticate_connection_disabled hash_key checked now touched session_id connection_id api_key m n r
      off e =
    elim (Option-cases (get connection_id m.connection_metadata)) [
      | inl missing ↦ ground (arith, missing)
      | inr (d, found) ↦ ground (
        arith,
        found,
        authenticate_disabled hash_key checked now session_id api_key d.remote_addr m.auth_system
            off,
      )
    ]

-- Without authentication enabled an authenticated connection does not survive the next clean-up: its
-- session id is new, so that the authentication holds no session of that id.
pub cleanup_connections_disabled :
    {F : Foreign} (hash_key : String → String) (checked now touched cleaned listed : ℕ)
    (session_id connection_id api_key : String) (m n : ConnectionAuthManager)
    (r : ConnectionAuthResult)
    → m.auth_system.config.enabled ≡ false
    → IsWellFormed m.auth_system
    → IsConsistent m
    → get session_id m.auth_system.sessions ≡ none
    → cleaned ≤ listed
    → authenticate_connection {F = F} hash_key checked now touched session_id connection_id api_key
        m
      ≡ ok (n, r)
    → get connection_id (cleanup_connections cleaned listed n).connection_metadata ≡ none
unfolding attach_session is_live
cleanup_connections_disabled hash_key checked now touched cleaned listed session_id connection_id
      api_key m n r off w v fresh o e =
    let same =
      authenticate_connection_disabled hash_key checked now touched session_id connection_id api_key
        m n r off e in
    let after = attach_session touched connection_id session_id m.auth_system m in
    let sessions = get-insert connection_id connection_id session_id m.connection_sessions in
    let gone =
      cleanup_connections_lem cleaned listed connection_id after w
        (insert-IsMap connection_id session_id m.connection_sessions v.sessions_map) o in
    subst (λ x. get connection_id (cleanup_connections cleaned listed x).connection_metadata ≡ none)
      (sym same) (ground (arith, gone.1, sessions, fresh, ==_refl connection_id))
