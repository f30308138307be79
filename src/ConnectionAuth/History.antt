-- ===== src/ConnectionAuth/History.antt =====
-- Histories of calls of a `ConnectionAuthManager` (sv2-core/src/connection_auth.rs), and what happens
-- when a connection ends in the middle of its authentication.
use stratum_v2_tools.Auth.System.{authenticate, authorize, cleanup_expired, get_active_sessions}
use stratum_v2_tools.Auth.Types.{AuthResult, AuthSystem, Permission, failed, rate_limited, success}
use stratum_v2_tools.Common.{
  ==_refl, List, Option-cases, String, [], ap, arith, if◌then◌else◌, inl, inr, length, map, nat_eq,
  none, refl, some, string_eq, ℕ, ◌+◌, ◌∙◌, ◌∷◌, ◌≡◌,
}
use stratum_v2_tools.Common.Map.{Map, get, get-insert, get-remove, insert, modify_missing}
use stratum_v2_tools.Common.Words.{sub_u64}
use stratum_v2_tools.ConnectionAuth.Consistent.{
  IsConsistent, authorize_connection-IsConsistent, conclude-IsConsistent,
  disconnect_all-IsConsistent, disconnect_connection-IsConsistent, new_manager-IsConsistent,
  register_connection-IsConsistent,
}
use stratum_v2_tools.ConnectionAuth.Manager.{
  ConnectionAuthManager, ConnectionAuthResult, attach_session, authenticate_client,
  authenticate_connection, authorize_connection, cleanup_connections, client_of, conclude,
  connected, disconnect_connection, expired_connections, get_connection_stats, new_manager,
  register_connection,
}
use stratum_v2_tools.Error.{Foreign, Result, err, ok}

pub data Call : Type 0 where
  registers : ℕ → String → String → String → String → Call
  authenticates_connection : ℕ → ℕ → ℕ → String → String → String → Call
  authorizes_connection : ℕ → ℕ → String → Permission → Call
  disconnects : String → Call
  cleans_connections : ℕ → ℕ → Call

-- The manager after a call: one that fails leaves it as it was.
abbrev after_result :
    {F : Foreign}
    → Result F (ConnectionAuthManager × ConnectionAuthResult)
    → ConnectionAuthManager
    → ConnectionAuthManager
after_result (ok (n, r)) m = n
after_result (err e) m = m

module _ (F : Foreign) (hash_key : String → String) where
  unfoldable pub step_manager : ConnectionAuthManager → Call → ConnectionAuthManager
  step_manager m (registers now connection_id remote_addr protocol mode) =
      (register_connection now connection_id remote_addr protocol mode m).0
  step_manager m (authenticates_connection checked now touched session_id connection_id api_key) =
      after_result
        (authenticate_connection {F = F} hash_key checked now touched session_id connection_id
          api_key m)
        m
  step_manager m (authorizes_connection now touched connection_id permission) =
      (authorize_connection now touched connection_id permission m).0
  step_manager m (disconnects connection_id) = disconnect_connection connection_id m
  step_manager m (cleans_connections cleaned listed) = cleanup_connections cleaned listed m

  unfoldable pub run_manager : ConnectionAuthManager → List Call → ConnectionAuthManager
  run_manager m [] = m
  run_manager m (c ∷ cs) = run_manager (step_manager m c) cs

  -- The ids that the manager draws are new.
  abbrev pub IsFresh : ConnectionAuthManager → Call → Type 0
  IsFresh m (registers now connection_id remote_addr protocol mode) =
      get connection_id m.connection_metadata ≡ none
  IsFresh m _ = Unit

  abbrev pub AllFresh : ConnectionAuthManager → List Call → Type 0
  AllFresh m [] = Unit
  AllFresh m (c ∷ cs) = IsFresh m c × AllFresh (step_manager m c) cs

  step_manager-IsConsistent :
      (m : ConnectionAuthManager) (c : Call)
      → IsFresh m c
      → IsConsistent m
      → IsConsistent (step_manager m c)
  unfolding step_manager authenticate_connection cleanup_connections
  step_manager-IsConsistent m (registers now connection_id remote_addr protocol mode) f v =
      register_connection-IsConsistent now connection_id remote_addr protocol mode m f v
  step_manager-IsConsistent m
        (authenticates_connection checked now touched session_id connection_id api_key) f v =
      elim (Option-cases (get connection_id m.connection_metadata)) [
        | inl missing ↦ rw (missing, client_of) v
        | inr (d, found) ↦
            let r =
              authenticate hash_key checked now session_id api_key d.remote_addr m.auth_system in
            rw (found, client_of) (conclude-IsConsistent touched connection_id r.0 r.1 m d found v)
      ]
  step_manager-IsConsistent m (authorizes_connection now touched connection_id permission) f v =
      authorize_connection-IsConsistent touched connection_id now permission m v
  step_manager-IsConsistent m (disconnects connection_id) f v =
      disconnect_connection-IsConsistent connection_id m v
  step_manager-IsConsistent m (cleans_connections cleaned listed) f v =
      disconnect_all-IsConsistent
        (expired_connections
          (map (λ s. s.id) (get_active_sessions listed (cleanup_expired cleaned m.auth_system)))
          m.connection_sessions)
        (record m { auth_system = cleanup_expired cleaned m.auth_system })
        (record { sessions_map = v.sessions_map; metadata_map = v.metadata_map; agree = v.agree })

  run_manager-IsConsistent :
      (m : ConnectionAuthManager) (cs : List Call)
      → AllFresh m cs
      → IsConsistent m
      → IsConsistent (run_manager m cs)
  unfolding run_manager
  run_manager-IsConsistent m [] f v = v
  run_manager-IsConsistent m (c ∷ cs) (f, fs) v =
      run_manager-IsConsistent (step_manager m c) cs fs (step_manager-IsConsistent m c f v)

-- After every history of whole calls from a new manager that draws new connection ids, the two maps
-- have distinct keys, and each connection's session is the one that its metadata names.
pub run_manager-new_manager :
    (F : Foreign) (hash_key : String → String) (a : AuthSystem) (cs : List Call)
    → AllFresh F hash_key (new_manager a) cs
    → IsConsistent (run_manager F hash_key (new_manager a) cs)
run_manager-new_manager F hash_key a cs f =
    run_manager-IsConsistent F hash_key (new_manager a) cs f (new_manager-IsConsistent a)

length-insert_new :
    (k v : String) (m : Map String String) → get k m ≡ none → length (insert k v m) ≡ length m + 1
unfolding insert get
length-insert_new k v [] e = omega arith
length-insert_new k v ((j, w) ∷ m) e = ground (arith, length-insert_new k v m)

-- A success is stored as a session.
conclude_connected :
    (touched : ℕ) (connection_id c sid : String) (permissions : List Permission)
    (r : AuthSystem × AuthResult) (m n : ConnectionAuthManager)
    → conclude touched connection_id r m ≡ (n, connected c sid permissions)
    → n ≡ attach_session touched connection_id sid r.0 m
unfolding conclude
conclude_connected touched connection_id c sid permissions (a, success s p) m n h = ground arith
conclude_connected touched connection_id c sid permissions (a, failed reason) m n h = ground arith
conclude_connected touched connection_id c sid permissions (a, rate_limited wait) m n h =
    ground arith

-- What that leaves for a connection that is not there.
attach_missing :
    (touched : ℕ) (connection_id sid : String) (a : AuthSystem) (m : ConnectionAuthManager)
    → get connection_id m.connection_metadata ≡ none
    → get connection_id m.connection_sessions ≡ none
    → let n = attach_session touched connection_id sid a m in
      (get connection_id n.connection_sessions ≡ some sid)
      × (get connection_id n.connection_metadata ≡ none)
      × ((get_connection_stats n).unauthenticated_connections
          ≡ sub_u64 (length m.connection_metadata) (length m.connection_sessions + 1))
unfolding attach_session get_connection_stats
attach_missing touched connection_id sid a m gone absent =
    let same =
      modify_missing connection_id
        (λ d. record d { session_id = some sid; last_activity = touched }) m.connection_metadata
        gone in
    let longer = length-insert_new connection_id sid m.connection_sessions absent in
    (
      ground (
        arith,
        get-insert connection_id connection_id sid m.connection_sessions,
        ==_refl connection_id,
      ),
      rw same gone,
      rw (same, longer) refl,
    )

-- If a connection ends between the two parts of its authentication, which reads its client first, and
-- the authentication then succeeds, its session is stored for a connection that is not there: the
-- requests of the ended connection are still decided by that session, and the count of connections
-- without a session is the number of the connections left less one more than that of their
-- sessions, as a 64-bit word, which wraps around if each of them has a session.
pub authenticate_after_disconnect :
    (F : Foreign) (hash_key : String → String) (checked now touched later seen : ℕ)
    (connection_id client_id api_key fresh c sid : String) (permission : Permission)
    (permissions : List Permission) (m n : ConnectionAuthManager)
    → client_of {F = F} connection_id m ≡ ok client_id
    → authenticate_client hash_key checked now touched fresh connection_id api_key client_id
        (disconnect_connection connection_id m)
      ≡ (n, connected c sid permissions)
    → let left = disconnect_connection connection_id m in
      (get connection_id n.connection_sessions ≡ some sid)
      × (get connection_id n.connection_metadata ≡ none)
      × ((authorize_connection later seen connection_id permission n).1
          ≡ (authorize later sid permission n.auth_system).1)
      × ((get_connection_stats n).unauthenticated_connections
          ≡ sub_u64 (length left.connection_metadata) (length left.connection_sessions + 1))
unfolding authenticate_client disconnect_connection authorize_connection
authenticate_after_disconnect F hash_key checked now touched later seen connection_id client_id
      api_key fresh c sid permission permissions m n read h =
    let left = disconnect_connection connection_id m in
    let r = authenticate hash_key checked now fresh api_key client_id left.auth_system in
    let made = conclude_connected touched connection_id c sid permissions r left n h in
    let gone =
      get-remove connection_id connection_id m.connection_metadata
      ∙ ap (λ b. if b then none else get connection_id m.connection_metadata)
          (==_refl connection_id) in
    let absent =
      get-remove connection_id connection_id m.connection_sessions
      ∙ ap (λ b. if b then none else get connection_id m.connection_sessions)
          (==_refl connection_id) in
    let (stored, missing, count) = attach_missing touched connection_id sid r.0 left gone absent in
    (
      ap (λ x. get connection_id x.connection_sessions) made ∙ stored,
      ap (λ x. get connection_id x.connection_metadata) made ∙ missing,
      ground (arith, ap (λ x. get connection_id x.connection_sessions) made ∙ stored),
      ap (λ x. (get_connection_stats x).unauthenticated_connections) made ∙ count,
    )
