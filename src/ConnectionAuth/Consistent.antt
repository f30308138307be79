-- ===== src/ConnectionAuth/Consistent.antt =====
-- The two maps of a `ConnectionAuthManager` (sv2-core/src/connection_auth.rs) agree.
use stratum_v2_tools.Auth.System.{authorize}
use stratum_v2_tools.Auth.Types.{
  AuthResult, AuthSystem, AuthzResult, Permission, denied, failed, granted, permission_eq,
  rate_limited, session_invalid, success,
}
use stratum_v2_tools.Common.{
  ==_iff, List, Option, Option-cases, String, [], arith, inl, inr, nat_eq, none, refl, some,
  string_eq, sym, ℕ, ◌∙◌, ◌∷◌, ◌≡◌,
}
use stratum_v2_tools.Common.Map.{
  IsMap, Map, get, get-insert, get-modify, get-remove, insert-IsMap, modify, modify-IsMap,
  remove-IsMap,
}
use stratum_v2_tools.ConnectionAuth.Manager.{
  ConnectionAuthManager, ConnectionMetadata, attach_session, authorize_connection, conclude,
  disconnect_all, disconnect_connection, new_manager, register_connection, touch_if_granted,
}

abbrev pub session_of : Option ConnectionMetadata → Option String
session_of none = none
session_of (some d) = d.session_id

-- The maps have distinct keys, and the session of each connection is the one that its metadata names.
pub record IsConsistent (m : ConnectionAuthManager) : Type 0 where
  pub sessions_map : IsMap m.connection_sessions
  pub metadata_map : IsMap m.connection_metadata
  pub agree : (c : String) → get c m.connection_sessions ≡ session_of (get c m.connection_metadata)

pub new_manager-IsConsistent : (a : AuthSystem) → IsConsistent (new_manager a)
unfolding new_manager get
new_manager-IsConsistent a = record { sessions_map = tt; metadata_map = tt; agree = λ c. refl }

-- A connection registered under a new id keeps the maps in agreement.
pub register_connection-IsConsistent :
    (now : ℕ) (connection_id remote_addr protocol mode : String) (m : ConnectionAuthManager)
    → get connection_id m.connection_metadata ≡ none
    → IsConsistent m
    → IsConsistent (register_connection now connection_id remote_addr protocol mode m).0
unfolding register_connection
register_connection-IsConsistent now connection_id remote_addr protocol mode m fresh v = record {
  sessions_map = v.sessions_map;
  metadata_map = insert-IsMap connection_id _ m.connection_metadata v.metadata_map;
  agree = λ c. ground (
    arith,
    v.agree c,
    fresh,
    ==_iff connection_id c,
    get-insert connection_id c
        (record {
          id = connection_id;
          remote_addr = remote_addr;
          protocol = protocol;
          mode = mode;
          session_id = none;
          connected_at = now;
          last_activity = now;
        })
        m.connection_metadata,
  );
}

module _ (touched : ℕ) (connection_id : String) where
  pub attach_session-IsConsistent :
      (session_id : String) (a : AuthSystem) (m : ConnectionAuthManager) (d : ConnectionMetadata)
      → get connection_id m.connection_metadata ≡ some d
      → IsConsistent m
      → IsConsistent (attach_session touched connection_id session_id a m)
  unfolding attach_session
  attach_session-IsConsistent session_id a m d found v = record {
    sessions_map = insert-IsMap connection_id session_id m.connection_sessions v.sessions_map;
    metadata_map = modify-IsMap connection_id _ m.connection_metadata v.metadata_map;
    agree = λ c. ground (
      arith,
      v.agree c,
      found,
      ==_iff connection_id c,
      get-insert connection_id c session_id m.connection_sessions,
      get-modify connection_id c
          (λ x. record x { session_id = some session_id; last_activity = touched })
          m.connection_metadata,
    );
  }

  session_of-modify :
      (c : String) (m : Map String ConnectionMetadata)
      → session_of (get c (modify connection_id (λ x. record x { last_activity = touched }) m))
        ≡ session_of (get c m)
  session_of-modify c m = elim (Option-cases (get c m)) [
    | inl missing ↦
        ground
          (arith, missing, get-modify connection_id c (λ x. record x { last_activity = touched }) m)
    | inr (d, found) ↦
        ground
          (arith, found, get-modify connection_id c (λ x. record x { last_activity = touched }) m)
  ]

  touch_if_granted-IsMap :
      (r : AuthzResult) (m : Map String ConnectionMetadata)
      → IsMap m
      → IsMap (touch_if_granted touched connection_id r m)
  unfolding touch_if_granted
  touch_if_granted-IsMap granted m h = modify-IsMap connection_id _ m h
  touch_if_granted-IsMap (denied p) m h = h
  touch_if_granted-IsMap session_invalid m h = h

  touch_if_granted-session_of :
      (r : AuthzResult) (c : String) (m : Map String ConnectionMetadata)
      → session_of (get c (touch_if_granted touched connection_id r m)) ≡ session_of (get c m)
  unfolding touch_if_granted
  touch_if_granted-session_of granted c m = session_of-modify c m
  touch_if_granted-session_of (denied p) c m = refl
  touch_if_granted-session_of session_invalid c m = refl

  pub authorize_connection-IsConsistent :
      (now : ℕ) (permission : Permission) (m : ConnectionAuthManager)
      → IsConsistent m
      → IsConsistent (authorize_connection now touched connection_id permission m).0
  unfolding authorize_connection
  authorize_connection-IsConsistent now permission m v =
      elim (Option-cases (get connection_id m.connection_sessions)) [
        | inl missing ↦ rw (missing, authorize_connection) v
        | inr (sid, found) ↦
            let r = (authorize now sid permission m.auth_system).1 in
            rw (found, authorize_connection)
              (record {
                sessions_map = v.sessions_map;
                metadata_map = touch_if_granted-IsMap r m.connection_metadata v.metadata_map;
                agree =
                    λ c. v.agree c ∙ sym (touch_if_granted-session_of r c m.connection_metadata);
              })
      ]

pub conclude-IsConsistent :
    (touched : ℕ) (connection_id : String) (a : AuthSystem) (r : AuthResult)
    (m : ConnectionAuthManager) (d : ConnectionMetadata)
    → get connection_id m.connection_metadata ≡ some d
    → IsConsistent m
    → IsConsistent (conclude touched connection_id (a, r) m).0
unfolding conclude
conclude-IsConsistent touched connection_id a (success session_id permissions) m d found v =
    attach_session-IsConsistent touched connection_id session_id a m d found v
conclude-IsConsistent touched connection_id a (failed reason) m d found v = record {
  sessions_map = v.sessions_map;
  metadata_map = v.metadata_map;
  agree = v.agree;
}
conclude-IsConsistent touched connection_id a (rate_limited retry_after) m d found v = record {
  sessions_map = v.sessions_map;
  metadata_map = v.metadata_map;
  agree = v.agree;
}

pub disconnect_connection-IsConsistent :
    (connection_id : String) (m : ConnectionAuthManager)
    → IsConsistent m
    → IsConsistent (disconnect_connection connection_id m)
unfolding disconnect_connection
disconnect_connection-IsConsistent connection_id m v = record {
  sessions_map = remove-IsMap connection_id m.connection_sessions v.sessions_map;
  metadata_map = remove-IsMap connection_id m.connection_metadata v.metadata_map;
  agree = λ c. ground (
    arith,
    v.agree c,
    get-remove connection_id c m.connection_sessions,
    get-remove connection_id c m.connection_metadata,
  );
}

pub disconnect_all-IsConsistent :
    (cs : List String) (m : ConnectionAuthManager)
    → IsConsistent m
    → IsConsistent (disconnect_all cs m)
unfolding disconnect_all
disconnect_all-IsConsistent [] m v = v
disconnect_all-IsConsistent (c ∷ cs) m v =
    disconnect_all-IsConsistent cs (disconnect_connection c m)
      (disconnect_connection-IsConsistent c m v)
