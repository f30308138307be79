-- ===== src/Auth/System.antt =====
-- The operations of `AuthSystem` in sv2-core/src/auth.rs. Clock readings, fresh UUIDs and random
-- keys are arguments; the hash of a key, base64 of SHA-256, is a parameter.
use stratum_v2_tools.Auth.RateLimit.{check_rate_limit, record_rate_limit_attempt}
use stratum_v2_tools.Auth.Types.{
  ApiKeyInfo, AuthConfig, AuthResult, AuthSystem, AuthzResult, Permission, RateLimitState,
  SessionInfo, denied, failed, get_all_permissions, granted, has_permission, permission_eq,
  rate_limited, session_invalid, success, view_config, view_connections, view_database, view_health,
  view_metrics, view_mining_stats, view_shares, view_templates,
}
use stratum_v2_tools.Common.{
  Bool, List, Option, String, [], count_by, false, if◌then◌else◌, leb, ltb, map, nat_eq, none, not,
  select, some, string_eq, true, ℕ, ◌&&◌, ◌==◌,
}
use stratum_v2_tools.Common.Map.{find_entry, get, insert, modify, remove, retain, values}
use stratum_v2_tools.Common.Words.{add_u64, sub_u64}

unfoldable pub new : AuthConfig → AuthSystem
new config = record { api_keys = []; sessions = []; rate_limits = []; config = config }

-- A session counts while its end lies in the future.
unfoldable pub is_live : ℕ → SessionInfo → Bool
is_live now s = ltb now s.expires_at

unfoldable pub is_live_of : String → ℕ → SessionInfo → Bool
unfolding is_live
is_live_of key_id now s = s.api_key_id == key_id && is_live now s

-- The sessions that `authenticate` counts against the limit of a key.
unfoldable pub active_sessions : String → ℕ → AuthSystem → ℕ
unfolding is_live_of
active_sessions key_id now a = count_by (is_live_of key_id now) (values a.sessions)

-- `now > expires_at`, for a key that may have no end.
unfoldable pub key_expired : ℕ → ApiKeyInfo → Bool
key_expired now info = elim info.expires_at [ none ↦ false | some e ↦ ltb e now ]

unfoldable pub open_session : ℕ → String → String → ApiKeyInfo → AuthConfig → SessionInfo
open_session now session_id client_id info config = record {
  id = session_id;
  api_key_id = info.id;
  client_id = client_id;
  created_at = now;
  last_activity = now;
  expires_at = add_u64 now config.session_timeout;
  permissions = info.permissions;
}

-- `authenticate` from the point where the key is found: `key` is its place in the map.
unfoldable pub admit :
    ℕ → String → String → String × ApiKeyInfo → AuthSystem → AuthSystem × AuthResult
unfolding key_expired active_sessions open_session
admit now session_id client_id (key, info) a =
    if key_expired now info
    then (a, failed "API key expired")
    else if leb a.config.max_sessions_per_key (active_sessions info.id now a)
    then (a, failed "Maximum sessions exceeded")
    else (
      record a {
        api_keys = modify key (λ i. record i { last_used = some now }) a.api_keys;
        sessions =
            insert session_id (open_session now session_id client_id info a.config) a.sessions;
      },
      success session_id info.permissions,
    )

-- A listed key is usable if it has the hash and has not been revoked.
unfoldable pub is_key : String → ApiKeyInfo → Bool
is_key hash info = info.key_hash == hash && info.active

unfoldable pub new_key : ℕ → String → String → String → List Permission → Option ℕ → ApiKeyInfo
new_key now key_id key_hash name permissions expires_at = record {
  id = key_id;
  key_hash = key_hash;
  name = name;
  permissions = permissions;
  created_at = now;
  expires_at = expires_at;
  active = true;
  last_used = none;
}

module _ (hash_key : String → String) where
  unfoldable pub generate_api_key :
      ℕ
      → String
      → String
      → String
      → List Permission
      → Option ℕ
      → AuthSystem
      → AuthSystem × (String × String)
  unfolding new_key
  generate_api_key now key_id api_key name permissions expires_at a = (
    record a {
      api_keys =
          insert key_id (new_key now key_id (hash_key api_key) name permissions expires_at)
            a.api_keys;
    },
    (key_id, api_key),
  )

  -- `checked` is the clock in `check_rate_limit`, `now` the next reading after it.
  unfoldable pub authenticate :
      ℕ → ℕ → String → String → String → AuthSystem → AuthSystem × AuthResult
  unfolding is_key
  authenticate checked now session_id api_key client_id a =
      if not a.config.enabled
      then (a, success session_id get_all_permissions)
      else elim (check_rate_limit checked client_id a) [
        | some retry_after ↦ (a, rate_limited retry_after)
        | none ↦ elim (find_entry (is_key (hash_key api_key)) a.api_keys) [
          | none ↦ (record_rate_limit_attempt now client_id a, failed "Invalid API key")
          | some found ↦ admit now session_id client_id found a
        ]
      ]

-- `authorize` for a session that is in the map.
unfoldable pub authorize_session :
    ℕ → String → SessionInfo → Permission → AuthSystem → AuthSystem × AuthzResult
authorize_session now session_id s permission a =
    if ltb s.expires_at now
    then (record a { sessions = remove session_id a.sessions }, session_invalid)
    else (
      record a { sessions = modify session_id (λ t. record t { last_activity = now }) a.sessions },
      if has_permission s.permissions permission then granted else denied permission,
    )

unfoldable pub authorize : ℕ → String → Permission → AuthSystem → AuthSystem × AuthzResult
unfolding authorize_session
authorize now session_id permission a =
    if not a.config.enabled then (a, granted) else elim (get session_id a.sessions) [
      | none ↦ (a, session_invalid)
      | some s ↦ authorize_session now session_id s permission a
    ]

unfoldable pub revoke_api_key : String → AuthSystem → AuthSystem
revoke_api_key key_id a = elim (get key_id a.api_keys) [
  | none ↦ a
  | some _ ↦ record a {
    api_keys = modify key_id (λ i. record i { active = false }) a.api_keys;
    sessions = retain (λ _ s. not (s.api_key_id == key_id)) a.sessions;
  }
]

unfoldable pub invalidate_session : String → AuthSystem → AuthSystem
invalidate_session session_id a = record a { sessions = remove session_id a.sessions }

-- The entries of the rate limiter that `cleanup_expired` keeps.
unfoldable pub keeps_limit : AuthConfig → ℕ → RateLimitState → Bool
keeps_limit c now s = elim s.blocked_until [
  | some blocked_until ↦ ltb now blocked_until
  | none ↦ ltb (sub_u64 now s.window_start) c.rate_limit_window
]

unfoldable pub cleanup_expired : ℕ → AuthSystem → AuthSystem
unfolding is_live keeps_limit
cleanup_expired now a = record a {
  sessions = retain (λ _ s. is_live now s) a.sessions;
  rate_limits = retain (λ _ s. keeps_limit a.config now s) a.rate_limits;
}

unfoldable pub get_active_sessions : ℕ → AuthSystem → List SessionInfo
unfolding is_live
get_active_sessions now a = select (is_live now) (values a.sessions)

unfoldable pub redact : ApiKeyInfo → ApiKeyInfo
redact info = record info { key_hash = "***" }

unfoldable pub get_api_keys : AuthSystem → List ApiKeyInfo
unfolding redact
get_api_keys a = map redact (values a.api_keys)

-- The operations that `requires_auth` lists as reading only.
unfoldable pub is_read_only : Permission → Bool
is_read_only view_connections = true
is_read_only view_shares = true
is_read_only view_templates = true
is_read_only view_config = true
is_read_only view_metrics = true
is_read_only view_health = true
is_read_only view_mining_stats = true
is_read_only view_database = true
is_read_only _ = false

unfoldable pub requires_auth : Permission → AuthSystem → Bool
unfolding is_read_only
requires_auth permission a =
    if not a.config.enabled
    then false
    else if is_read_only permission
    then a.config.require_auth_for_read
    else true
