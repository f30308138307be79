-- ===== src/Auth/Types.antt =====
-- The data of sv2-core/src/auth.rs. Times are whole seconds of the Unix clock, below 2 ^ 64.
use stratum_v2_tools.Common.{
  ℕ, ◌≡◌, ◌↔◌, Bool, true, false, ◌||◌, List, [], ◌∷◌, String, Option, Eq, same_of, same_of_iff,
  contains,
}
use stratum_v2_tools.Common.Map.{Map}

pub data Permission : Type 0 where
  view_connections manage_connections : Permission
  view_shares submit_shares : Permission
  view_templates create_templates manage_templates : Permission
  view_config update_config : Permission
  start_daemon stop_daemon restart_daemon reload_config : Permission
  view_metrics view_health manage_alerts : Permission
  api_access admin_access : Permission
  start_mining stop_mining view_mining_stats : Permission
  view_database manage_database : Permission

unfoldable pub Permission-discrete : Discrete Permission
Permission-discrete = hlevel

pub permission_beq_iff : (p q : Permission) → (same_of Permission-discrete p q ≡ true) ↔ (p ≡ q)
permission_beq_iff = same_of_iff Permission-discrete

instance abbrev pub permission_eq : Eq Permission
permission_eq = record { same = same_of Permission-discrete; same_iff = permission_beq_iff }

-- `get_all_permissions`, in the order of the source.
unfoldable pub get_all_permissions : List Permission
get_all_permissions =
    view_connections ∷ manage_connections ∷ view_shares ∷ submit_shares ∷ view_templates
    ∷ create_templates ∷ manage_templates ∷ view_config ∷ update_config ∷ start_daemon ∷ stop_daemon
    ∷ restart_daemon ∷ reload_config ∷ view_metrics ∷ view_health ∷ manage_alerts ∷ api_access
    ∷ admin_access ∷ start_mining ∷ stop_mining ∷ view_mining_stats ∷ view_database
    ∷ manage_database ∷ []

-- `HasPermission for Vec<Permission>`, and the test that `authorize` writes out.
unfoldable pub has_permission : List Permission → Permission → Bool
has_permission ps p = contains ps p || contains ps admin_access

pub record ApiKeyInfo : Type 0 where
  pub id : String
  pub key_hash : String
  pub name : String
  pub permissions : List Permission
  pub created_at : ℕ
  pub expires_at : Option ℕ
  pub active : Bool
  pub last_used : Option ℕ

pub record SessionInfo : Type 0 where
  pub id : String
  pub api_key_id : String
  pub client_id : String
  pub created_at : ℕ
  pub last_activity : ℕ
  pub expires_at : ℕ
  pub permissions : List Permission

pub record RateLimitState : Type 0 where
  pub request_count : ℕ
  pub window_start : ℕ
  pub blocked_until : Option ℕ

pub record AuthConfig : Type 0 where
  pub enabled : Bool
  pub session_timeout : ℕ
  pub rate_limit_per_minute : ℕ
  pub rate_limit_window : ℕ
  pub rate_limit_block_duration : ℕ
  pub max_sessions_per_key : ℕ
  pub require_auth_for_read : Bool

-- `AuthConfig::default`.
abbrev pub default_config : AuthConfig
default_config = record {
  enabled = false;
  session_timeout = 3600;
  rate_limit_per_minute = 60;
  rate_limit_window = 60;
  rate_limit_block_duration = 300;
  max_sessions_per_key = 10;
  require_auth_for_read = false;
}

pub data AuthResult : Type 0 where
  success : String → List Permission → AuthResult
  failed : String → AuthResult
  rate_limited : ℕ → AuthResult

pub data AuthzResult : Type 0 where
  granted : AuthzResult
  denied : Permission → AuthzResult
  session_invalid : AuthzResult

pub record AuthSystem : Type 0 where
  pub api_keys : Map String ApiKeyInfo
  pub sessions : Map String SessionInfo
  pub rate_limits : Map String RateLimitState
  pub config : AuthConfig
