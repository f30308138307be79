-- ===== src/Auth/Cases.antt =====
-- The branches of the calls of an `AuthSystem` (sv2-core/src/auth.rs), one rule for each call.
use stratum_v2_tools.Auth.RateLimit.{check_rate_limit, record_rate_limit_attempt}
use stratum_v2_tools.Auth.System.{
  active_sessions, admit, authenticate, authorize, authorize_session, is_key, key_expired,
  open_session,
}
use stratum_v2_tools.Auth.Types.{
  ApiKeyInfo, AuthResult, AuthSystem, AuthzResult, Permission, SessionInfo, failed,
  get_all_permissions, granted, permission_eq, rate_limited, session_invalid, success,
}
use stratum_v2_tools.Common.{
  Bool-cases, Option-cases, String, arith, false, inl, inr, leb, nat_eq, none, some, string_eq,
  subst, true, ℕ, ◌<◌, ◌≡◌, ◌≤◌,
}
use stratum_v2_tools.Common.Map.{find_entry, get, insert, modify}

module _ {ℓ} (P : AuthSystem × AuthResult → Type ℓ) (hash_key : String → String) (checked now : ℕ)
    (session_id api_key client_id : String) (a : AuthSystem) where
  pub authenticate_cases :
      (a.config.enabled ≡ false → P (a, success session_id get_all_permissions))
      → ((wait : ℕ)
          → a.config.enabled ≡ true
          → check_rate_limit checked client_id a ≡ some wait
          → P (a, rate_limited wait))
      → (a.config.enabled ≡ true
          → check_rate_limit checked client_id a ≡ none
          → find_entry (is_key (hash_key api_key)) a.api_keys ≡ none
          → P (record_rate_limit_attempt now client_id a, failed "Invalid API key"))
      → ((key : String) (info : ApiKeyInfo)
          → a.config.enabled ≡ true
          → check_rate_limit checked client_id a ≡ none
          → find_entry (is_key (hash_key api_key)) a.api_keys ≡ some (key, info)
          → P (admit now session_id client_id (key, info) a))
      → P (authenticate hash_key checked now session_id api_key client_id a)
  unfolding authenticate
  authenticate_cases off limited unknown found = elim (Bool-cases a.config.enabled) [
    | inr e ↦ subst P (ground arith) (off e)
    | inl e ↦ elim (Option-cases (check_rate_limit checked client_id a)) [
      | inr (wait, w) ↦ subst P (ground arith) (limited wait e w)
      | inl w ↦ elim (Option-cases (find_entry (is_key (hash_key api_key)) a.api_keys)) [
        | inl f ↦ subst P (ground arith) (unknown e w f)
        | inr ((key, info), f) ↦ subst P (ground arith) (found key info e w f)
      ]
    ]
  ]

module _ {ℓ} (P : AuthSystem × AuthResult → Type ℓ) (now : ℕ) (session_id client_id : String)
    (key : String) (info : ApiKeyInfo) (a : AuthSystem) where
  pub admit_cases :
      (key_expired now info ≡ true → P (a, failed "API key expired"))
      → (key_expired now info ≡ false
          → a.config.max_sessions_per_key ≤ active_sessions info.id now a
          → P (a, failed "Maximum sessions exceeded"))
      → (key_expired now info ≡ false
          → active_sessions info.id now a < a.config.max_sessions_per_key
          → P (
            record a {
              api_keys = modify key (λ i. record i { last_used = some now }) a.api_keys;
              sessions =
                  insert session_id
                    (open_session now session_id client_id info a.config)
                    a.sessions;
            },
            success session_id info.permissions,
          ))
      → P (admit now session_id client_id (key, info) a)
  unfolding admit
  admit_cases expired full opened = elim (Bool-cases (key_expired now info)) [
    | inl e ↦ rw (e, admit) (expired e)
    | inr e ↦
        elim (Bool-cases (leb a.config.max_sessions_per_key (active_sessions info.id now a))) [
          | inl l ↦ rw (e, l, admit) (full e (ground arith))
          | inr l ↦ rw (e, l, admit) (opened e (ground arith))
        ]
  ]

module _ {ℓ} (P : AuthSystem × AuthzResult → Type ℓ) (now : ℕ) (session_id : String)
    (permission : Permission) (a : AuthSystem) where
  pub authorize_cases :
      (a.config.enabled ≡ false → P (a, granted))
      → (a.config.enabled ≡ true → get session_id a.sessions ≡ none → P (a, session_invalid))
      → ((s : SessionInfo)
          → a.config.enabled ≡ true
          → get session_id a.sessions ≡ some s
          → P (authorize_session now session_id s permission a))
      → P (authorize now session_id permission a)
  unfolding authorize
  authorize_cases off missing found = elim (Bool-cases a.config.enabled) [
    | inr e ↦ subst P (ground arith) (off e)
    | inl e ↦ elim (Option-cases (get session_id a.sessions)) [
      | inl g ↦ subst P (ground arith) (missing e g)
      | inr (s, g) ↦ subst P (ground arith) (found s e g)
    ]
  ]

-- The way to a new session: the key is found, in time, and has room.
pub authenticate_found :
    (hash_key : String → String) (checked now : ℕ) (session_id api_key client_id : String)
    (a : AuthSystem) (key : String) (info : ApiKeyInfo)
    → a.config.enabled ≡ true
    → check_rate_limit checked client_id a ≡ none
    → find_entry (is_key (hash_key api_key)) a.api_keys ≡ some (key, info)
    → key_expired now info ≡ false
    → active_sessions info.id now a < a.config.max_sessions_per_key
    → (authenticate hash_key checked now session_id api_key client_id a).1
      ≡ success session_id info.permissions
unfolding authenticate admit
authenticate_found hash_key checked now session_id api_key client_id a key info on free found e
      room =
    ground arith
