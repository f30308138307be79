-- ===== src/Auth/WellFormed.antt =====
-- The maps of an `AuthSystem` (sv2-core/src/auth.rs) hold one entry a key, under its own id.
-- The maps have distinct keys, and an API key or a session stands under its id.
use stratum_v2_tools.Auth.Cases.{admit_cases, authenticate_cases, authorize_cases}
use stratum_v2_tools.Auth.RateLimit.{record_rate_limit_attempt}
use stratum_v2_tools.Auth.Run.{
  Call, authenticates, authorizes, cleans, generates, invalidates, revokes, step,
}
use stratum_v2_tools.Auth.System.{
  authenticate, authorize, authorize_session, cleanup_expired, generate_api_key, invalidate_session,
  is_live, new, open_session, revoke_api_key,
}
use stratum_v2_tools.Auth.Types.{
  ApiKeyInfo, AuthConfig, AuthSystem, Permission, RateLimitState, SessionInfo, permission_eq,
}
use stratum_v2_tools.Common.{
  ==_iff, Bool, Option-cases, String, arith, false, inl, inr, nat_eq, not, refl, some, string_eq, ℕ,
  ◌==◌, ◌≡◌,
}
use stratum_v2_tools.Common.Map.{
  IsMap, Map, get, get-insert, get-modify, get-remove, get-retain, insert, insert-IsMap, modify,
  modify-IsMap, remove, remove-IsMap, retain, retain-IsMap,
}

pub record IsWellFormed (a : AuthSystem) : Type 0 where
  pub api_keys_map : IsMap a.api_keys
  pub sessions_map : IsMap a.sessions
  pub limits_map : IsMap a.rate_limits
  pub key_ids : (k : String) (i : ApiKeyInfo) → get k a.api_keys ≡ some i → i.id ≡ k
  pub session_ids : (k : String) (s : SessionInfo) → get k a.sessions ≡ some s → s.id ≡ k

new-IsWellFormed : (c : AuthConfig) → IsWellFormed (new c)
unfolding new get
new-IsWellFormed c = record {
  api_keys_map = tt;
  sessions_map = tt;
  limits_map = tt;
  key_ids = λ k i e. cc;
  session_ids = λ k s e. cc;
}

insert_key-IsWellFormed :
    (k : String) (i : ApiKeyInfo) (a : AuthSystem)
    → i.id ≡ k
    → IsWellFormed a
    → IsWellFormed (record a { api_keys = insert k i a.api_keys })
insert_key-IsWellFormed k i a e w = record {
  api_keys_map = insert-IsMap k i a.api_keys w.api_keys_map;
  sessions_map = w.sessions_map;
  limits_map = w.limits_map;
  key_ids = λ j x g. ground (arith, get-insert k j i a.api_keys, ==_iff k j, w.key_ids j x);
  session_ids = w.session_ids;
}

-- A change of a listed key that keeps its id.
modify_key-IsWellFormed :
    (k : String) (f : ApiKeyInfo → ApiKeyInfo) (a : AuthSystem)
    → ((i : ApiKeyInfo) → (f i).id ≡ i.id)
    → IsWellFormed a
    → IsWellFormed (record a { api_keys = modify k f a.api_keys })
modify_key-IsWellFormed k f a h w = record {
  api_keys_map = modify-IsMap k f a.api_keys w.api_keys_map;
  sessions_map = w.sessions_map;
  limits_map = w.limits_map;
  key_ids = λ j x g. elim (Option-cases (get j a.api_keys)) [
    | inl missing ↦ ground (arith, get-modify k j f a.api_keys)
    | inr (i, found) ↦
        ground (arith, get-modify k j f a.api_keys, ==_iff k j, w.key_ids j i found, h i)
  ];
  session_ids = w.session_ids;
}

insert_session-IsWellFormed :
    (k : String) (s : SessionInfo) (a : AuthSystem)
    → s.id ≡ k
    → IsWellFormed a
    → IsWellFormed (record a { sessions = insert k s a.sessions })
insert_session-IsWellFormed k s a e w = record {
  api_keys_map = w.api_keys_map;
  sessions_map = insert-IsMap k s a.sessions w.sessions_map;
  limits_map = w.limits_map;
  key_ids = w.key_ids;
  session_ids = λ j x g. ground (arith, get-insert k j s a.sessions, ==_iff k j, w.session_ids j x);
}

remove_session-IsWellFormed :
    (k : String) (a : AuthSystem)
    → IsWellFormed a
    → IsWellFormed (record a { sessions = remove k a.sessions })
remove_session-IsWellFormed k a w = record {
  api_keys_map = w.api_keys_map;
  sessions_map = remove-IsMap k a.sessions w.sessions_map;
  limits_map = w.limits_map;
  key_ids = w.key_ids;
  session_ids = λ j x g. ground (arith, get-remove k j a.sessions, w.session_ids j x);
}

touch_session-IsWellFormed :
    (now : ℕ) (k : String) (a : AuthSystem)
    → IsWellFormed a
    → IsWellFormed
        (record a { sessions = modify k (λ t. record t { last_activity = now }) a.sessions })
touch_session-IsWellFormed now k a w = record {
  api_keys_map = w.api_keys_map;
  sessions_map = modify-IsMap k (λ t. record t { last_activity = now }) a.sessions w.sessions_map;
  limits_map = w.limits_map;
  key_ids = w.key_ids;
  session_ids = λ j x g. elim (Option-cases (get j a.sessions)) [
    | inl missing ↦
        ground (arith, get-modify k j (λ t. record t { last_activity = now }) a.sessions)
    | inr (s, found) ↦ ground (
      arith,
      get-modify k j (λ t. record t { last_activity = now }) a.sessions,
      w.session_ids j s found,
    )
  ];
}

retain_sessions-IsWellFormed :
    (p : String → SessionInfo → Bool) (a : AuthSystem)
    → IsWellFormed a
    → IsWellFormed (record a { sessions = retain p a.sessions })
retain_sessions-IsWellFormed p a w = record {
  api_keys_map = w.api_keys_map;
  sessions_map = retain-IsMap p a.sessions w.sessions_map;
  limits_map = w.limits_map;
  key_ids = w.key_ids;
  session_ids = λ j x g. elim (Option-cases (get j a.sessions)) [
    | inl missing ↦ ground (arith, get-retain p j a.sessions w.sessions_map)
    | inr (s, found) ↦
        ground (arith, get-retain p j a.sessions w.sessions_map, w.session_ids j s found)
  ];
}

limits-IsWellFormed :
    (m : Map String RateLimitState) (a : AuthSystem)
    → IsMap m
    → IsWellFormed a
    → IsWellFormed (record a { rate_limits = m })
limits-IsWellFormed m a h w = record {
  api_keys_map = w.api_keys_map;
  sessions_map = w.sessions_map;
  limits_map = h;
  key_ids = w.key_ids;
  session_ids = w.session_ids;
}

open_session-id :
    (now : ℕ) (session_id client_id : String) (info : ApiKeyInfo) (c : AuthConfig)
    → (open_session now session_id client_id info c).id ≡ session_id
unfolding open_session
open_session-id now session_id client_id info c = refl

authenticate-IsWellFormed :
    (hash_key : String → String) (checked now : ℕ) (session_id api_key client_id : String)
    (a : AuthSystem)
    → IsWellFormed a
    → IsWellFormed (authenticate hash_key checked now session_id api_key client_id a).0
unfolding record_rate_limit_attempt
authenticate-IsWellFormed hash_key checked now session_id api_key client_id a w =
    authenticate_cases (λ r. IsWellFormed r.0) hash_key checked now session_id api_key client_id a
      (λ _. w) (λ _ _ _. w)
      (λ _ _ _. limits-IsWellFormed _ a (insert-IsMap client_id _ a.rate_limits w.limits_map) w)
      λ key info _ _ _.
        admit_cases (λ r. IsWellFormed r.0) now session_id client_id key info a (λ _. w) (λ _ _. w)
          λ _ _.
            insert_session-IsWellFormed session_id
              (open_session now session_id client_id info a.config)
              (record a {
                api_keys = modify key (λ i. record i { last_used = some now }) a.api_keys;
              })
              (open_session-id now session_id client_id info a.config)
              (modify_key-IsWellFormed key (λ i. record i { last_used = some now }) a (λ i. refl) w)

authorize-IsWellFormed :
    (now : ℕ) (session_id : String) (permission : Permission) (a : AuthSystem)
    → IsWellFormed a
    → IsWellFormed (authorize now session_id permission a).0
unfolding authorize_session
authorize-IsWellFormed now session_id permission a w =
    authorize_cases (λ r. IsWellFormed r.0) now session_id permission a (λ _. w) (λ _ _. w)
      λ s _ _. ground (
        arith,
        w,
        remove_session-IsWellFormed session_id a w,
        touch_session-IsWellFormed now session_id a w,
      )

-- Every call keeps the maps' keys distinct and each API key and session under its own id.
pub step-IsWellFormed :
    (hash_key : String → String) (a : AuthSystem) (call : Call)
    → IsWellFormed a
    → IsWellFormed (step hash_key a call)
unfolding step generate_api_key revoke_api_key invalidate_session cleanup_expired
step-IsWellFormed hash_key a (generates now key_id api_key name permissions expires_at) w =
    insert_key-IsWellFormed key_id _ a refl w
step-IsWellFormed hash_key a (authenticates checked now session_id api_key client_id) w =
    authenticate-IsWellFormed hash_key checked now session_id api_key client_id a w
step-IsWellFormed hash_key a (authorizes now session_id permission) w =
    authorize-IsWellFormed now session_id permission a w
step-IsWellFormed hash_key a (revokes key_id) w = elim (Option-cases (get key_id a.api_keys)) [
  | inl missing ↦ ground (arith, w)
  | inr (i, found) ↦
      let b : AuthSystem = record a {
        api_keys = modify key_id (λ i. record i { active = false }) a.api_keys;
      } in
      let wb = modify_key-IsWellFormed key_id (λ i. record i { active = false }) a (λ i. refl) w in
      ground (arith, retain_sessions-IsWellFormed (λ _ s. not (s.api_key_id == key_id)) b wb)
]
step-IsWellFormed hash_key a (invalidates session_id) w = remove_session-IsWellFormed session_id a w
step-IsWellFormed hash_key a (cleans now) w =
    limits-IsWellFormed _ (record a { sessions = retain (λ _ s. is_live now s) a.sessions })
      (retain-IsMap _ a.rate_limits w.limits_map)
      (retain_sessions-IsWellFormed (λ _ s. is_live now s) a w)
