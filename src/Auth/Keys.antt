-- ===== src/Auth/Keys.antt =====
-- The life of an API key in sv2-core/src/auth.rs: created, used, listed, revoked.
use stratum_v2_tools.Auth.Cases.{authenticate_found}
use stratum_v2_tools.Auth.RateLimit.{check_rate_limit}
use stratum_v2_tools.Auth.System.{
  active_sessions, authenticate, generate_api_key, get_api_keys, is_key, is_read_only, key_expired,
  new_key, redact, requires_auth, revoke_api_key,
}
use stratum_v2_tools.Auth.Types.{ApiKeyInfo, AuthSystem, Permission, success}
use stratum_v2_tools.Auth.WellFormed.{IsWellFormed}
use stratum_v2_tools.Common.{
  ==_refl, Bool, Bool-cases, List, Option, Option-cases, String, [], ap, arith, false, inl, inr,
  map, nat_eq, none, not, refl, some, string_eq, true, ℕ, ◌<◌, ◌==◌, ◌↔◌, ◌∷◌, ◌≡◌, ◌≤◌, ◌⊎◌,
}
use stratum_v2_tools.Common.Map.{Map, find_entry, get, get-retain, insert, keep, values}

find_entry-insert :
    (p : ApiKeyInfo → Bool) (k : String) (i : ApiKeyInfo) (m : Map String ApiKeyInfo)
    → find_entry p m ≡ none
    → get k m ≡ none
    → p i ≡ true
    → find_entry p (insert k i m) ≡ some (k, i)
unfolding find_entry insert get
find_entry-insert p k i [] f g h = ground arith
find_entry-insert p k i ((j, w) ∷ m) f g h = ground (arith, find_entry-insert p k i m)

key_unexpired :
    (now : ℕ) (info : ApiKeyInfo)
    → ((e : ℕ) → info.expires_at ≡ some e → now ≤ e)
    → key_expired now info ≡ false
unfolding key_expired
key_unexpired now info h = elim (Option-cases info.expires_at) [
  | inl missing ↦ ground arith
  | inr (e, g) ↦ ground (arith, h e g)
]

-- A key that was just generated authenticates its client with the permissions asked for, if
-- authentication is enabled, the client is not rate limited, the key's id and hash are new, its end
-- is not past, and a key without sessions has room for one.
pub authenticate-generate_api_key :
    (hash_key : String → String) (created checked now : ℕ)
    (key_id api_key name session_id client_id : String) (permissions : List Permission)
    (expires_at : Option ℕ) (a : AuthSystem)
    → a.config.enabled ≡ true
    → check_rate_limit checked client_id a ≡ none
    → get key_id a.api_keys ≡ none
    → find_entry (is_key (hash_key api_key)) a.api_keys ≡ none
    → ((e : ℕ) → expires_at ≡ some e → now ≤ e)
    → active_sessions key_id now a < a.config.max_sessions_per_key
    → let made = generate_api_key hash_key created key_id api_key name permissions expires_at a in
      (authenticate hash_key checked now session_id made.1.1 client_id made.0).1
      ≡ success session_id permissions
unfolding generate_api_key check_rate_limit active_sessions is_key new_key
authenticate-generate_api_key hash_key created checked now key_id api_key name session_id client_id
      permissions expires_at a on free new_id new_hash fresh room =
    let info = new_key created key_id (hash_key api_key) name permissions expires_at in
    let listed =
      find_entry-insert (is_key (hash_key api_key)) key_id info a.api_keys new_hash new_id
        (ground (arith, ==_refl (hash_key api_key))) in
    authenticate_found hash_key checked now session_id api_key client_id
      (record a { api_keys = insert key_id info a.api_keys }) key_id info on free listed
      (key_unexpired now info fresh) room

-- A revoked key leaves no session behind, and every session of another key stays.
pub revoke_api_key-sessions :
    (key_id sid : String) (i : ApiKeyInfo) (a : AuthSystem)
    → IsWellFormed a
    → get key_id a.api_keys ≡ some i
    → get sid (revoke_api_key key_id a).sessions
      ≡ keep (λ _ s. not (s.api_key_id == key_id)) sid (get sid a.sessions)
unfolding revoke_api_key
revoke_api_key-sessions key_id sid i a w g =
    rw (g, revoke_api_key)
      (get-retain (λ _ s. not (s.api_key_id == key_id)) sid a.sessions w.sessions_map)

-- The listing of the keys tells nothing about their hashes: it is the same for every two systems
-- whose keys differ in their hashes only.
pub get_api_keys-redacted :
    (f : ApiKeyInfo → String) (a : AuthSystem)
    → get_api_keys
        (record a { api_keys = map (λ e. (e.0, record (e.1) { key_hash = f e.1 })) a.api_keys })
      ≡ get_api_keys a
unfolding get_api_keys
get_api_keys-redacted f a = go a.api_keys
  where
    go :
        (m : Map String ApiKeyInfo)
        → map redact (values (map (λ e. (e.0, record (e.1) { key_hash = f e.1 })) m))
          ≡ map redact (values m)
    go [] = refl
    go ((k, i) ∷ m) = ap (λ r. redact i ∷ r) (go m)

-- Reading operations need authentication exactly when it is enabled and required for reading; all
-- others need it whenever it is enabled.
pub requires_auth_iff :
    (permission : Permission) (a : AuthSystem)
    → (requires_auth permission a ≡ true) ↔ (
        (a.config.enabled ≡ true)
        × ((is_read_only permission ≡ false) ⊎ (a.config.require_auth_for_read ≡ true)))
unfolding requires_auth
requires_auth_iff permission a = elim (Bool-cases (is_read_only permission)) [
  | inl reads ↦ ground (arith, reads)
  | inr acts ↦ ground (arith, acts)
]
