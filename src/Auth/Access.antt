-- ===== src/Auth/Access.antt =====
-- What `authenticate` and `authorize` of sv2-core/src/auth.rs grant, and to whom.
use mathlib.Core.Bool.{false≢true}
use stratum_v2_tools.Auth.Cases.{admit_cases, authenticate_cases, authorize_cases}
use stratum_v2_tools.Auth.System.{
  active_sessions, admit, authenticate, authorize, authorize_session, is_key, key_expired,
  open_session,
}
use stratum_v2_tools.Auth.Types.{
  ApiKeyInfo, AuthSystem, Permission, SessionInfo, admin_access, get_all_permissions, granted,
  has_permission, permission_eq, success,
}
use stratum_v2_tools.Auth.WellFormed.{IsWellFormed}
use stratum_v2_tools.Common.{
  ==_iff, ==_refl, In, List, String, arith, false, nat_eq, some, string_eq, subst, sym, true, ℕ,
  ◌<◌, ◌↔◌, ◌∙◌, ◌≡◌, ◌≢◌, ◌≤◌, ◌⊎◌,
}
use stratum_v2_tools.Common.Map.{find_entry-get, get, get-insert, get-modify, get-remove, insert}

-- What a successful authentication has established: `a` is the system before the call, `b` after.
pub record IsAdmitted (hash_key : String → String) (now : ℕ) (session_id api_key client_id : String)
    (a : AuthSystem) (permissions : List Permission) (b : AuthSystem) : Type 0 where
  pub key : String
  pub info : ApiKeyInfo
  pub listed : get key a.api_keys ≡ some info
  pub hashed : info.key_hash ≡ hash_key api_key
  pub active : info.active ≡ true
  pub unexpired : (e : ℕ) → info.expires_at ≡ some e → now ≤ e
  pub room : active_sessions info.id now a < a.config.max_sessions_per_key
  pub permitted : info.permissions ≡ permissions
  pub stored :
      get session_id b.sessions ≡ some (open_session now session_id client_id info a.config)
  pub others : (j : String) → session_id ≢ j → get j b.sessions ≡ get j a.sessions

unexpired_of :
    (now : ℕ) (info : ApiKeyInfo)
    → key_expired now info ≡ false
    → (e : ℕ) → info.expires_at ≡ some e
    → now ≤ e
unfolding key_expired
unexpired_of now info h e g = ground arith

admit-IsAdmitted :
    (hash_key : String → String) (now : ℕ) (session_id api_key client_id : String) (key : String)
    (info : ApiKeyInfo) (a b : AuthSystem) (sid : String) (permissions : List Permission)
    → get key a.api_keys ≡ some info
    → is_key (hash_key api_key) info ≡ true
    → admit now session_id client_id (key, info) a ≡ (b, success sid permissions)
    → (sid ≡ session_id) × IsAdmitted hash_key now session_id api_key client_id a permissions b
unfolding is_key
admit-IsAdmitted hash_key now session_id api_key client_id key info a b sid permissions g k =
    admit_cases
      (λ r.
        r ≡ (b, success sid permissions)
        → (sid ≡ session_id) × IsAdmitted hash_key now session_id api_key client_id a permissions b)
      now session_id client_id key info a (λ _ e. cc) (λ _ _ e. cc)
      λ fresh room e.
        let opened = open_session now session_id client_id info a.config in
        let after : b.sessions ≡ insert session_id opened a.sessions = ground arith in
        (
          ground arith,
          record {
            key = key;
            info = info;
            listed = g;
            hashed = (==_iff info.key_hash (hash_key api_key)).0 (ground arith);
            active = ground arith;
            unexpired = unexpired_of now info fresh;
            room = room;
            permitted = ground arith;
            stored = ground (
              arith,
              after,
              get-insert session_id session_id opened a.sessions,
              ==_refl session_id,
            );
            others = λ j ne.
                ground
                  (arith, after, get-insert session_id j opened a.sessions, ==_iff session_id j);
          },
        )

-- With authentication enabled, a success under a session id and permissions means: the id is the
-- fresh one; a listed, active, unexpired key has the presented key's hash and these permissions; the
-- key had room for a session; that session is stored, and no other session has changed.
pub authenticate-IsAdmitted :
    (hash_key : String → String) (checked now : ℕ) (session_id api_key client_id : String)
    (a b : AuthSystem) (sid : String) (permissions : List Permission)
    → a.config.enabled ≡ true
    → IsWellFormed a
    → authenticate hash_key checked now session_id api_key client_id a
      ≡ (b, success sid permissions)
    → (sid ≡ session_id) × IsAdmitted hash_key now session_id api_key client_id a permissions b
authenticate-IsAdmitted hash_key checked now session_id api_key client_id a b sid permissions on w =
    authenticate_cases
      (λ r.
        r ≡ (b, success sid permissions)
        → (sid ≡ session_id) × IsAdmitted hash_key now session_id api_key client_id a permissions b)
      hash_key checked now session_id api_key client_id a
      (λ off _. absurd (false≢true (sym off ∙ on))) (λ _ _ _ e. cc) (λ _ _ _ e. cc)
      λ key info _ _ f e.
        let (g, k) =
          find_entry-get (is_key (hash_key api_key)) a.api_keys key info w.api_keys_map f in
        admit-IsAdmitted hash_key now session_id api_key client_id key info a b sid permissions g k
          e

abbrev Holds : Permission → SessionInfo → Type 0
Holds permission s = In permission s.permissions ⊎ In admin_access s.permissions

-- Who may do what: the session is in the map and not past its end, and holds the permission or
-- the administrator's.
abbrev pub MayUse : ℕ → String → Permission → AuthSystem → Type 0
MayUse now session_id permission a =
    (s : SessionInfo) × (get session_id a.sessions ≡ some s)
    × (now ≤ s.expires_at)
    × (In permission s.permissions ⊎ In admin_access s.permissions)

authorize_session_iff :
    (now : ℕ) (session_id : String) (s : SessionInfo) (permission : Permission) (a : AuthSystem)
    → ((authorize_session now session_id s permission a).1 ≡ granted)
      ↔ ((now ≤ s.expires_at) × (In permission s.permissions ⊎ In admin_access s.permissions))
unfolding authorize_session has_permission
authorize_session_iff now session_id s permission a = ground arith

-- With authentication enabled, `authorize` grants a permission exactly if the session is in the map
-- and not past its end, and holds that permission or the administrator's.
pub authorize_granted_iff :
    (now : ℕ) (session_id : String) (permission : Permission) (a : AuthSystem)
    → a.config.enabled ≡ true
    → ((authorize now session_id permission a).1 ≡ granted) ↔ MayUse now session_id permission a
authorize_granted_iff now session_id permission a on =
    authorize_cases (λ r. (r.1 ≡ granted) ↔ MayUse now session_id permission a) now session_id
      permission a (λ off. absurd (false≢true (sym off ∙ on)))
      (λ _ g. ((λ e. cc), (λ m. ground (arith, g, m.1))))
      λ s _ g.
        let (to, from) = authorize_session_iff now session_id s permission a in
        (
          (λ e. (s, g, (to e).0, (to e).1)),
          (λ m.
              let same : m.0 ≡ s = ground (arith, g, m.1) in
              from (subst (λ x. now ≤ x.expires_at) same m.2, subst (Holds permission) same m.3)),
        )

-- An authorization touches the asked session alone: it drops it if it has expired, and otherwise
-- sets its last activity.
pub authorize_sessions :
    (now : ℕ) (session_id j : String) (permission : Permission) (a : AuthSystem)
    → session_id ≢ j
    → get j (authorize now session_id permission a).0.sessions ≡ get j a.sessions
unfolding authorize
authorize_sessions now session_id j permission a ne = ground (
  arith,
  get-remove session_id j a.sessions,
  get-modify session_id j (λ t. record t { last_activity = now }) a.sessions,
  ==_iff session_id j,
)

-- Without authentication enabled every request succeeds with every permission, under a session id
-- that is not stored: nothing changes.
pub authenticate_disabled :
    (hash_key : String → String) (checked now : ℕ) (session_id api_key client_id : String)
    (a : AuthSystem)
    → a.config.enabled ≡ false
    → authenticate hash_key checked now session_id api_key client_id a
      ≡ (a, success session_id get_all_permissions)
unfolding authenticate
authenticate_disabled hash_key checked now session_id api_key client_id a e = ground arith
