-- ===== src/ConnectionAuth/Expiry.antt =====
-- Which connections the clean-up of sv2-core/src/connection_auth.rs disconnects.
use stratum_v2_tools.Auth.Run.{cleans, step}
use stratum_v2_tools.Auth.System.{cleanup_expired, get_active_sessions, is_live}
use stratum_v2_tools.Auth.Types.{AuthSystem, SessionInfo, permission_eq}
use stratum_v2_tools.Auth.WellFormed.{IsWellFormed, step-IsWellFormed}
use stratum_v2_tools.Common.{
  ==_iff, ==_refl, Bool, Bool-cases, List, Option, String, [], ap, arith, contains, false,
  if◌then◌else◌, inl, inr, map, nat_eq, none, not, refl, select, some, string_eq, subst, ℕ, ◌==◌,
  ◌∙◌, ◌∷◌, ◌≡◌, ◌≤◌,
}
use stratum_v2_tools.Common.Map.{IsMap, Map, get, get-remove, get-retain, keep, values}
use stratum_v2_tools.ConnectionAuth.Manager.{
  ConnectionAuthManager, cleanup_connections, disconnect_all, disconnect_connection,
  expired_connections,
}

disconnect_all-get :
    (cs : List String) (m : ConnectionAuthManager) (c : String)
    → (get c (disconnect_all cs m).connection_sessions
        ≡ (if contains cs c then none else get c m.connection_sessions))
      × (get c (disconnect_all cs m).connection_metadata
          ≡ (if contains cs c then none else get c m.connection_metadata))
unfolding disconnect_all disconnect_connection contains
disconnect_all-get [] m c = (refl, refl)
disconnect_all-get (x ∷ cs) m c =
    let (s, d) = disconnect_all-get cs (disconnect_connection x m) c in
    (
      ground (arith, s, get-remove x c m.connection_sessions),
      ground (arith, d, get-remove x c m.connection_metadata),
    )

-- Whether a connection with this session is expired.
abbrev is_stale : List String → Option String → Bool
is_stale active none = false
is_stale active (some sid) = not (contains active sid)

contains-expired_none :
    (active : List String) (m : Map String String) (c : String)
    → get c m ≡ none
    → contains (expired_connections active m) c ≡ false
unfolding expired_connections contains get
contains-expired_none active [] c e = refl
contains-expired_none active ((j, sid) ∷ m) c e = ground (arith, contains-expired_none active m c)

contains-expired_connections :
    (active : List String) (m : Map String String) (c : String)
    → IsMap m
    → contains (expired_connections active m) c ≡ is_stale active (get c m)
unfolding expired_connections contains get
contains-expired_connections active [] c h = refl
contains-expired_connections active ((j, sid) ∷ m) c (fresh, h) = elim (Bool-cases (j == c)) [
  | inl hit ↦
      let gone =
        contains-expired_none active m c (subst (λ k. get k m ≡ none) ((==_iff j c).0 hit) fresh) in
      ground (arith, hit, gone)
  | inr miss ↦ ground (arith, miss, contains-expired_connections active m c h)
]

-- The test of a session that may be missing.
abbrev passes : (SessionInfo → Bool) → Option SessionInfo → Bool
passes p none = false
passes p (some s) = p s

contains-ids :
    (p : SessionInfo → Bool) (m : Map String SessionInfo) (k : String)
    → IsMap m
    → ((j : String) (s : SessionInfo) → get j m ≡ some s → s.id ≡ j)
    → contains (map (λ s. s.id) (select p (values m))) k ≡ passes p (get k m)
unfolding contains select get
contains-ids p [] k h ids = refl
contains-ids p ((j, s) ∷ m) k (fresh, h) ids =
    let rest = contains-ids p m k h λ i x e. ids i x (ground (arith, e, fresh, ==_iff j i)) in
    ground (arith, rest, ids j s, ==_refl j, ==_iff j k, fresh)

-- A connection is lost if it has a session which the authentication does not hold or which has ended.
abbrev pub is_lost : ℕ → AuthSystem → Option String → Bool
is_lost now a none = false
is_lost now a (some sid) = not (passes (is_live now) (get sid a.sessions))

is_live-twice :
    (k : String) (cleaned listed : ℕ)
    → cleaned ≤ listed
    → (o : Option SessionInfo)
    → passes (is_live listed) (keep (λ _ s. is_live cleaned s) k o) ≡ passes (is_live listed) o
unfolding is_live
is_live-twice k cleaned listed h none = refl
is_live-twice k cleaned listed h (some s) = ground arith

cleanup_expired-IsWellFormed :
    (cleaned : ℕ) (a : AuthSystem) → IsWellFormed a → IsWellFormed (cleanup_expired cleaned a)
unfolding step
cleanup_expired-IsWellFormed cleaned a w = step-IsWellFormed (λ s. s) a (cleans cleaned) w

is_stale-is_lost :
    (cleaned listed : ℕ) (a : AuthSystem)
    → IsWellFormed a
    → cleaned ≤ listed
    → (o : Option String)
    → is_stale (map (λ s. s.id) (get_active_sessions listed (cleanup_expired cleaned a))) o
      ≡ is_lost listed a o
unfolding get_active_sessions cleanup_expired
is_stale-is_lost cleaned listed a w h none = refl
is_stale-is_lost cleaned listed a w h (some sid) =
    let clean = cleanup_expired-IsWellFormed cleaned a w in
    let ids =
      contains-ids (is_live listed) (cleanup_expired cleaned a).sessions sid clean.sessions_map
        clean.session_ids in
    let kept = get-retain (λ _ s. is_live cleaned s) sid a.sessions w.sessions_map in
    ap not (
      ids
      ∙ ap (passes (is_live listed)) kept
      ∙ is_live-twice sid cleaned listed h (get sid a.sessions))

-- The clean-up disconnects exactly the connections that have a session which the authentication
-- does not hold or which has ended; every other connection keeps its metadata and its session.
pub cleanup_connections_lem :
    (cleaned listed : ℕ) (c : String) (m : ConnectionAuthManager)
    → IsWellFormed m.auth_system
    → IsMap m.connection_sessions
    → cleaned ≤ listed
    → let after = cleanup_connections cleaned listed m in
      let lost = is_lost listed m.auth_system (get c m.connection_sessions) in
      (get c after.connection_sessions ≡ (if lost then none else get c m.connection_sessions))
      × (get c after.connection_metadata ≡ (if lost then none else get c m.connection_metadata))
unfolding cleanup_connections
cleanup_connections_lem cleaned listed c m w h o =
    let auth = cleanup_expired cleaned m.auth_system in
    let active = map (λ s. s.id) (get_active_sessions listed auth) in
    let gone = expired_connections active m.connection_sessions in
    let (s, d) = disconnect_all-get gone (record m { auth_system = auth }) c in
    let stale =
      contains-expired_connections active m.connection_sessions c h
      ∙ is_stale-is_lost cleaned listed m.auth_system w o (get c m.connection_sessions) in
    (rw (← stale) s, rw (← stale) d)
