-- ===== src/Auth/Cleanup.antt =====
-- What `cleanup_expired` of sv2-core/src/auth.rs keeps, and the second in which it disagrees with
-- `authorize` about the end of a session.
use stratum_v2_tools.Auth.System.{authorize, cleanup_expired, get_active_sessions, is_live}
use stratum_v2_tools.Auth.Types.{
  AuthSystem, Permission, SessionInfo, granted, has_permission, permission_eq, session_invalid,
}
use stratum_v2_tools.Auth.WellFormed.{IsWellFormed}
use stratum_v2_tools.Common.{
  Option-cases, String, arith, inl, inr, nat_eq, some, string_eq, true, ℕ, ◌≡◌, ◌≢◌,
}
use stratum_v2_tools.Common.Map.{get, get-retain, keep, values}
use stratum_v2_tools.Common.Map.Values.{values-retain}

-- A clean-up keeps exactly the sessions that end after it, unchanged.
pub cleanup_expired-sessions :
    (now : ℕ) (sid : String) (a : AuthSystem)
    → IsWellFormed a
    → get sid (cleanup_expired now a).sessions
      ≡ keep (λ _ s. is_live now s) sid (get sid a.sessions)
unfolding cleanup_expired
cleanup_expired-sessions now sid a w =
    get-retain (λ _ s. is_live now s) sid a.sessions w.sessions_map

-- A clean-up changes no answer of `authorize` at the same reading of the clock, except for a session
-- that ends in that very second.
pub authorize-cleanup_expired :
    (now : ℕ) (sid : String) (permission : Permission) (a : AuthSystem)
    → IsWellFormed a
    → ((s : SessionInfo) → get sid a.sessions ≡ some s → s.expires_at ≢ now)
    → (authorize now sid permission (cleanup_expired now a)).1 ≡ (authorize now sid permission a).1
unfolding authorize cleanup_expired is_live
authorize-cleanup_expired now sid permission a w h =
    let after = get-retain (λ _ s. is_live now s) sid a.sessions w.sessions_map in
    elim (Option-cases (get sid a.sessions)) [
      | inl g ↦ ground (arith, after, g)
      | inr (s, g) ↦ ground (arith, after, g, h s g)
    ]

-- In the second in which a session ends `authorize` still grants what it may use, while a clean-up
-- has already dropped it, so that the same request is then refused.
pub authorize_last_second :
    (sid : String) (permission : Permission) (s : SessionInfo) (a : AuthSystem)
    → IsWellFormed a
    → a.config.enabled ≡ true
    → get sid a.sessions ≡ some s
    → has_permission s.permissions permission ≡ true
    → ((authorize s.expires_at sid permission a).1 ≡ granted)
      × ((authorize s.expires_at sid permission (cleanup_expired s.expires_at a)).1
          ≡ session_invalid)
unfolding authorize cleanup_expired is_live
authorize_last_second sid permission s a w on g may =
    let after = get-retain (λ _ x. is_live s.expires_at x) sid a.sessions w.sessions_map in
    (ground (arith, on, g, may), ground (arith, on, g, after))

-- The sessions that a clean-up leaves are the ones listed as active before it, in the same order.
pub get_active_sessions-cleanup_expired :
    (now : ℕ) (a : AuthSystem) → values (cleanup_expired now a).sessions ≡ get_active_sessions now a
unfolding cleanup_expired get_active_sessions
get_active_sessions-cleanup_expired now a = values-retain (is_live now) a.sessions
