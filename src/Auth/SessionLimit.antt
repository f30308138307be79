-- ===== src/Auth/SessionLimit.antt =====
-- The bound on the live sessions of an API key, after every history (sv2-core/src/auth.rs).
-- From time `t` on, no key has more live sessions than the configuration allows.
use stratum_v2_tools.Auth.Cases.{authenticate_cases}
use stratum_v2_tools.Auth.RateLimit.{record_rate_limit_attempt}
use stratum_v2_tools.Auth.Run.{
  Call, InOrder, Ordered, authenticates, authorizes, cleans, clock_after, generates, invalidates,
  last_clock, revokes, run, run_inv, step, step-config,
}
use stratum_v2_tools.Auth.System.{
  active_sessions, admit, authenticate, authorize, cleanup_expired, generate_api_key,
  invalidate_session, is_live, is_live_of, new, open_session, revoke_api_key,
}
use stratum_v2_tools.Auth.Types.{
  ApiKeyInfo, AuthConfig, AuthSystem, Permission, SessionInfo, permission_eq,
}
use stratum_v2_tools.Common.{
  ==_iff, Bool-cases, List, String, arith, count_by, count_by-le, false, inl, inr, leb, nat_eq, not,
  refl, string_eq, subst, ℕ, ◌<◌, ◌==◌, ◌∙◌, ◌≡◌, ◌≤◌,
}
use stratum_v2_tools.Common.Map.{insert, values}
use stratum_v2_tools.Common.Map.Values.{
  count_by-insert, count_by-modify, count_by-remove, count_by-retain,
}

abbrev pub IsBounded : ℕ → AuthSystem → Type 0
IsBounded t a =
    (key_id : String) (now : ℕ)
    → t ≤ now
    → active_sessions key_id now a ≤ a.config.max_sessions_per_key

active_sessions-later :
    (key_id : String) (t now : ℕ) (a : AuthSystem)
    → t ≤ now
    → active_sessions key_id now a ≤ active_sessions key_id t a
unfolding active_sessions
active_sessions-later key_id t now a o =
    count_by-le (is_live_of key_id now) (is_live_of key_id t) (λ s h. ground arith)
      (values a.sessions)

-- A new session of a key that has room keeps the bound.
insert-IsBounded :
    (now : ℕ) (session_id : String) (s : SessionInfo) (a : AuthSystem)
    → active_sessions s.api_key_id now a < a.config.max_sessions_per_key
    → IsBounded now a
    → (key_id : String) (later : ℕ) → now ≤ later
    → count_by (is_live_of key_id later) (values (insert session_id s a.sessions))
      ≤ a.config.max_sessions_per_key
unfolding active_sessions
insert-IsBounded now session_id s a room b key_id later o =
    elim (Bool-cases (s.api_key_id == key_id)) [
      | inl same ↦
          let older : active_sessions key_id later a < a.config.max_sessions_per_key =
            subst (λ k. active_sessions k later a < a.config.max_sessions_per_key)
              ((==_iff s.api_key_id key_id).0 same)
              (omega (arith, room, active_sessions-later s.api_key_id now later a o)) in
          ground (arith, older, count_by-insert (is_live_of key_id later) session_id s a.sessions)
      | inr other ↦
          let none_new : is_live_of key_id later s ≡ false = rw (other, is_live_of) in
          ground (
            arith,
            none_new,
            b key_id later o,
            count_by-insert (is_live_of key_id later) session_id s a.sessions,
          )
    ]

admit-IsBounded :
    (now : ℕ) (session_id client_id : String) (key : String) (info : ApiKeyInfo) (a : AuthSystem)
    → IsBounded now a
    → IsBounded now (admit now session_id client_id (key, info) a).0
unfolding admit active_sessions open_session
admit-IsBounded now session_id client_id key info a b key_id later o =
    let s : SessionInfo = open_session now session_id client_id info a.config in
    let added = λ (r : active_sessions info.id now a < a.config.max_sessions_per_key).
      insert-IsBounded now session_id s a r b key_id later o in
    elim (Bool-cases (leb a.config.max_sessions_per_key (active_sessions info.id now a))) [
      | inl full ↦ rw (full, admit) (ground (arith, b key_id later o))
      | inr room ↦ rw (room, admit) (ground (arith, b key_id later o, added (ground arith)))
    ]

IsBounded-later : (t now : ℕ) (a : AuthSystem) → t ≤ now → IsBounded t a → IsBounded now a
IsBounded-later t now a o b key_id later h = b key_id later (omega arith)

authenticate-IsBounded :
    (hash_key : String → String) (checked now : ℕ) (session_id api_key client_id : String)
    (a : AuthSystem)
    → IsBounded now a
    → IsBounded now (authenticate hash_key checked now session_id api_key client_id a).0
unfolding record_rate_limit_attempt active_sessions
authenticate-IsBounded hash_key checked now session_id api_key client_id a b =
    authenticate_cases (λ r. IsBounded now r.0) hash_key checked now session_id api_key client_id a
      (λ _. b) (λ _ _ _. b) (λ _ _ _. b)
      (λ key info _ _ _. admit-IsBounded now session_id client_id key info a b)

authorize-IsBounded :
    (now : ℕ) (session_id : String) (permission : Permission) (a : AuthSystem)
    → IsBounded now a
    → IsBounded now (authorize now session_id permission a).0
unfolding authorize active_sessions
authorize-IsBounded now session_id permission a b key_id later o = ground (
  arith,
  b key_id later o,
  count_by-remove (is_live_of key_id later) session_id a.sessions,
  count_by-modify (is_live_of key_id later) session_id (λ t. record t { last_activity = now })
      (λ s. refl) a.sessions,
)

revoke_api_key-IsBounded :
    (t : ℕ) (key_id : String) (a : AuthSystem)
    → IsBounded t a
    → IsBounded t (revoke_api_key key_id a)
unfolding revoke_api_key active_sessions
revoke_api_key-IsBounded t key_id a b k later o = ground (
  arith,
  b k later o,
  count_by-retain (is_live_of k later) (λ _ s. not (s.api_key_id == key_id)) a.sessions,
)

cleanup_expired-IsBounded :
    (now : ℕ) (a : AuthSystem) → IsBounded now a → IsBounded now (cleanup_expired now a)
unfolding cleanup_expired active_sessions
cleanup_expired-IsBounded now a b k later o =
    ground
      (arith, b k later o, count_by-retain (is_live_of k later) (λ _ s. is_live now s) a.sessions)

step-IsBounded :
    (hash_key : String → String) (t : ℕ) (a : AuthSystem) (call : Call)
    → InOrder t call
    → IsBounded t a
    → IsBounded (clock_after t call) (step hash_key a call)
unfolding step generate_api_key invalidate_session active_sessions
step-IsBounded hash_key t a (generates now key_id api_key name permissions expires_at) o b =
    IsBounded-later t now a o.0 b
step-IsBounded hash_key t a (authenticates checked now session_id api_key client_id) o b =
    authenticate-IsBounded hash_key checked now session_id api_key client_id a
      (IsBounded-later t now a (omega arith) b)
step-IsBounded hash_key t a (authorizes now session_id permission) o b =
    authorize-IsBounded now session_id permission a (IsBounded-later t now a o.0 b)
step-IsBounded hash_key t a (revokes key_id) o b = revoke_api_key-IsBounded t key_id a b
step-IsBounded hash_key t a (invalidates session_id) o b = λ k later h.
    omega (arith, b k later h, count_by-remove (is_live_of k later) session_id a.sessions)
step-IsBounded hash_key t a (cleans now) o b =
    cleanup_expired-IsBounded now a (IsBounded-later t now a o.0 b)

-- After every history of calls from a new system, under a clock that does not run backwards, each
-- API key has at most `max_sessions_per_key` live sessions, at the last reading and at any time after.
pub run-IsBounded :
    (hash_key : String → String) (c : AuthConfig) (cs : List Call)
    → Ordered 0 cs
    → (key_id : String) (now : ℕ) → last_clock 0 cs ≤ now
    → active_sessions key_id now (run hash_key (new c) cs) ≤ c.max_sessions_per_key
unfolding new active_sessions count_by
run-IsBounded hash_key c cs o key_id now later =
    let (same, bound) =
      run_inv hash_key (λ t a. (a.config ≡ c) × IsBounded t a)
        (λ t a call i p.
          (step-config hash_key a call ∙ p.0, step-IsBounded hash_key t a call i p.1))
        0 (new c) cs o (refl, λ k n h. omega arith) in
    subst (λ d. active_sessions key_id now (run hash_key (new c) cs) ≤ d.max_sessions_per_key) same
      (bound key_id now later)
