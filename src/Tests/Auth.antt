-- ===== src/Tests/Auth.antt =====
-- The theorems on sv2-core/src/auth.rs at small systems.
use stratum_v2_tools.Auth.Access.{
  IsAdmitted, MayUse, authenticate-IsAdmitted, authorize_granted_iff,
}
use stratum_v2_tools.Auth.Cleanup.{authorize-cleanup_expired}
use stratum_v2_tools.Auth.Guessing.{guesses, guesses_limited}
use stratum_v2_tools.Auth.Keys.{authenticate-generate_api_key}
use stratum_v2_tools.Auth.Quiet.{IsLimited, run-unblocked}
use stratum_v2_tools.Auth.RateLimit.{check_rate_limit}
use stratum_v2_tools.Auth.Revocation.{authenticate-revoke_api_key}
use stratum_v2_tools.Auth.Run.{Call, Ordered, authenticates, generates, revokes, run, step}
use stratum_v2_tools.Auth.SessionLimit.{run-IsBounded}
use stratum_v2_tools.Auth.System.{
  active_sessions, admit, authenticate, authorize, cleanup_expired, generate_api_key, is_key, new,
  revoke_api_key,
}
use stratum_v2_tools.Auth.Throttle.{IsWithin, Try}
use stratum_v2_tools.Auth.Types.{
  ApiKeyInfo, AuthSystem, SessionInfo, granted, rate_limited, success, view_shares,
}
use stratum_v2_tools.Auth.WellFormed.{IsWellFormed, step-IsWellFormed}
use stratum_v2_tools.Common.{
  ==_iff, List, String, [], arith, count_by, nat_eq, none, refl, some, string_eq, ℕ, ◌<◌, ◌↔◌, ◌∷◌,
  ◌≡◌, ◌≢◌, ◌≤◌,
}
use stratum_v2_tools.Common.Map.{find_entry, get, insert, modify}
use stratum_v2_tools.Common.Map.Values.{AllValues}
use stratum_v2_tools.Common.Words.{add_u64}
use stratum_v2_tools.Tests.Systems.{
  a_key, a_session, a_system, a_system-IsWellFormed, empty_system, hash, small_config,
}

abbrev two_logins : List Call
two_logins =
    generates 10 "key" "secret" "monitor" (view_shares ∷ []) none
    ∷ authenticates 20 20 "s1" "secret" "10.0.0.1:3333"
    ∷ authenticates 21 22 "s2" "secret" "10.0.0.1:3333"
    ∷ authenticates 23 23 "s3" "secret" "10.0.0.1:3333"
    ∷ []

two_logins-Ordered : Ordered 0 two_logins
two_logins-Ordered = (
  (omega arith, omega arith),
  (
    (omega arith, omega arith, omega arith),
    ((omega arith, omega arith, omega arith), ((omega arith, omega arith, omega arith), tt)),
  ),
)

run-IsBounded_example : active_sessions "key" 30 (run hash (new small_config) two_logins) ≤ 2
run-IsBounded_example =
    run-IsBounded hash small_config two_logins two_logins-Ordered "key" 30 (omega arith)

small_config-IsLimited : IsLimited small_config
small_config-IsLimited = record { positive = omega arith; narrow = omega arith }

run-unblocked_example :
    AllValues
      (λ s. (s.blocked_until ≡ none) × (s.request_count ≤ 3))
      (run hash (new small_config) two_logins).rate_limits
run-unblocked_example =
    run-unblocked hash small_config two_logins small_config-IsLimited two_logins-Ordered

authorize_granted_iff_example :
    ((authorize 100 "session" view_shares a_system).1 ≡ granted)
    ↔ MayUse 100 "session" view_shares a_system
authorize_granted_iff_example = authorize_granted_iff 100 "session" view_shares a_system refl

abbrev logged_in : AuthSystem
logged_in = record a_system {
  api_keys = ("key", record a_key { last_used = some 30 }) ∷ [];
  sessions =
      ("session", a_session)
      ∷ (
        "s1",
        record a_session {
          id = "s1";
          client_id = "10.0.0.2:3333";
          created_at = 30;
          last_activity = 30;
          expires_at = 3630;
        },
      )
      ∷ [];
}

a_login :
    authenticate hash 30 30 "s1" "secret" "10.0.0.2:3333" a_system
    ≡ (logged_in, success "s1" (view_shares ∷ []))
unfolding authenticate check_rate_limit find_entry get insert modify admit count_by add_u64
a_login = refl

authenticate-IsAdmitted_example :
    (◌≡◌ {A = String} "s1" "s1")
    × IsAdmitted hash 30 "s1" "secret" "10.0.0.2:3333" a_system (view_shares ∷ []) logged_in
authenticate-IsAdmitted_example =
    authenticate-IsAdmitted hash 30 30 "s1" "secret" "10.0.0.2:3333" a_system logged_in "s1"
      (view_shares ∷ []) refl a_system-IsWellFormed a_login

authenticate-generate_api_key_example :
    let made =
      generate_api_key hash 10 "key" "secret" "monitor" (view_shares ∷ []) none empty_system in
    (authenticate hash 20 20 "s1" made.1.1 "10.0.0.1:3333" made.0).1
    ≡ success "s1" (view_shares ∷ [])
unfolding check_rate_limit get find_entry active_sessions count_by
authenticate-generate_api_key_example =
    authenticate-generate_api_key hash 10 20 20 "key" "secret" "monitor" "s1" "10.0.0.1:3333"
      (view_shares ∷ []) none empty_system refl refl refl refl (λ e h. ground arith) (omega arith)

alone :
    (k : String) (j : ApiKeyInfo)
    → get k a_system.api_keys ≡ some j
    → j.key_hash ≡ hash "secret"
    → k ≡ "key"
unfolding get
alone k j e h = ground (arith, ==_iff "key" k)

-- A further key is made, and an unknown one is tried.
abbrev later_calls : List Call
later_calls =
    generates 40 "other" "hidden" "monitor" (view_shares ∷ []) none
    ∷ authenticates 50 50 "s2" "guess" "10.0.0.3:3333"
    ∷ revokes "key"
    ∷ []

hidden-other : ◌≢◌ {A = String} "hidden" "secret"
hidden-other e = ground (arith, ==_iff {A = String} "hidden" "secret")

authenticate-revoke_api_key_example :
    authenticate hash 60 60 "s1" "secret" "10.0.0.2:3333"
      (run hash (revoke_api_key "key" a_system) later_calls)
    ≢ (logged_in, success "s1" (view_shares ∷ []))
unfolding get
authenticate-revoke_api_key_example =
    authenticate-revoke_api_key hash 60 60 "key" "secret" "s1" "10.0.0.2:3333" a_key a_system
      logged_in later_calls "s1" (view_shares ∷ []) refl a_system-IsWellFormed refl alone
      (hidden-other, (tt, (tt, tt)))

abbrev a_try : String → ℕ → Try
a_try api_key t = record { api_key = api_key; checked = t; now = t; session_id = "s1" }

a_try-IsWithin :
    (api_key : String) (t : ℕ) → 100 ≤ t → t < 160 → IsWithin small_config 100 (a_try api_key t)
a_try-IsWithin api_key t lo hi = record {
  after = lo;
  ordered = omega arith;
  inside = hi;
  word = omega arith;
}

guesses_limited_example :
    let b =
      guesses hash "10.0.0.1" a_system (a_try "k1" 100 ∷ a_try "k2" 101 ∷ a_try "k3" 102 ∷ []) in
    (wait : ℕ) × (wait ≤ 60)
    × (authenticate hash 110 110 "s1" "secret" "10.0.0.1" b ≡ (b, rate_limited wait))
unfolding get find_entry is_key
guesses_limited_example =
    guesses_limited hash "10.0.0.1" a_system (a_try "k1" 100) (a_try "secret" 110)
      (a_try "k2" 101 ∷ a_try "k3" 102 ∷ []) refl small_config-IsLimited (refl, (refl, (refl, tt)))
      refl (omega arith)
      (
        a_try-IsWithin "k2" 101 (omega arith) (omega arith),
        (a_try-IsWithin "k3" 102 (omega arith) (omega arith), tt),
      )
      (omega arith) (a_try-IsWithin "secret" 110 (omega arith) (omega arith))

step-IsWellFormed_example :
    IsWellFormed (step hash a_system (authenticates 30 30 "s1" "secret" "10.0.0.2:3333"))
step-IsWellFormed_example =
    step-IsWellFormed hash a_system (authenticates 30 30 "s1" "secret" "10.0.0.2:3333")
      a_system-IsWellFormed

ends_later : (s : SessionInfo) → get "session" a_system.sessions ≡ some s → s.expires_at ≢ 100
unfolding get
ends_later s e = ground arith

authorize-cleanup_expired_example :
    (authorize 100 "session" view_shares (cleanup_expired 100 a_system)).1
    ≡ (authorize 100 "session" view_shares a_system).1
authorize-cleanup_expired_example =
    authorize-cleanup_expired 100 "session" view_shares a_system a_system-IsWellFormed ends_later
