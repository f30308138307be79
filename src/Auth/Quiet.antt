-- ===== src/Auth/Quiet.antt =====
-- What holds of the rate limiter of an `AuthSystem` (sv2-core/src/auth.rs) after every history.
use stratum_v2_tools.Auth.RateLimit.{
  check_rate_limit, check_state, count_attempt, first_state, record_rate_limit_attempt,
  state_or_first,
}
use stratum_v2_tools.Auth.RateLimit.Window.{IsQuiet, IsQuiet-later, count_attempt-IsQuiet}
use stratum_v2_tools.Auth.Run.{
  Call, InOrder, Ordered, authenticates, authorizes, cleans, clock_after, generates, invalidates,
  revokes, run, run_inv, step, step-config,
}
use stratum_v2_tools.Auth.System.{
  admit, authenticate, authorize, cleanup_expired, generate_api_key, invalidate_session, new,
  revoke_api_key,
}
use stratum_v2_tools.Auth.Types.{AuthConfig, AuthSystem, RateLimitState, permission_eq}
use stratum_v2_tools.Common.{
  List, Option, String, arith, nat_eq, none, refl, some, string_eq, subst, sym, ℕ, ◌<◌, ◌∙◌, ◌≡◌,
  ◌≤◌,
}
use stratum_v2_tools.Common.Map.{get}
use stratum_v2_tools.Common.Map.Values.{
  AllValues, AllValues-map, get-AllValues, insert-AllValues, retain-AllValues,
}
use stratum_v2_tools.Common.Words.{u32_mod, u64_mod}

-- Every state of the rate limiter is quiet at time `t`.
abbrev pub IsQuietAt : ℕ → AuthSystem → Type 0
IsQuietAt t a = AllValues (IsQuiet a.config t) a.rate_limits

-- The rate limit is a positive 32-bit word.
pub record IsLimited (c : AuthConfig) : Type 0 where
  pub positive : 1 ≤ c.rate_limit_per_minute
  pub narrow : c.rate_limit_per_minute < u32_mod

first_attempt-IsQuiet :
    (c : AuthConfig) (now : ℕ)
    → now < u64_mod
    → IsLimited c
    → IsQuiet c now (count_attempt c now (first_state now))
unfolding first_state check_state
first_attempt-IsQuiet c now fits l =
    count_attempt-IsQuiet c now now (omega arith) fits l.positive l.narrow (first_state now)
      (record { unblocked = refl; bounded = omega arith; started = omega arith })
      (ground (arith, l.positive))

next_state-IsQuiet :
    (c : AuthConfig) (checked now : ℕ)
    → checked ≤ now
    → now < u64_mod
    → IsLimited c
    → (o : Option RateLimitState)
    → ((s : RateLimitState) → o ≡ some s → IsQuiet c checked s × (check_state c checked s ≡ none))
    → IsQuiet c now (count_attempt c now (state_or_first now o))
unfolding state_or_first
next_state-IsQuiet c checked now o fits l none h = first_attempt-IsQuiet c now fits l
next_state-IsQuiet c checked now o fits l (some s) h =
    count_attempt-IsQuiet c checked now o fits l.positive l.narrow s (h s refl).0 (h s refl).1

record-IsQuietAt :
    (checked now : ℕ) (client_id : String) (a : AuthSystem)
    → checked ≤ now
    → now < u64_mod
    → IsLimited a.config
    → IsQuietAt checked a
    → check_rate_limit checked client_id a ≡ none
    → IsQuietAt now (record_rate_limit_attempt now client_id a)
unfolding record_rate_limit_attempt check_rate_limit
record-IsQuietAt checked now client_id a o fits l q e =
    insert-AllValues (IsQuiet a.config now) client_id _ a.rate_limits
      (next_state-IsQuiet a.config checked now o fits l (get client_id a.rate_limits) λ s found.
        (get-AllValues (IsQuiet a.config checked) client_id a.rate_limits s q found, ground arith))
      (AllValues-map _ _ (IsQuiet-later a.config checked now o) a.rate_limits q)

IsQuietAt-later : (t now : ℕ) (a : AuthSystem) → t ≤ now → IsQuietAt t a → IsQuietAt now a
IsQuietAt-later t now a o q = AllValues-map _ _ (IsQuiet-later a.config t now o) a.rate_limits q

authenticate-IsQuietAt :
    (hash_key : String → String) (checked now : ℕ) (session_id api_key client_id : String)
    (a : AuthSystem)
    → checked ≤ now
    → now < u64_mod
    → IsLimited a.config
    → IsQuietAt checked a
    → IsQuietAt now (authenticate hash_key checked now session_id api_key client_id a).0
unfolding authenticate admit
authenticate-IsQuietAt hash_key checked now session_id api_key client_id a o fits l q =
    let later = IsQuietAt-later checked now a o q in
    ground (arith, later, record-IsQuietAt checked now client_id a o fits l q)

step-IsQuietAt :
    (hash_key : String → String) (t : ℕ) (a : AuthSystem) (call : Call)
    → InOrder t call
    → IsLimited a.config
    → IsQuietAt t a
    → IsQuietAt (clock_after t call) (step hash_key a call)
unfolding step generate_api_key authorize revoke_api_key invalidate_session cleanup_expired
step-IsQuietAt hash_key t a (generates now key_id api_key name permissions expires_at) o l q =
    IsQuietAt-later t now a o.0 q
step-IsQuietAt hash_key t a (authenticates checked now session_id api_key client_id) o l q =
    authenticate-IsQuietAt hash_key checked now session_id api_key client_id a o.1 o.2 l
      (IsQuietAt-later t checked a o.0 q)
step-IsQuietAt hash_key t a (authorizes now session_id permission) o l q =
    let later = IsQuietAt-later t now a o.0 q in ground (arith, later)
step-IsQuietAt hash_key t a (revokes key_id) o l q = ground (arith, q)
step-IsQuietAt hash_key t a (invalidates session_id) o l q = q
step-IsQuietAt hash_key t a (cleans now) o l q =
    retain-AllValues (IsQuiet a.config now) _ a.rate_limits (IsQuietAt-later t now a o.0 q)

-- With a positive rate limit no history of calls ever blocks a client: after it, from a new system
-- and under a clock that does not run backwards, every client's `blocked_until` is empty and its
-- count of failed attempts is at most the limit.
pub run-unblocked :
    (hash_key : String → String) (c : AuthConfig) (cs : List Call)
    → IsLimited c
    → Ordered 0 cs
    → AllValues
        (λ s. (s.blocked_until ≡ none) × (s.request_count ≤ c.rate_limit_per_minute))
        (run hash_key (new c) cs).rate_limits
unfolding new
run-unblocked hash_key c cs l o =
    let (same, quiet) =
      run_inv hash_key (λ t a. (a.config ≡ c) × IsQuietAt t a)
        (λ t a call i p. (
          step-config hash_key a call ∙ p.0,
          step-IsQuietAt hash_key t a call i (subst IsLimited (sym p.0) l) p.1,
        ))
        0 (new c) cs o (refl, tt) in
    let within : (s : RateLimitState)
        → s.request_count ≤ (run hash_key (new c) cs).config.rate_limit_per_minute
        → s.request_count ≤ c.rate_limit_per_minute =
      λ s. subst (λ d. s.request_count ≤ d.rate_limit_per_minute) same in
    AllValues-map _ _ (λ s q. (q.unblocked, within s q.bounded)) _ quiet
