-- ===== src/Auth/RateLimit.antt =====
-- The rate limiter of sv2-core/src/auth.rs. Each function takes the reading of the clock that its
-- call of `SystemTime::now` gives; none of the source's `Result`s is ever an error.
pub mod Window
use stratum_v2_tools.Auth.Types.{AuthConfig, AuthSystem, RateLimitState, permission_eq}
use stratum_v2_tools.Common.{
  Option, String, if◌then◌else◌, leb, ltb, nat_eq, none, some, string_eq, ℕ, ◌-◌,
}
use stratum_v2_tools.Common.Map.{get, insert}
use stratum_v2_tools.Common.Words.{add_u32, add_u64, sub_u64}

-- The wait for a client inside its window, or nothing.
unfoldable pub window_wait : AuthConfig → ℕ → RateLimitState → Option ℕ
window_wait c now s =
    let window_elapsed = sub_u64 now s.window_start in
    if ltb window_elapsed c.rate_limit_window
    then if leb c.rate_limit_per_minute s.request_count
      then some (c.rate_limit_window - window_elapsed)
      else none
    else none

-- The branches of `check_rate_limit` for a client that has a state.
unfoldable pub check_state : AuthConfig → ℕ → RateLimitState → Option ℕ
unfolding window_wait
check_state c now s = elim s.blocked_until [
  | none ↦ window_wait c now s
  | some blocked_until ↦
      if ltb now blocked_until then some (blocked_until - now) else window_wait c now s
]

unfoldable pub check_rate_limit : ℕ → String → AuthSystem → Option ℕ
check_rate_limit now client_id a = elim (get client_id a.rate_limits) [
  | none ↦ none
  | some s ↦ check_state a.config now s
]

-- `or_insert_with`: the state of a client seen for the first time.
unfoldable pub first_state : ℕ → RateLimitState
first_state now = record { request_count = 0; window_start = now; blocked_until = none }

-- The reset of a window that has run out.
unfoldable pub reset_window : AuthConfig → ℕ → RateLimitState → RateLimitState
reset_window c now s =
    if leb c.rate_limit_window (sub_u64 now s.window_start)
    then record { request_count = 0; window_start = now; blocked_until = none }
    else s

unfoldable pub count_attempt : AuthConfig → ℕ → RateLimitState → RateLimitState
unfolding reset_window
count_attempt c now s =
    let r = reset_window c now s in
    let count = add_u32 r.request_count 1 in
    if ltb c.rate_limit_per_minute count
    then record r {
      request_count = count;
      blocked_until = some (add_u64 now c.rate_limit_block_duration);
    }
    else record r { request_count = count }

unfoldable pub state_or_first : ℕ → Option RateLimitState → RateLimitState
unfolding first_state
state_or_first now none = first_state now
state_or_first now (some s) = s

unfoldable pub record_rate_limit_attempt : ℕ → String → AuthSystem → AuthSystem
unfolding state_or_first count_attempt
record_rate_limit_attempt now client_id a = record a {
  rate_limits =
      insert client_id
        (count_attempt a.config now (state_or_first now (get client_id a.rate_limits)))
        a.rate_limits;
}
