-- ===== src/Auth/RateLimit/Window.antt =====
-- What the rate limiter's window guarantees, and when a client is blocked.
-- A client's state between calls: never blocked, within the limit, its window begun.
use stratum_v2_tools.Auth.RateLimit.{check_state, count_attempt}
use stratum_v2_tools.Auth.Types.{AuthConfig, RateLimitState, permission_eq}
use stratum_v2_tools.Common.{arith, nat_eq, none, string_eq, ℕ, ◌<◌, ◌≡◌, ◌≤◌}
use stratum_v2_tools.Common.Words.{add_u32_exact, sub_u64_exact, u32_mod, u64_mod}

pub record IsQuiet (c : AuthConfig) (now : ℕ) (s : RateLimitState) : Type 0 where
  pub unblocked : s.blocked_until ≡ none
  pub bounded : s.request_count ≤ c.rate_limit_per_minute
  pub started : s.window_start ≤ now

pub IsQuiet-later :
    (c : AuthConfig) (t now : ℕ) → t ≤ now → (s : RateLimitState) → IsQuiet c t s → IsQuiet c now s
IsQuiet-later c t now h s q = record {
  unblocked = q.unblocked;
  bounded = q.bounded;
  started = omega arith;
}

module _ (c : AuthConfig) (checked now : ℕ) (ordered : checked ≤ now) (fits : now < u64_mod)
    (positive : 1 ≤ c.rate_limit_per_minute) (narrow : c.rate_limit_per_minute < u32_mod) where
  pub count_attempt-IsQuiet :
      (s : RateLimitState)
      → IsQuiet c checked s
      → check_state c checked s ≡ none
      → IsQuiet c now (count_attempt c now s)
  unfolding check_state count_attempt
  count_attempt-IsQuiet s q e = ground (
    arith,
    q.unblocked,
    sub_u64_exact now s.window_start,
    sub_u64_exact checked s.window_start,
    add_u32_exact s.request_count 1,
    add_u32_exact 0 1,
  )
