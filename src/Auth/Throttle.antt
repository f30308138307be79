-- ===== src/Auth/Throttle.antt =====
-- The rate limiter of sv2-core/src/auth.rs stops a client that guesses keys.
use stratum_v2_tools.Auth.Cases.{authenticate_cases}
use stratum_v2_tools.Auth.RateLimit.{
  check_rate_limit, check_state, count_attempt, record_rate_limit_attempt,
}
use stratum_v2_tools.Auth.System.{authenticate, is_key}
use stratum_v2_tools.Auth.Types.{AuthConfig, AuthSystem, RateLimitState}
use stratum_v2_tools.Common.{
  ==_refl, String, arith, false≢true, inr, nat_eq, none, refl, some, string_eq, subst, sym, true, ℕ,
  ◌+◌, ◌-◌, ◌<◌, ◌∙◌, ◌≡◌, ◌≤◌, ◌⊎◌,
}
use stratum_v2_tools.Common.Map.{find_entry, get, get-insert}
use stratum_v2_tools.Common.Words.{add_u32_exact, sub_u64_exact, u32_mod, u64_mod}

-- One try of a key: its two readings of the clock, the key and the session id it would get.
pub record Try : Type 0 where
  pub api_key : String
  pub checked : ℕ
  pub now : ℕ
  pub session_id : String

-- A try within the window that began at `start`.
pub record IsWithin (c : AuthConfig) (start : ℕ) (t : Try) : Type 0 where
  pub after : start ≤ t.checked
  pub ordered : t.checked ≤ t.now
  pub inside : t.now < start + c.rate_limit_window
  pub word : t.now < u64_mod

module _ (hash_key : String → String) (client_id : String) where
  -- The client's window began at `start` and has seen `n` failures, or as many as are allowed.
  pub record IsThrottled (start n : ℕ) (a : AuthSystem) : Type 0 where
    pub state : RateLimitState
    pub listed : get client_id a.rate_limits ≡ some state
    pub began : state.window_start ≡ start
    pub unblocked : state.blocked_until ≡ none
    pub bounded : state.request_count ≤ a.config.rate_limit_per_minute
    pub counted : (n ≤ state.request_count) ⊎ (a.config.rate_limit_per_minute ≤ state.request_count)

  -- The wait that the limiter gives a client whose window is full.
  pub full_window_wait :
      (c : AuthConfig) (s : RateLimitState) (t : Try)
      → IsWithin c s.window_start t
      → s.blocked_until ≡ none
      → c.rate_limit_per_minute ≤ s.request_count
      → check_state c t.checked s ≡ some (c.rate_limit_window - (t.checked - s.window_start))
  unfolding check_state
  full_window_wait c s t w u f = ground (arith, sub_u64_exact t.checked s.window_start)

  open_window :
      (c : AuthConfig) (s : RateLimitState) (t : Try)
      → IsWithin c s.window_start t
      → s.blocked_until ≡ none
      → check_state c t.checked s ≡ none
      → s.request_count < c.rate_limit_per_minute
  unfolding check_state
  open_window c s t w u e = ground (arith, sub_u64_exact t.checked s.window_start)

  full_of_wait :
      (c : AuthConfig) (s : RateLimitState) (t : Try)
      → IsWithin c s.window_start t
      → s.blocked_until ≡ none
      → (wait : ℕ) → check_state c t.checked s ≡ some wait
      → c.rate_limit_per_minute ≤ s.request_count
  unfolding check_state
  full_of_wait c s t w u wait e = ground (arith, sub_u64_exact t.checked s.window_start)

  counted_next :
      {n count limit : ℕ}
      → (n ≤ count) ⊎ (limit ≤ count)
      → (n + 1 ≤ count + 1) ⊎ (limit ≤ count + 1)
  counted_next h = ground arith

  count_attempt_inside :
      (c : AuthConfig) (s : RateLimitState) (t : Try)
      → IsWithin c s.window_start t
      → s.request_count < c.rate_limit_per_minute
      → c.rate_limit_per_minute < u32_mod
      → s.blocked_until ≡ none
      → count_attempt c t.now s ≡ record {
        request_count = s.request_count + 1;
        window_start = s.window_start;
        blocked_until = none;
      }
  unfolding count_attempt
  count_attempt_inside c s t w room narrow u =
      ground (arith, sub_u64_exact t.now s.window_start, add_u32_exact s.request_count 1)

  -- A further try of an unknown key inside the window is refused or counted.
  pub guess-IsThrottled :
      (start n : ℕ) (a : AuthSystem) (t : Try)
      → find_entry (is_key (hash_key t.api_key)) a.api_keys ≡ none
      → a.config.enabled ≡ true
      → a.config.rate_limit_per_minute < u32_mod
      → IsWithin a.config start t
      → IsThrottled start n a
      → IsThrottled start
          (n + 1)
          (authenticate hash_key t.checked t.now t.session_id t.api_key client_id a).0
  unfolding check_rate_limit record_rate_limit_attempt
  guess-IsThrottled start n a t unknown on narrow w h =
      let inside : IsWithin a.config h.state.window_start t =
        subst (λ x. IsWithin a.config x t) (sym h.began) w in
      authenticate_cases (λ r. IsThrottled start (n + 1) r.0) hash_key t.checked t.now t.session_id
        t.api_key client_id a (λ off. absurd (false≢true (sym off ∙ on)))
        (λ wait _ e. record {
          state = h.state;
          listed = h.listed;
          began = h.began;
          unblocked = h.unblocked;
          bounded = h.bounded;
          counted =
              inr (
                full_of_wait a.config h.state t inside h.unblocked wait (ground (arith, h.listed)));
        })
        (λ _ free _.
          let c : check_state a.config t.checked h.state ≡ none = ground (arith, h.listed) in
          let room = open_window a.config h.state t inside h.unblocked c in
          let counts = count_attempt_inside a.config h.state t inside room narrow h.unblocked in
          record {
            state = count_attempt a.config t.now h.state;
            listed = ground (
              arith,
              h.listed,
              get-insert client_id client_id (count_attempt a.config t.now h.state) a.rate_limits,
              ==_refl client_id,
            );
            began = rw counts h.began;
            unblocked = rw counts refl;
            bounded = rw counts (omega arith);
            counted = rw counts (counted_next h.counted);
          })
        (λ key info _ _ found. ground (arith, unknown, found))
