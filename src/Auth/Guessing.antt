-- ===== src/Auth/Guessing.antt =====
-- A client of sv2-core/src/auth.rs that guesses keys inside one window is refused after as many
-- failures as the limit.
use native.Mathlib.Nat.{add-zero}
use stratum_v2_tools.Auth.Cases.{authenticate_cases}
use stratum_v2_tools.Auth.Quiet.{IsLimited}
use stratum_v2_tools.Auth.RateLimit.{
  check_rate_limit, count_attempt, first_state, record_rate_limit_attempt, state_or_first,
}
use stratum_v2_tools.Auth.Run.{authenticates, step, step-config}
use stratum_v2_tools.Auth.System.{authenticate, is_key}
use stratum_v2_tools.Auth.Throttle.{IsThrottled, IsWithin, Try, full_window_wait, guess-IsThrottled}
use stratum_v2_tools.Auth.Types.{ApiKeyInfo, AuthConfig, AuthSystem, rate_limited}
use stratum_v2_tools.Common.{
  ==_refl, All, List, String, [], ap, arith, false≢true, inl, length, nat_eq, none, refl, string_eq,
  subst, sym, true, ℕ, ◌+◌, ◌-◌, ◌<◌, ◌∙◌, ◌∷◌, ◌≡◌, ◌≤◌,
}
use stratum_v2_tools.Common.Map.{Map, find_entry, get, get-insert, keys}
use stratum_v2_tools.Common.Words.{add_u32_exact, sub_u64_exact, u32_mod, u64_mod}

-- The key of the try is not listed, or not active.
abbrev pub IsUnknown : (String → String) → AuthSystem → Try → Type 0
IsUnknown hash_key a t = find_entry (is_key (hash_key t.api_key)) a.api_keys ≡ none

module _ (hash_key : String → String) (client_id : String) where
  unfoldable pub guess : AuthSystem → Try → AuthSystem
  guess a t = (authenticate hash_key t.checked t.now t.session_id t.api_key client_id a).0

  -- The keys that the tries present may differ.
  pub guesses : AuthSystem → List Try → AuthSystem
  unfolding guess
  guesses a [] = a
  guesses a (t ∷ ts) = guesses (guess a t) ts

  guess-config : (a : AuthSystem) (t : Try) → (guess a t).config ≡ a.config
  unfolding step guess
  guess-config a t =
      step-config hash_key a (authenticates t.checked t.now t.session_id t.api_key client_id)

  -- A try of an unknown key leaves the keys alone.
  guess-api_keys :
      (a : AuthSystem) (t : Try)
      → a.config.enabled ≡ true
      → IsUnknown hash_key a t
      → (guess a t).api_keys ≡ a.api_keys
  unfolding record_rate_limit_attempt guess
  guess-api_keys a t on unknown =
      authenticate_cases (λ r. r.0.api_keys ≡ a.api_keys) hash_key t.checked t.now t.session_id
        t.api_key client_id a (λ _. refl) (λ _ _ _. refl) (λ _ _ _. refl)
        (λ key info _ _ found. ground (arith, unknown, found))

  guesses-IsThrottled :
      (c : AuthConfig) (m : Map String ApiKeyInfo) (start n : ℕ) (a : AuthSystem) (ts : List Try)
      → a.config ≡ c
      → a.api_keys ≡ m
      → All (λ t. find_entry (is_key (hash_key t.api_key)) m ≡ none) ts
      → c.enabled ≡ true
      → c.rate_limit_per_minute < u32_mod
      → All (IsWithin c start) ts
      → IsThrottled hash_key client_id start n a
      → IsThrottled hash_key client_id start (n + length ts) (guesses a ts)
        × ((guesses a ts).config ≡ c)
  unfolding guesses guess
  guesses-IsThrottled c m start n a [] same keys unknown on narrow ws h = (rw add-zero h, same)
  guesses-IsThrottled c m start n a (t ∷ ts) same keys (u, us) on narrow (w, ws) h =
      let on' : a.config.enabled ≡ true = ap (λ d. d.enabled) same ∙ on in
      let unknown : IsUnknown hash_key a t =
        subst (λ k. find_entry (is_key (hash_key t.api_key)) k ≡ none) (sym keys) u in
      let one : IsThrottled hash_key client_id start (n + 1) (guess a t) =
        guess-IsThrottled hash_key client_id start n a t unknown on'
          (subst (λ d. d.rate_limit_per_minute < u32_mod) (sym same) narrow)
          (subst (λ d. IsWithin d start t) (sym same) w) h in
      let (rest, kept) =
        guesses-IsThrottled c m start (n + 1) (guess a t) ts (guess-config a t ∙ same)
          (guess-api_keys a t on' unknown ∙ keys) us on narrow ws one in
      (
        subst (λ k. IsThrottled hash_key client_id start k (guesses (guess a t) ts)) (omega arith)
            rest,
        kept,
      )

  first_count :
      (c : AuthConfig) (now : ℕ)
      → IsLimited c
      → now < u64_mod
      → count_attempt c now (first_state now)
        ≡ record { request_count = 1; window_start = now; blocked_until = none }
  unfolding count_attempt first_state
  first_count c now l word = ground (arith, l.positive, sub_u64_exact now now, add_u32_exact 0 1)

  -- The first failure of a client opens its window.
  first_guess-IsThrottled :
      (a : AuthSystem) (t : Try)
      → a.config.enabled ≡ true
      → IsLimited a.config
      → IsUnknown hash_key a t
      → get client_id a.rate_limits ≡ none
      → t.now < u64_mod
      → IsThrottled hash_key client_id t.now 1 (guess a t)
  unfolding check_rate_limit record_rate_limit_attempt state_or_first guess
  first_guess-IsThrottled a t on l unknown missing word =
      let first = first_count a.config t.now l word in
      authenticate_cases (λ r. IsThrottled hash_key client_id t.now 1 r.0) hash_key t.checked t.now
        t.session_id t.api_key client_id a (λ off. absurd (false≢true (sym off ∙ on)))
        (λ wait _ e. ground (arith, missing))
        (λ _ _ _. record {
          state = count_attempt a.config t.now (first_state t.now);
          listed = ground (
            arith,
            missing,
            get-insert client_id client_id (count_attempt a.config t.now (first_state t.now))
                a.rate_limits,
            ==_refl client_id,
          );
          began = rw first refl;
          unblocked = rw first refl;
          bounded = rw first l.positive;
          counted = rw first (inl (omega arith));
        })
        (λ key info _ _ found. ground (arith, unknown, found))

  throttled_refused :
      (start n : ℕ) (b : AuthSystem) (t : Try)
      → b.config.enabled ≡ true
      → b.config.rate_limit_per_minute ≤ n
      → IsWithin b.config start t
      → IsThrottled hash_key client_id start n b
      → authenticate hash_key t.checked t.now t.session_id t.api_key client_id b
        ≡ (b, rate_limited (b.config.rate_limit_window - (t.checked - start)))
  unfolding authenticate check_rate_limit
  throttled_refused start n b t on many w h =
      let inside : IsWithin b.config h.state.window_start t =
        subst (λ x. IsWithin b.config x t) (sym h.began) w in
      let full : b.config.rate_limit_per_minute ≤ h.state.request_count =
        ground (arith, h.counted) in
      let wait = full_window_wait hash_key client_id b.config h.state t inside h.unblocked full in
      ground (arith, on, h.listed, wait, h.began)

  -- A client without earlier failures tries keys of which none is listed and active, each time the
  -- same or another: a first time, and then so often inside the window which that failure opens that
  -- it reaches the limit. Then a further request of the client inside the window, with whatever key,
  -- is refused with a wait of at most the window, and changes nothing; for authentication enabled and
  -- a positive limit.
  pub guesses_limited :
      (a : AuthSystem) (first last : Try) (ts : List Try)
      → a.config.enabled ≡ true
      → IsLimited a.config
      → All (IsUnknown hash_key a) (first ∷ ts)
      → get client_id a.rate_limits ≡ none
      → first.now < u64_mod
      → All (IsWithin a.config first.now) ts
      → a.config.rate_limit_per_minute ≤ 1 + length ts
      → IsWithin a.config first.now last
      → let b = guesses a (first ∷ ts) in
        (wait : ℕ) × (wait ≤ a.config.rate_limit_window)
        × (authenticate hash_key last.checked last.now last.session_id last.api_key client_id b
            ≡ (b, rate_limited wait))
  unfolding guesses
  guesses_limited a first last ts on l (u, us) missing word ws many w =
      let b = guess a first in
      let start = first_guess-IsThrottled a first on l u missing word in
      let (h, kept) =
        guesses-IsThrottled a.config a.api_keys first.now 1 b ts (guess-config a first)
          (guess-api_keys a first on u) us on l.narrow ws start in
      (
        a.config.rate_limit_window - (last.checked - first.now),
        omega arith,
        subst
            (λ c.
              authenticate hash_key last.checked last.now last.session_id last.api_key client_id
                (guesses b ts)
              ≡ (guesses b ts, rate_limited (c.rate_limit_window - (last.checked - first.now))))
            kept
            (throttled_refused first.now (1 + length ts) (guesses b ts) last
              (ap (λ c. c.enabled) kept ∙ on)
              (subst (λ c. c.rate_limit_per_minute ≤ 1 + length ts) (sym kept) many)
              (subst (λ c. IsWithin c first.now last) (sym kept) w) h),
      )
