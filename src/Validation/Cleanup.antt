-- ===== src/Validation/Cleanup.antt =====
-- The clean-up of the limiter of sv2-core/src/validation.rs does not show in its later answers.
use stratum_v2_tools.Common.{
  Bool, List, Option, String, [], get_or, nat_eq, string_eq, ℕ, ◌<◌, ◌∷◌, ◌≡◌, ◌≤◌,
}
use stratum_v2_tools.Common.Map.{get}
use stratum_v2_tools.Common.Words.{u64_mod}
use stratum_v2_tools.Validation.Limiter.{
  RateLimitConfig, RateLimiter, RequestCount, check_entry, check_request, first_request,
}

-- The check of an entry that may be missing.
abbrev check_option : RateLimitConfig → ℕ → Option RequestCount → RequestCount × Bool
check_option c t o = check_entry c t (get_or o (first_request t))

-- Two limiters that treat each client alike from `now` on.
record IsAlike (now : ℕ) (l m : RateLimiter) : Type 0 where
  same : l.config ≡ m.config
  alike :
      (client_id : String) (t : ℕ)
      → now ≤ t
      → t < u64_mod
      → check_option l.config t (get client_id l.request_counts)
        ≡ check_option m.config t (get client_id m.request_counts)

-- Requests of any clients, each at its time, and their answers.
unfoldable pub serve : List (ℕ × String) → RateLimiter → List Bool
unfolding check_request
serve [] l = []
serve ((t, client_id) ∷ requests) l =
    let (m, admitted) = check_request t client_id l in admitted ∷ serve requests m
