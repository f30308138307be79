-- ===== src/Validation/Limiter.antt =====
-- `RateLimiter` of sv2-core/src/validation.rs. The reading of the clock is an argument.
use stratum_v2_tools.Common.{
  Bool, Option, String, [], false, get_or, if◌then◌else◌, leb, ltb, nat_eq, none, some, string_eq,
  true, ℕ, ◌%◌, ◌*◌, ◌||◌,
}
use stratum_v2_tools.Common.Map.{Map, get, insert, retain}
use stratum_v2_tools.Common.Words.{add_u32, add_u64, sub_u64, u64_mod}

pub record RateLimitConfig : Type 0 where
  pub max_requests : ℕ
  pub window_duration : ℕ
  pub block_duration : ℕ

-- `RateLimitConfig::default`.
abbrev pub default_limits : RateLimitConfig
default_limits = record { max_requests = 100; window_duration = 60; block_duration = 300 }

pub record RequestCount : Type 0 where
  pub count : ℕ
  pub window_start : ℕ
  pub blocked_until : Option ℕ

pub record RateLimiter : Type 0 where
  pub request_counts : Map String RequestCount
  pub config : RateLimitConfig

unfoldable pub new_limiter : RateLimitConfig → RateLimiter
new_limiter config = record { request_counts = []; config = config }

-- The entry of `or_insert_with`.
abbrev pub first_request : ℕ → RequestCount
first_request now = record { count = 0; window_start = now; blocked_until = none }

-- The reset of a window that has run out.
unfoldable pub reset_count : RateLimitConfig → ℕ → RequestCount → RequestCount
reset_count c now e =
    if leb c.window_duration (sub_u64 now e.window_start)
    then record e { count = 0; window_start = now }
    else e

-- The check of an entry behind its block.
unfoldable pub count_request : RateLimitConfig → ℕ → RequestCount → RequestCount × Bool
unfolding reset_count
count_request c now e =
    let r = reset_count c now e in
    if leb c.max_requests r.count
    then (record r { blocked_until = some (add_u64 now c.block_duration) }, false)
    else (record r { count = add_u32 r.count 1 }, true)

-- An entry with a block that stands is refused; one that has ended is lifted.
unfoldable pub check_entry : RateLimitConfig → ℕ → RequestCount → RequestCount × Bool
unfolding count_request
check_entry c now e = elim e.blocked_until [
  | none ↦ count_request c now e
  | some blocked_until ↦
      if ltb now blocked_until
      then (e, false)
      else count_request c now (record e { blocked_until = none })
]

unfoldable pub check_request : ℕ → String → RateLimiter → RateLimiter × Bool
unfolding check_entry
check_request now client_id l =
    let (e, admitted) =
      check_entry l.config now (get_or (get client_id l.request_counts) (first_request now)) in
    (record l { request_counts = insert client_id e l.request_counts }, admitted)

unfoldable pub keeps_entry : RateLimitConfig → ℕ → RequestCount → Bool
keeps_entry c now e =
    ltb (sub_u64 now e.window_start) ((c.window_duration * 2) % u64_mod)
    || elim e.blocked_until [ none ↦ false | some blocked ↦ ltb now blocked ]

-- `RateLimiter::cleanup`.
unfoldable pub cleanup_requests : ℕ → RateLimiter → RateLimiter
unfolding keeps_entry
cleanup_requests now l = record l {
  request_counts = retain (λ _ e. keeps_entry l.config now e) l.request_counts;
}
