-- ===== src/Validation/Window.antt =====
-- How many requests the limiter of sv2-core/src/validation.rs admits, and how long it
-- blocks.
use stratum_v2_tools.Common.{
  ==_refl, All, Bool, List, String, [], ap, arith, count_by, false, get_or, length, min, nat_eq,
  none, refl, some, string_eq, subst, suc, sym, true, zero, ℕ, ◌*◌, ◌+◌, ◌<◌, ◌∙◌, ◌∷◌, ◌≡◌, ◌≤◌,
}
use stratum_v2_tools.Common.Map.{Map, get, get-insert, insert}
use stratum_v2_tools.Common.Words.{add_u32, add_u64, sub_u64, u32_mod, u64_mod}
use stratum_v2_tools.Validation.Limiter.{
  RateLimitConfig, RateLimiter, RequestCount, check_entry, check_request, count_request,
  first_request, reset_count,
}

-- The configuration and the clock fit their words.
abbrev pub Fits : RateLimitConfig → Type 0
Fits c = (c.max_requests < u32_mod) × (c.window_duration * 2 < u64_mod)

-- The answers to requests of one client at some times.
unfoldable pub answers : RateLimitConfig → List ℕ → RequestCount → List Bool
unfolding check_entry
answers c [] e = []
answers c (now ∷ later) e = let (f, admitted) = check_entry c now e in admitted ∷ answers c later f

unfoldable pub run_requests : String → List ℕ → RateLimiter → List Bool
unfolding check_request
run_requests client_id [] l = []
run_requests client_id (now ∷ later) l =
    let (m, admitted) = check_request now client_id l in admitted ∷ run_requests client_id later m

-- The times of one window.
abbrev pub InWindow : RateLimitConfig → ℕ → ℕ → Type 0
InWindow c start now = (start ≤ now) × (now < start + c.window_duration) × (now < u64_mod)

-- A request in the window of a client that has some left.
admits :
    (c : RateLimitConfig) (now : ℕ) (e : RequestCount)
    → Fits c
    → InWindow c e.window_start now
    → e.blocked_until ≡ none
    → e.count < c.max_requests
    → ((check_entry c now e).1 ≡ true)
      × ((check_entry c now e).0.count ≡ e.count + 1)
      × ((check_entry c now e).0.window_start ≡ e.window_start)
      × ((check_entry c now e).0.blocked_until ≡ none)
unfolding check_entry count_request reset_count sub_u64 add_u32
admits c now e f w b h = ground (arith, f, w, b, h)

-- A request in the window of a client that has none left.
refuses :
    (c : RateLimitConfig) (now : ℕ) (e : RequestCount)
    → Fits c
    → InWindow c e.window_start now
    → e.count ≡ c.max_requests
    → ((check_entry c now e).1 ≡ false)
      × ((check_entry c now e).0.count ≡ c.max_requests)
      × ((check_entry c now e).0.window_start ≡ e.window_start)
unfolding check_entry count_request reset_count sub_u64
refuses c now e f w h = ground (arith, f, w, h)

abbrev admitted_count : List Bool → ℕ
admitted_count bs = count_by (λ b. b) bs

-- Without any left, nothing is admitted.
answers_spent :
    (c : RateLimitConfig) (ts : List ℕ) (e : RequestCount)
    → Fits c
    → All (InWindow c e.window_start) ts
    → e.count ≡ c.max_requests
    → admitted_count (answers c ts e) ≡ 0
unfolding answers count_by
answers_spent c [] e f w h = refl
answers_spent c (now ∷ ts) e f (w, ws) h =
    let (refusal, full, start) = refuses c now e f w h in
    let g = (check_entry c now e).0 in
    let rest = answers_spent c ts g f (subst (λ x. All (InWindow c x) ts) (sym start) ws) full in
    ground (arith, refusal, rest)

answers_left :
    (c : RateLimitConfig) (ts : List ℕ) (e : RequestCount) (left : ℕ)
    → Fits c
    → All (InWindow c e.window_start) ts
    → e.blocked_until ≡ none
    → e.count + left ≡ c.max_requests
    → admitted_count (answers c ts e) ≡ min (length ts) left
unfolding answers count_by
answers_left c [] e left f w b h = omega arith
answers_left c (now ∷ ts) e zero f w b h =
    ground (arith, answers_spent c (now ∷ ts) e f w (omega (arith, h)))
answers_left c (now ∷ ts) e (suc left) f (w, ws) b h =
    let (admission, more, start, free) = admits c now e f w b (omega (arith, h)) in
    let g = (check_entry c now e).0 in
    let rest =
      answers_left c ts g left f (subst (λ x. All (InWindow c x) ts) (sym start) ws) free
        (omega (arith, more, h)) in
    ground (arith, admission, rest)

get_inserted :
    (k : String) (e : RequestCount) (m : Map String RequestCount) → get k (insert k e m) ≡ some e
get_inserted k e m = ground (arith, get-insert k k e m, ==_refl k)

-- The limiter answers one client as its entry does.
run_requests-answers :
    (client_id : String) (now : ℕ) (ts : List ℕ) (l : RateLimiter) (e : RequestCount)
    → get_or (get client_id l.request_counts) (first_request now) ≡ e
    → run_requests client_id (now ∷ ts) l ≡ answers l.config (now ∷ ts) e
unfolding run_requests check_request answers
run_requests-answers client_id now [] l e h = ap (λ x. (check_entry l.config now x).1 ∷ []) h
run_requests-answers client_id now (t ∷ ts) l e h =
    let f = (check_entry l.config now e).0 in
    let m = insert client_id f l.request_counts in
    let found = ap (λ o. get_or o (first_request t)) (get_inserted client_id f l.request_counts) in
    subst
      (λ x.
        (check_entry l.config now x).1
          ∷ run_requests client_id (t ∷ ts) (record l {
            request_counts = insert client_id (check_entry l.config now x).0 l.request_counts;
          })
        ≡ (check_entry l.config now e).1 ∷ answers l.config (t ∷ ts) f)
      (sym h)
      (ap (λ bs. (check_entry l.config now e).1 ∷ bs)
        (run_requests-answers client_id t ts (record l { request_counts = m }) f found))

-- A client that is new, or whose earlier entry was dropped, is admitted exactly its number of requests
-- in the window that its first request opens: all of them up to max_requests, and no other.
pub run_requests-window :
    (client_id : String) (start : ℕ) (ts : List ℕ) (l : RateLimiter)
    → Fits l.config
    → get client_id l.request_counts ≡ none
    → All (InWindow l.config start) (start ∷ ts)
    → count_by (λ b. b) (run_requests client_id (start ∷ ts) l)
      ≡ min (length (start ∷ ts)) l.config.max_requests
run_requests-window client_id start ts l f h w =
    let e = first_request start in
    ap (count_by (λ b. b)) (run_requests-answers client_id start ts l e (ap (λ o. get_or o e) h))
    ∙ answers_left l.config (start ∷ ts) e l.config.max_requests f w refl (omega arith)

standing_block :
    (c : RateLimitConfig) (t : ℕ) (e : RequestCount) (end_of : ℕ)
    → e.blocked_until ≡ some end_of
    → t < end_of
    → ((check_entry c t e).1 ≡ false) × ((check_entry c t e).0.blocked_until ≡ some end_of)
unfolding check_entry
standing_block c t e end_of b h = ground (arith, b, h)

-- A standing block refuses.
answers_blocked :
    (c : RateLimitConfig) (ts : List ℕ) (e : RequestCount) (end_of : ℕ)
    → e.blocked_until ≡ some end_of
    → All (λ t. t < end_of) ts
    → All (λ a. a ≡ false) (answers c ts e)
unfolding answers
answers_blocked c [] e end_of b h = tt
answers_blocked c (t ∷ ts) e end_of b (h, hs) =
    let (refusal, standing) = standing_block c t e end_of b h in
    (refusal, answers_blocked c ts (check_entry c t e).0 end_of standing hs)

-- Refused at the limit, the entry is blocked for the block's duration.
blocks :
    (c : RateLimitConfig) (now : ℕ) (e : RequestCount)
    → Fits c
    → InWindow c e.window_start now
    → e.blocked_until ≡ none
    → c.max_requests ≤ e.count
    → now + c.block_duration < u64_mod
    → ((check_entry c now e).1 ≡ false)
      × ((check_entry c now e).0.blocked_until ≡ some (now + c.block_duration))
unfolding check_entry count_request reset_count sub_u64 add_u64
blocks c now e f w b h k = ground (arith, f, w, b, h, k)

-- A client that asks again in its window after all its requests is refused then and at every request
-- before the block that this sets has ended, however often it asks.
pub run_requests_blocked :
    (client_id : String) (now : ℕ) (ts : List ℕ) (l : RateLimiter) (e : RequestCount)
    → Fits l.config
    → get client_id l.request_counts ≡ some e
    → InWindow l.config e.window_start now
    → e.blocked_until ≡ none
    → l.config.max_requests ≤ e.count
    → now + l.config.block_duration < u64_mod
    → All (λ t. t < now + l.config.block_duration) ts
    → All (λ a. a ≡ false) (run_requests client_id (now ∷ ts) l)
unfolding answers
run_requests_blocked client_id now ts l e f g w b h k before =
    let (refusal, blocked) = blocks l.config now e f w b h k in
    let f_entry = (check_entry l.config now e).0 in
    let answered =
      run_requests-answers client_id now ts l e (ap (λ o. get_or o (first_request now)) g) in
    subst (All (λ a. a ≡ false)) (sym answered)
      (refusal, answers_blocked l.config ts f_entry (now + l.config.block_duration) blocked before)
