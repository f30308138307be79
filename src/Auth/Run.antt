-- ===== src/Auth/Run.antt =====
-- Histories of calls of an `AuthSystem` of sv2-core/src/auth.rs, under a clock that does not run
-- backwards.
-- A call with the clock readings and fresh values that it meets.
use stratum_v2_tools.Auth.RateLimit.{record_rate_limit_attempt}
use stratum_v2_tools.Auth.System.{
  admit, authenticate, authorize, cleanup_expired, generate_api_key, invalidate_session,
  revoke_api_key,
}
use stratum_v2_tools.Auth.Types.{AuthSystem, Permission, permission_eq}
use stratum_v2_tools.Common.{
  List, Option, String, [], arith, nat_eq, refl, string_eq, ℕ, ◌<◌, ◌∷◌, ◌≡◌, ◌≤◌,
}
use stratum_v2_tools.Common.Words.{u64_mod}

pub data Call : Type 0 where
  generates : ℕ → String → String → String → List Permission → Option ℕ → Call
  authenticates : ℕ → ℕ → String → String → String → Call
  authorizes : ℕ → String → Permission → Call
  revokes invalidates : String → Call
  cleans : ℕ → Call

-- The readings of a call follow one another and the time `t`, and are 64-bit words.
abbrev pub InOrder : ℕ → Call → Type 0
InOrder t (generates now key_id api_key name permissions expires_at) = (t ≤ now) × (now < u64_mod)
InOrder t (authenticates checked now session_id api_key client_id) =
    (t ≤ checked) × (checked ≤ now) × (now < u64_mod)
InOrder t (authorizes now session_id permission) = (t ≤ now) × (now < u64_mod)
InOrder t (revokes key_id) = Unit
InOrder t (invalidates session_id) = Unit
InOrder t (cleans now) = (t ≤ now) × (now < u64_mod)

abbrev pub clock_after : ℕ → Call → ℕ
clock_after t (generates now key_id api_key name permissions expires_at) = now
clock_after t (authenticates checked now session_id api_key client_id) = now
clock_after t (authorizes now session_id permission) = now
clock_after t (revokes key_id) = t
clock_after t (invalidates session_id) = t
clock_after t (cleans now) = now

abbrev pub Ordered : ℕ → List Call → Type 0
Ordered t [] = Unit
Ordered t (c ∷ cs) = InOrder t c × Ordered (clock_after t c) cs

abbrev pub last_clock : ℕ → List Call → ℕ
last_clock t [] = t
last_clock t (c ∷ cs) = last_clock (clock_after t c) cs

module _ (hash_key : String → String) where
  unfoldable pub step : AuthSystem → Call → AuthSystem
  step a (generates now key_id api_key name permissions expires_at) =
      (generate_api_key hash_key now key_id api_key name permissions expires_at a).0
  step a (authenticates checked now session_id api_key client_id) =
      (authenticate hash_key checked now session_id api_key client_id a).0
  step a (authorizes now session_id permission) = (authorize now session_id permission a).0
  step a (revokes key_id) = revoke_api_key key_id a
  step a (invalidates session_id) = invalidate_session session_id a
  step a (cleans now) = cleanup_expired now a

  unfoldable pub run : AuthSystem → List Call → AuthSystem
  run a [] = a
  run a (c ∷ cs) = run (step a c) cs

  -- An invariant that moves with the clock and that every call keeps holds after every history.
  pub run_inv {ℓ} :
      (P : ℕ → AuthSystem → Type ℓ)
      → ((t : ℕ) (a : AuthSystem) (c : Call) → InOrder t c → P t a → P (clock_after t c) (step a c))
      → (t : ℕ) (a : AuthSystem) (cs : List Call) → Ordered t cs
      → P t a
      → P (last_clock t cs) (run a cs)
  unfolding run
  run_inv P keeps t a [] o p = p
  run_inv P keeps t a (c ∷ cs) (o, os) p =
      run_inv P keeps (clock_after t c) (step a c) cs os (keeps t a c o p)

-- No call changes the configuration.
pub step-config :
    (hash_key : String → String) (a : AuthSystem) (call : Call)
    → (step hash_key a call).config ≡ a.config
unfolding step generate_api_key authenticate admit record_rate_limit_attempt authorize
    revoke_api_key invalidate_session cleanup_expired
step-config hash_key a (generates now key_id api_key name permissions expires_at) = refl
step-config hash_key a (authenticates checked now session_id api_key client_id) = ground arith
step-config hash_key a (authorizes now session_id permission) = ground arith
step-config hash_key a (revokes key_id) = ground arith
step-config hash_key a (invalidates session_id) = refl
step-config hash_key a (cleans now) = refl
