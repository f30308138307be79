-- ===== src/Auth/Revocation.antt =====
-- After `revoke_api_key` of sv2-core/src/auth.rs the key stays out, whatever calls follow.
use stratum_v2_tools.Auth.Access.{authenticate-IsAdmitted}
use stratum_v2_tools.Auth.Cases.{admit_cases, authenticate_cases}
use stratum_v2_tools.Auth.RateLimit.{record_rate_limit_attempt}
use stratum_v2_tools.Auth.Run.{
  Call, authenticates, authorizes, cleans, generates, invalidates, revokes, run, step, step-config,
}
use stratum_v2_tools.Auth.System.{
  authenticate, authorize, authorize_session, cleanup_expired, generate_api_key, invalidate_session,
  new_key, revoke_api_key,
}
use stratum_v2_tools.Auth.Types.{ApiKeyInfo, AuthSystem, Permission, success}
use stratum_v2_tools.Auth.WellFormed.{IsWellFormed, step-IsWellFormed}
use stratum_v2_tools.Common.{
  ==_iff, All, List, Option-cases, String, [], arith, false, false≢true, inl, inr, nat_eq, refl,
  some, string_eq, subst, sym, true, ℕ, ◌∙◌, ◌∷◌, ◌≡◌, ◌≢◌,
}
use stratum_v2_tools.Common.Map.{Map, get, get-insert, get-modify, modify}

-- Every listed key of the hash is inactive.
abbrev pub AllInactive : String → Map String ApiKeyInfo → Type 0
AllInactive hash m =
    (k : String) (j : ApiKeyInfo) → get k m ≡ some j → j.key_hash ≡ hash → j.active ≡ false

-- Authentication is on, and no active key has the hash.
record IsBarred (hash : String) (a : AuthSystem) : Type 0 where
  on : a.config.enabled ≡ true
  well_formed : IsWellFormed a
  inactive : AllInactive hash a.api_keys

-- The call generates no key with the hash.
abbrev pub MakesOther : (String → String) → String → Call → Type 0
MakesOther hash_key hash (generates now key_id api_key name permissions expires_at) =
    hash_key api_key ≢ hash
MakesOther hash_key hash _ = Unit

-- A change of the entry of a key that makes no key active and keeps its hash.
modify-inactive :
    (f : ApiKeyInfo → ApiKeyInfo) (hash key : String) (m : Map String ApiKeyInfo)
    → ((i : ApiKeyInfo) → (f i).key_hash ≡ i.key_hash)
    → ((i : ApiKeyInfo) → i.active ≡ false → (f i).active ≡ false)
    → AllInactive hash m
    → AllInactive hash (modify key f m)
modify-inactive f hash key m same quiet h k j g e = elim (Option-cases (get k m)) [
  | inl missing ↦ ground (arith, get-modify key k f m, missing, g)
  | inr (i, found) ↦ ground (arith, get-modify key k f m, found, g, same i, quiet i, h k i found, e)
]

-- A revocation makes no key active.
revoke-inactive :
    (hash key_id : String) (a : AuthSystem)
    → AllInactive hash a.api_keys
    → AllInactive hash (revoke_api_key key_id a).api_keys
unfolding revoke_api_key
revoke-inactive hash key_id a h k j g e = elim (Option-cases (get key_id a.api_keys)) [
  | inl missing ↦ h k j (ground (arith, missing, g)) e
  | inr (i, found) ↦
      modify-inactive (λ x. record x { active = false }) hash key_id a.api_keys (λ i. refl)
        (λ i q. refl) h k j (ground (arith, found, g)) e
]

-- After its revocation a key is inactive, and so is each key of its hash if it alone has that.
revoked-inactive :
    (hash key_id : String) (i : ApiKeyInfo) (a : AuthSystem)
    → get key_id a.api_keys ≡ some i
    → ((k : String) (j : ApiKeyInfo) → get k a.api_keys ≡ some j → j.key_hash ≡ hash → k ≡ key_id)
    → AllInactive hash (revoke_api_key key_id a).api_keys
unfolding revoke_api_key
revoked-inactive hash key_id i a g alone k j e h =
    let same = get-modify key_id k (λ x. record x { active = false }) a.api_keys in
    elim (Option-cases (get k a.api_keys)) [
      | inl missing ↦ ground (arith, g, same, missing, e)
      | inr (x, found) ↦ ground (arith, g, same, found, e, h, alone k x found, ==_iff key_id k)
    ]

-- An authorization leaves the keys alone.
authorize-api_keys :
    (now : ℕ) (session_id : String) (permission : Permission) (a : AuthSystem)
    → (authorize now session_id permission a).0.api_keys ≡ a.api_keys
unfolding authorize authorize_session
authorize-api_keys now session_id permission a = ground arith

step-inactive :
    (hash_key : String → String) (hash : String) (a : AuthSystem) (c : Call)
    → MakesOther hash_key hash c
    → IsBarred hash a
    → AllInactive hash (step hash_key a c).api_keys
unfolding step generate_api_key new_key record_rate_limit_attempt authorize revoke_api_key
    invalidate_session cleanup_expired
step-inactive hash_key hash a (generates now key_id api_key name permissions expires_at) other b k j
      g e =
    let made = new_key now key_id (hash_key api_key) name permissions expires_at in
    ground (arith, get-insert key_id k made a.api_keys, g, e, other, b.inactive k j)
step-inactive hash_key hash a (authenticates checked now session_id api_key client_id) other b k j g
      e =
    authenticate_cases (λ r. AllInactive hash r.0.api_keys) hash_key checked now session_id api_key
      client_id a (λ _. b.inactive) (λ _ _ _. b.inactive) (λ _ _ _. b.inactive)
      (λ key info _ _ _.
        admit_cases (λ r. AllInactive hash r.0.api_keys) now session_id client_id key info a
          (λ _. b.inactive) (λ _ _. b.inactive)
          (λ _ _.
            modify-inactive (λ i. record i { last_used = some now }) hash key a.api_keys (λ i. refl)
              (λ i q. q) b.inactive))
      k j g e
step-inactive hash_key hash a (authorizes now session_id permission) other b k j g e =
    b.inactive k j
      (subst (λ m. get k m ≡ some j) (authorize-api_keys now session_id permission a) g) e
step-inactive hash_key hash a (revokes key_id) other b k j g e =
    revoke-inactive hash key_id a b.inactive k j g e
step-inactive hash_key hash a (invalidates session_id) other b k j g e = b.inactive k j g e
step-inactive hash_key hash a (cleans now) other b k j g e = b.inactive k j g e

step-IsBarred :
    (hash_key : String → String) (hash : String) (a : AuthSystem) (c : Call)
    → MakesOther hash_key hash c
    → IsBarred hash a
    → IsBarred hash (step hash_key a c)
step-IsBarred hash_key hash a c other b = record {
  on = subst (λ d. d.enabled ≡ true) (sym (step-config hash_key a c)) b.on;
  well_formed = step-IsWellFormed hash_key a c b.well_formed;
  inactive = step-inactive hash_key hash a c other b;
}

run-IsBarred :
    (hash_key : String → String) (hash : String) (a : AuthSystem) (cs : List Call)
    → All (MakesOther hash_key hash) cs
    → IsBarred hash a
    → IsBarred hash (run hash_key a cs)
unfolding run
run-IsBarred hash_key hash a [] others b = b
run-IsBarred hash_key hash a (c ∷ cs) (other, others) b =
    run-IsBarred hash_key hash (step hash_key a c) cs others
      (step-IsBarred hash_key hash a c other b)

-- A revoked key never authenticates again: with authentication enabled, if no other listed key has
-- its hash, then after whatever calls follow its revocation, of which none generates a key with the
-- same hash, no call succeeds with it.
pub authenticate-revoke_api_key :
    (hash_key : String → String) (checked now : ℕ) (key_id api_key session_id client_id : String)
    (i : ApiKeyInfo) (a b : AuthSystem) (cs : List Call) (sid : String)
    (permissions : List Permission)
    → a.config.enabled ≡ true
    → IsWellFormed a
    → get key_id a.api_keys ≡ some i
    → ((k : String) (j : ApiKeyInfo)
        → get k a.api_keys ≡ some j
        → j.key_hash ≡ hash_key api_key
        → k ≡ key_id)
    → All (MakesOther hash_key (hash_key api_key)) cs
    → authenticate hash_key checked now session_id api_key client_id
        (run hash_key (revoke_api_key key_id a) cs)
      ≢ (b, success sid permissions)
unfolding step
authenticate-revoke_api_key hash_key checked now key_id api_key session_id client_id i a b cs sid
      permissions on w g alone others e =
    let barred =
      run-IsBarred hash_key (hash_key api_key) (revoke_api_key key_id a) cs others (record {
        on = subst (λ c. c.enabled ≡ true) (sym (step-config hash_key a (revokes key_id))) on;
        well_formed = step-IsWellFormed hash_key a (revokes key_id) w;
        inactive = revoked-inactive (hash_key api_key) key_id i a g alone;
      }) in
    let (_, x) =
      authenticate-IsAdmitted hash_key checked now session_id api_key client_id
        (run hash_key (revoke_api_key key_id a) cs) b sid permissions barred.on barred.well_formed
        e in
    let quiet = barred.inactive x.key x.info x.listed x.hashed in
    absurd (false≢true (sym quiet ∙ x.active))
