-- ===== src/ConnectionAuth/Stats.antt =====
-- The numbers that `get_connection_stats` of sv2-core/src/connection_auth.rs reports.
use stratum_v2_tools.Auth.Types.{permission_eq}
use stratum_v2_tools.Common.{
  ==_iff, ==_refl, Bool, Bool-cases, List, Option-cases, String, [], ap, arith, count_by,
  if◌then◌else◌, inl, inr, length, nat_eq, none, not, refl, some, string_eq, subst, suc, sym, ◌+◌,
  ◌<◌, ◌==◌, ◌∙◌, ◌∷◌, ◌≡◌,
}
use stratum_v2_tools.Common.Map.{
  IsMap, Map, get, get-remove, remove, remove-IsMap, remove_missing, values,
}
use stratum_v2_tools.Common.Words.{sub_u64_exact, u64_mod}
use stratum_v2_tools.ConnectionAuth.Consistent.{IsConsistent, session_of}
use stratum_v2_tools.ConnectionAuth.Manager.{
  ConnectionAuthManager, ConnectionMetadata, get_connection_stats, is_authenticated,
}

-- Without any session no connection is authenticated.
no_sessions :
    (m : Map String ConnectionMetadata)
    → IsMap m
    → ((c : String) → session_of (get c m) ≡ none)
    → count_by is_authenticated (values m) ≡ 0
unfolding count_by is_authenticated get
no_sessions [] h none_of = refl
no_sessions ((j, d) ∷ m) (fresh, h) none_of =
    let rest = no_sessions m h λ c. ground (arith, none_of c, ==_iff j c, fresh) in
    ground (arith, rest, none_of j, ==_refl j)

count_by-remove_found :
    (p : ConnectionMetadata → Bool) (c : String) (d : ConnectionMetadata)
    (m : Map String ConnectionMetadata)
    → IsMap m
    → get c m ≡ some d
    → count_by p (values m) ≡ (if p d then 1 else 0) + count_by p (values (remove c m))
unfolding get remove count_by
count_by-remove_found p c d [] h e = ground arith
count_by-remove_found p c d ((j, w) ∷ m) (fresh, h) e = elim (Bool-cases (j == c)) [
  | inl hit ↦
      let gone = remove_missing c m (subst (λ k. get k m ≡ none) ((==_iff j c).0 hit) fresh) in
      ground (arith, hit, gone)
  | inr miss ↦ ground (arith, miss, count_by-remove_found p c d m h)
]

length-authenticated :
    (s : Map String String) (m : Map String ConnectionMetadata)
    → IsMap s
    → IsMap m
    → ((c : String) → get c s ≡ session_of (get c m))
    → length s ≡ count_by is_authenticated (values m)
unfolding get is_authenticated
length-authenticated [] m hs hm agree = sym (no_sessions m hm (λ c. sym (agree c)))
length-authenticated ((c, sid) ∷ s) m (fresh, hs) hm agree = elim (Option-cases (get c m)) [
  | inl missing ↦ ground (arith, agree c, missing, ==_refl c)
  | inr (d, found) ↦
      let rest =
        length-authenticated s (remove c m) hs (remove-IsMap c m hm)
          λ j. ground (arith, agree j, get-remove c j m, ==_iff c j, fresh) in
      ground (
        arith,
        rest,
        found,
        agree c,
        ==_refl c,
        count_by-remove_found is_authenticated c d m hm found,
      )
]

count_by-not :
    (p : ConnectionMetadata → Bool) (xs : List ConnectionMetadata)
    → count_by p xs + count_by (λ d. not (p d)) xs ≡ length xs
unfolding count_by
count_by-not p [] = refl
count_by-not p (x ∷ xs) = ground (arith, count_by-not p xs)

length-values : (m : Map String ConnectionMetadata) → length (values m) ≡ length m
length-values [] = refl
length-values (e ∷ m) = ap suc (length-values m)

-- When the two maps agree, and there are fewer than 2 ^ 64 connections, the three counts are those of
-- all connections, of the ones whose metadata names a session, and of the others: the subtraction
-- never wraps around.
pub get_connection_stats_lem :
    (m : ConnectionAuthManager)
    → IsConsistent m
    → length m.connection_metadata < u64_mod
    → let s = get_connection_stats m in
      let ds = values m.connection_metadata in
      (s.total_connections ≡ length ds)
      × (s.authenticated_connections ≡ count_by is_authenticated ds)
      × (s.unauthenticated_connections ≡ count_by (λ d. not (is_authenticated d)) ds)
unfolding get_connection_stats
get_connection_stats_lem m v fits =
    let same =
      length-authenticated m.connection_sessions m.connection_metadata v.sessions_map v.metadata_map
        v.agree in
    let split = count_by-not is_authenticated (values m.connection_metadata) in
    let all = length-values m.connection_metadata in
    (
      sym all,
      same,
      sub_u64_exact (length m.connection_metadata) (length m.connection_sessions) fits
            (omega (arith, same, split, all))
          ∙ omega (arith, same, split, all),
    )
