-- ===== src/Config/Priorities.antt =====
-- The order in which a proxy tries its pools: `primary_pool` and `pools_by_priority` of
-- sv2-core/src/config.rs.
use mathlib.Core.List.{Perm}
use mathlib.Core.List.Perm
use stratum_v2_tools.Common.{
  All, Bool-cases, List, Option, [], arith, false, if◌then◌else◌, inl, inr, leb, ltb, nat_eq, none,
  refl, select, some, string_eq, subst, sym, true, ℕ, ◌==◌, ◌∷◌, ◌≡◌, ◌≤◌,
}
use stratum_v2_tools.Config.Modes.{least, place, pools_by_priority, primary_pool, sort_pools}
use stratum_v2_tools.Config.Types.{ProxyConfig, UpstreamPool, mode_eq}

-- No pool stands before one of a smaller priority number.
abbrev pub Ascending : List UpstreamPool → Type 0
Ascending [] = Unit
Ascending (p ∷ ps) = All (λ q. p.priority ≤ q.priority) ps × Ascending ps

abbrev pub head? : List UpstreamPool → Option UpstreamPool
head? [] = none
head? (p ∷ ps) = some p

-- The pools of one priority, in their order.
abbrev pub of_priority : ℕ → List UpstreamPool → List UpstreamPool
of_priority n ps = select (λ p. p.priority == n) ps

place_before :
    (p q : UpstreamPool) (qs : List UpstreamPool)
    → leb p.priority q.priority ≡ true
    → place p (q ∷ qs) ≡ p ∷ q ∷ qs
unfolding place
place_before p q qs e = ground (arith, e)

place_behind :
    (p q : UpstreamPool) (qs : List UpstreamPool)
    → leb p.priority q.priority ≡ false
    → place p (q ∷ qs) ≡ q ∷ place p qs
unfolding place
place_behind p q qs e = ground (arith, e)

place-Perm : (p : UpstreamPool) (qs : List UpstreamPool) → Perm (place p qs) (p ∷ qs)
unfolding place
place-Perm p [] = Perm.refl (p ∷ [])
place-Perm p (q ∷ qs) = elim (Bool-cases (leb p.priority q.priority)) [
  | inl e ↦ subst (λ l. Perm l (p ∷ q ∷ qs)) (sym (place_before p q qs e)) (Perm.refl (p ∷ q ∷ qs))
  | inr e ↦
      subst (λ l. Perm l (p ∷ q ∷ qs)) (sym (place_behind p q qs e))
        (Perm.trans (Perm.cons q (place-Perm p qs)) (Perm.swap p q qs))
]

sort_pools-Perm : (ps : List UpstreamPool) → Perm (sort_pools ps) ps
unfolding sort_pools
sort_pools-Perm [] = Perm.refl []
sort_pools-Perm (p ∷ ps) =
    Perm.trans (place-Perm p (sort_pools ps)) (Perm.cons p (sort_pools-Perm ps))

place-All :
    (n : ℕ) (p : UpstreamPool) (qs : List UpstreamPool)
    → n ≤ p.priority
    → All (λ q. n ≤ q.priority) qs
    → All (λ q. n ≤ q.priority) (place p qs)
unfolding place
place-All n p [] h k = (h, tt)
place-All n p (q ∷ qs) h k = ground (arith, place-All n p qs h)

All-below :
    (n m : ℕ) (qs : List UpstreamPool)
    → n ≤ m
    → All (λ q. m ≤ q.priority) qs
    → All (λ q. n ≤ q.priority) qs
All-below n m [] h k = tt
All-below n m (q ∷ qs) h k = (omega (arith, h, k.0), All-below n m qs h k.1)

place-Ascending :
    (p : UpstreamPool) (qs : List UpstreamPool) → Ascending qs → Ascending (place p qs)
unfolding place
place-Ascending p [] h = (tt, tt)
place-Ascending p (q ∷ qs) h = ground (
  arith,
  h,
  place-Ascending p qs h.1,
  place-All q.priority p qs,
  All-below p.priority q.priority qs,
)

sort_pools-Ascending : (ps : List UpstreamPool) → Ascending (sort_pools ps)
unfolding sort_pools
sort_pools-Ascending [] = tt
sort_pools-Ascending (p ∷ ps) = place-Ascending p (sort_pools ps) (sort_pools-Ascending ps)

place-stable :
    (n : ℕ) (p : UpstreamPool) (qs : List UpstreamPool)
    → of_priority n (place p qs) ≡ of_priority n (p ∷ qs)
unfolding place select
place-stable n p [] = refl
place-stable n p (q ∷ qs) = ground (arith, place-stable n p qs)

sort_pools-stable :
    (n : ℕ) (ps : List UpstreamPool) → of_priority n (sort_pools ps) ≡ of_priority n ps
unfolding sort_pools select
sort_pools-stable n [] = refl
sort_pools-stable n (p ∷ ps) =
    ground (arith, place-stable n p (sort_pools ps), sort_pools-stable n ps)

-- The first of a sorted list into which a pool is put.
first_of : UpstreamPool → List UpstreamPool → UpstreamPool
first_of p [] = p
first_of p (q ∷ qs) = if leb p.priority q.priority then p else q

place-first :
    (p : UpstreamPool) (qs : List UpstreamPool) → head? (place p qs) ≡ some (first_of p qs)
unfolding place first_of
place-first p [] = refl
place-first p (q ∷ qs) = ground arith

first_of-place :
    (p q : UpstreamPool) (qs : List UpstreamPool)
    → first_of p (place q qs) ≡ (if ltb q.priority p.priority then first_of q qs else first_of p qs)
unfolding place first_of
first_of-place p q [] = ground arith
first_of-place p q (r ∷ rs) = ground arith

least-first : (p : UpstreamPool) (ps : List UpstreamPool) → least p ps ≡ first_of p (sort_pools ps)
unfolding least sort_pools first_of
least-first p [] = refl
least-first p (q ∷ qs) =
    ground (arith, least-first p qs, least-first q qs, first_of-place p q (sort_pools qs))

primary-first :
    (ps : List UpstreamPool) (c : ProxyConfig)
    → c.upstream_pools ≡ ps
    → primary_pool c ≡ head? (sort_pools ps)
unfolding primary_pool sort_pools
primary-first [] c e = ground (arith, e)
primary-first (p ∷ ps) c e = ground (arith, e, least-first p ps, place-first p (sort_pools ps))

-- The pools in the order of their priorities are the configured pools, each as often; no pool stands
-- before one of a smaller number, pools of one number keep their order, and the first of the list is
-- the primary pool.
pub pools_by_priority-sorted :
    (c : ProxyConfig)
    → Perm (pools_by_priority c) c.upstream_pools
      × Ascending (pools_by_priority c)
      × ((n : ℕ) → of_priority n (pools_by_priority c) ≡ of_priority n c.upstream_pools)
      × (primary_pool c ≡ head? (pools_by_priority c))
unfolding pools_by_priority
pools_by_priority-sorted c = (
  sort_pools-Perm c.upstream_pools,
  sort_pools-Ascending c.upstream_pools,
  λ n. sort_pools-stable n c.upstream_pools,
  primary-first c.upstream_pools c refl,
)
