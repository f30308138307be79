-- ===== src/Health/Overall.antt =====
-- The overall status after a round of checks: `run_health_checks` and `get_overall_status` of
-- sv2-core/src/health.rs.
use stratum_v2_tools.Common.{
  ==_iff, ==_refl, List, String, [], any, ap, append-nil, append_assoc, arith, false, nat_eq, none,
  refl, string_eq, subst, sym, true, ℕ, ◌++◌, ◌+◌, ◌↔◌, ◌∙◌, ◌∷◌, ◌≡◌,
}
use stratum_v2_tools.Common.Floats.{Floats}
use stratum_v2_tools.Common.Map.{IsMap, Map, get, insert, values}
use stratum_v2_tools.Health.Monitor.{
  check_for_alerts, get_overall_status, is_critical, is_warned, result_of, run_checks,
  run_health_checks,
}
use stratum_v2_tools.Health.Types.{
  HealthCheck, HealthMonitor, HealthStatus, Reply, critical, unknown, warned,
}

-- The results of a round, from the checker with the index `i` on.
unfoldable pub results_of : (ℕ → Reply) → ℕ → List String → List HealthCheck
results_of replies i [] = []
results_of replies i (name ∷ names) = result_of name (replies i) ∷ results_of replies (i + 1) names

-- The results under their names.
abbrev pub named : List HealthCheck → Map String HealthCheck
named [] = []
named (c ∷ cs) = (c.name, c) ∷ named cs

-- A status sums up results: the worst of them, where what is not known does not count.
abbrev pub Summary : List HealthCheck → HealthStatus → Type 0
Summary cs s =
    ((s ≡ unknown) ↔ (cs ≡ []))
    × ((s ≡ critical) ↔ (any is_critical cs ≡ true))
    × ((s ≡ warned) ↔ ((any is_critical cs ≡ false) × (any is_warned cs ≡ true)))

values-named : (cs : List HealthCheck) → values (named cs) ≡ cs
values-named [] = refl
values-named (c ∷ cs) = ap (λ l. c ∷ l) (values-named cs)

module _ {V : Type 0} where
  insert_fresh :
      (k : String) (v : V) (m : Map String V) → get k m ≡ none → insert k v m ≡ m ++ ((k, v) ∷ [])
  unfolding insert get
  insert_fresh k v [] h = refl
  insert_fresh k v ((j, w) ∷ m) h = ground (arith, insert_fresh k v m)

  absent-parts : (k : String) (m n : Map String V) → get k (m ++ n) ≡ none → get k n ≡ none
  unfolding get
  absent-parts k [] n h = h
  absent-parts k ((j, w) ∷ m) n h = ground (arith, absent-parts k m n)

  -- A key in the middle of a map does not stand before.
  fresh_before :
      (k : String) (v : V) (m n : Map String V) → IsMap (m ++ ((k, v) ∷ n)) → get k m ≡ none
  unfolding get
  fresh_before k v [] n h = refl
  fresh_before k v ((j, w) ∷ m) n (fresh, h) =
      ground
        (arith, ==_iff j k, ==_refl k, fresh_before k v m n h, absent-parts j m ((k, v) ∷ n) fresh)

module _ {fl : Floats} where
  run_checks-results :
      (replies : ℕ → Reply) (i : ℕ) (names : List String) (results : Map String HealthCheck)
      (m : HealthMonitor fl)
      → IsMap (results ++ named (results_of replies i names))
      → (run_checks replies i names results m).1 ≡ results ++ named (results_of replies i names)
  unfolding run_checks results_of
  run_checks-results replies i [] results m h = sym (append-nil results)
  run_checks-results replies i (name ∷ names) results m h =
      let c = result_of name (replies i) in
      let rest = named (results_of replies (i + 1) names) in
      let n = (check_for_alerts c (replies i) m).0 in
      let added = insert_fresh c.name c results (fresh_before c.name c results rest h) in
      let moved = append_assoc results ((c.name, c) ∷ []) rest in
      ap (λ r. (run_checks replies (i + 1) names r n).1) added
      ∙ run_checks-results replies (i + 1) names (results ++ ((c.name, c) ∷ [])) n
          (subst IsMap (sym moved) h)
      ∙ moved

  overall-named :
      (cs : List HealthCheck) (m : HealthMonitor fl)
      → Summary cs (get_overall_status (record m { last_results = named cs }))
  unfolding get_overall_status any
  overall-named [] m = ground arith
  overall-named (c ∷ cs) m =
      ground (arith, ap (any is_critical) (values-named cs), ap (any is_warned) (values-named cs))

  -- If the results of a round bear different names, the overall status after it is critical exactly
  -- if one of them is, a warning exactly if one is a warning and none is critical, and unknown exactly
  -- if there is none.
  pub run_health_checks-overall :
      (replies : ℕ → Reply) (m : HealthMonitor fl)
      → IsMap (named (results_of replies 0 m.checks))
      → Summary (results_of replies 0 m.checks) (get_overall_status (run_health_checks replies m).0)
  unfolding run_health_checks
  run_health_checks-overall replies m h =
      let n = (run_checks replies 0 m.checks [] m).0 in
      let cs = results_of replies 0 m.checks in
      subst (λ r. Summary cs (get_overall_status (record n { last_results = r })))
        (sym (run_checks-results replies 0 m.checks [] m h)) (overall-named cs n)
