-- ===== src/Health/History.antt =====
-- The history of alerts of sv2-core/src/health.rs, over any number of rounds.
use stratum_v2_tools.Common.{
  List, Option, String, [], ap, append-nil, append_assoc, arith, get_or, length, length-append, min,
  nat_eq, refl, string_eq, sym, ℕ, ◌++◌, ◌+◌, ◌∙◌, ◌∷◌, ◌≡◌, ◌≤◌,
}
use stratum_v2_tools.Common.Floats.{Floats}
use stratum_v2_tools.Common.Map.{Map, insert}
use stratum_v2_tools.Health.Monitor.{
  alert_of, check_for_alerts, get_alert_history, keep_last, result_of, run_checks,
  run_health_checks, run_rounds, send_alert, should_alert,
}
use stratum_v2_tools.Health.Types.{Alert, HealthCheck, HealthMonitor, Reply, critical, warned}

-- The alert that a check gives reason to, if it does: it is critical or a warning.
unfoldable pub alerts_of : HealthCheck → Reply → List Alert
alerts_of c r = elim c.status [ critical ↦ alert_of c r ∷ [] | warned ↦ alert_of c r ∷ [] | _ ↦ [] ]

-- The alerts of one round, from the checker with the index `i` on.
unfoldable pub raised : (ℕ → Reply) → ℕ → List String → List Alert
unfolding alerts_of
raised replies i [] = []
raised replies i (name ∷ names) =
    alerts_of (result_of name (replies i)) (replies i) ++ raised replies (i + 1) names

-- All the alerts of several rounds, in their order.
unfoldable pub all_raised : List String → List (ℕ → Reply) → List Alert
unfolding raised
all_raised names [] = []
all_raised names (replies ∷ rounds) = raised replies 0 names ++ all_raised names rounds

module _ {A : Type 0} where
  keep_last-append :
      (n : ℕ) (xs ys : List A) → keep_last n (keep_last n xs ++ ys) ≡ keep_last n (xs ++ ys)
  unfolding keep_last
  keep_last-append n [] ys = refl
  keep_last-append n (x ∷ xs) ys = ground (arith, keep_last-append n xs ys, length-append xs ys)

  keep_last_all : (n : ℕ) (xs : List A) → length xs ≤ n → keep_last n xs ≡ xs
  unfolding keep_last
  keep_last_all n [] h = refl
  keep_last_all n (x ∷ xs) h = ground arith

  keep_last-keep_last :
      (l n : ℕ) (xs : List A) → keep_last l (keep_last n xs) ≡ keep_last (min l n) xs
  unfolding keep_last
  keep_last-keep_last l n [] = refl
  keep_last-keep_last l n (x ∷ xs) = ground (arith, keep_last-keep_last l n xs, keep_last_all n xs)

module _ {fl : Floats} where
  check_for_alerts-history :
      (c : HealthCheck) (r : Reply) (m : HealthMonitor fl) (before : List Alert)
      → m.alert_history ≡ keep_last 1000 before
      → (check_for_alerts c r m).0.alert_history ≡ keep_last 1000 (before ++ alerts_of c r)
  unfolding check_for_alerts send_alert should_alert alerts_of
  check_for_alerts-history c r m before h =
      ground (arith, h, keep_last-append 1000 before (alert_of c r ∷ []), append-nil before)

  run_checks-history :
      (replies : ℕ → Reply) (i : ℕ) (names : List String) (results : Map String HealthCheck)
      (m : HealthMonitor fl) (before : List Alert)
      → m.alert_history ≡ keep_last 1000 before
      → (run_checks replies i names results m).0.alert_history
        ≡ keep_last 1000 (before ++ raised replies i names)
  unfolding run_checks raised
  run_checks-history replies i [] results m before h =
      h ∙ ap (keep_last 1000) (sym (append-nil before))
  run_checks-history replies i (name ∷ names) results m before h =
      let c = result_of name (replies i) in
      run_checks-history replies (i + 1) names (insert c.name c results)
        (check_for_alerts c (replies i) m).0 (before ++ alerts_of c (replies i))
        (check_for_alerts-history c (replies i) m before h)
      ∙ ap (keep_last 1000)
          (append_assoc before (alerts_of c (replies i)) (raised replies (i + 1) names))

  check_for_alerts-checks :
      (c : HealthCheck) (r : Reply) (m : HealthMonitor fl)
      → (check_for_alerts c r m).0.checks ≡ m.checks
  unfolding check_for_alerts send_alert
  check_for_alerts-checks c r m = ground arith

  run_checks-checks :
      (replies : ℕ → Reply) (i : ℕ) (names : List String) (results : Map String HealthCheck)
      (m : HealthMonitor fl)
      → (run_checks replies i names results m).0.checks ≡ m.checks
  unfolding run_checks
  run_checks-checks replies i [] results m = refl
  run_checks-checks replies i (name ∷ names) results m =
      let c = result_of name (replies i) in
      run_checks-checks replies (i + 1) names (insert c.name c results)
        (check_for_alerts c (replies i) m).0
      ∙ check_for_alerts-checks c (replies i) m

  run_rounds-history :
      (rounds : List (ℕ → Reply)) (m : HealthMonitor fl) (before : List Alert)
      → m.alert_history ≡ keep_last 1000 before
      → (run_rounds rounds m).alert_history ≡ keep_last 1000 (before ++ all_raised m.checks rounds)
  unfolding run_rounds run_health_checks all_raised
  run_rounds-history [] m before h = h ∙ ap (keep_last 1000) (sym (append-nil before))
  run_rounds-history (replies ∷ rounds) m before h =
      let n = (run_health_checks replies m).0 in
      run_rounds-history rounds n (before ++ raised replies 0 m.checks)
        (run_checks-history replies 0 m.checks [] m before h)
      ∙ ap
          (λ names.
            keep_last 1000 ((before ++ raised replies 0 m.checks) ++ all_raised names rounds))
          (run_checks-checks replies 0 m.checks [] m)
      ∙ ap (keep_last 1000)
          (append_assoc before (raised replies 0 m.checks) (all_raised m.checks rounds))

  -- After any rounds of a monitor without alerts, the history that is listed for a limit, of 100 if
  -- none is given, holds the last alerts of all that the rounds gave reason to, in their order: as
  -- many as the limit says, and never more than 1000.
  pub get_alert_history-run_rounds :
      (limit : Option ℕ) (rounds : List (ℕ → Reply)) (m : HealthMonitor fl)
      → m.alert_history ≡ []
      → get_alert_history limit (run_rounds rounds m)
        ≡ keep_last (min (get_or limit 100) 1000) (all_raised m.checks rounds)
  unfolding get_alert_history keep_last
  get_alert_history-run_rounds limit rounds m h =
      ap (keep_last (get_or limit 100)) (run_rounds-history rounds m [] h)
      ∙ keep_last-keep_last (get_or limit 100) 1000 (all_raised m.checks rounds)
