-- ===== src/Tests/Health.antt =====
-- The theorems on sv2-core/src/health.rs at a small monitor.
use stratum_v2_tools.Common.{
  [], any, if◌then◌else◌, map, min, nat_eq, refl, some, string_eq, ℕ, ◌==◌, ◌∷◌, ◌≡◌,
}
use stratum_v2_tools.Common.Floats.{whole_floats}
use stratum_v2_tools.Common.Map.{get}
use stratum_v2_tools.Common.Text.{show}
use stratum_v2_tools.Health.History.{all_raised, get_alert_history-run_rounds}
use stratum_v2_tools.Health.Monitor.{
  alert_of, check_for_alerts, failed_check, get_alert_history, get_overall_status, is_critical,
  is_warned, keep_last, new_monitor, result_of, run_checks, run_health_checks, run_rounds,
  send_alert, should_alert,
}
use stratum_v2_tools.Health.Overall.{Summary, results_of, run_health_checks-overall}
use stratum_v2_tools.Health.Types.{
  HealthCheck, HealthMonitor, Reply, checked, default_extended, healthy, timed_out, unknown, warned,
}

abbrev a_monitor : HealthMonitor whole_floats
a_monitor = record (new_monitor (default_extended whole_floats)) {
  checks = "database" ∷ "node" ∷ [];
}

abbrev a_report : HealthCheck
a_report = record {
  name = "database";
  status = warned;
  message = "slow";
  timestamp = 5;
  duration = 2;
  metadata = [];
}

-- The database is slow and the node does not answer.
abbrev a_round : ℕ → Reply
a_round i = record {
  outcome = if i == 0 then checked a_report else timed_out;
  now = 9;
  elapsed = 4;
  fresh_id = show i;
  alert_time = 10;
}

get_alert_history-run_rounds_example :
    get_alert_history (some 3) (run_rounds (a_round ∷ a_round ∷ []) a_monitor)
    ≡ keep_last (min 3 1000) (all_raised a_monitor.checks (a_round ∷ a_round ∷ []))
unfolding new_monitor
get_alert_history-run_rounds_example =
    get_alert_history-run_rounds (some 3) (a_round ∷ a_round ∷ []) a_monitor refl

listed :
    map (λ a. a.source) (get_alert_history (some 3) (run_rounds (a_round ∷ a_round ∷ []) a_monitor))
    ≡ "node" ∷ "database" ∷ "node" ∷ []
unfolding new_monitor get_alert_history run_rounds run_health_checks run_checks result_of
    failed_check check_for_alerts send_alert should_alert alert_of keep_last
listed = refl

run_health_checks-overall_example :
    Summary
      (results_of a_round 0 a_monitor.checks)
      (get_overall_status (run_health_checks a_round a_monitor).0)
unfolding results_of result_of failed_check get
run_health_checks-overall_example = run_health_checks-overall a_round a_monitor (refl, (refl, tt))

-- A node that is not known to be well counts as well.
unknown_counts_as_healthy :
    get_overall_status
      (record a_monitor { last_results = ("node", record a_report { status = unknown }) ∷ [] })
    ≡ healthy
unfolding get_overall_status any is_critical is_warned
unknown_counts_as_healthy = refl
