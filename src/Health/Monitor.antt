-- ===== src/Health/Monitor.antt =====
-- `HealthMonitor` and `NotificationService` of sv2-core/src/health.rs.
use stratum_v2_tools.Common.{
  Bool, List, Option, String, [], any, false, get_or, if◌then◌else◌, leb, length, nat_eq, string_eq,
  suc, true, ℕ, ◌++◌, ◌+◌, ◌∷◌,
}
use stratum_v2_tools.Common.Floats.{Floats}
use stratum_v2_tools.Common.Map.{Map, insert, values}
use stratum_v2_tools.Common.Text.{◌<>◌}
use stratum_v2_tools.Health.Types.{
  Alert, AlertSeverity, ExtendedHealthConfig, HealthCheck, HealthMonitor, HealthStatus, Notice,
  NotificationChannel, Reply, check_failed, checked, critical, discord, email, error_line, healthy,
  info_line, log, severity_critical, severity_info, severity_warning, slack, timed_out, unknown,
  warn_line, warned, webhook,
}

-- `NotificationService::send_to_channel`.
unfoldable pub send_to_channel : NotificationChannel → Alert → Notice
send_to_channel channel a = elim channel.channel_type [
  | log ↦ elim a.severity [
    | severity_critical ↦ error_line ("[ALERT] " <> a.title <> ": " <> a.message)
    | severity_warning ↦ warn_line ("[ALERT] " <> a.title <> ": " <> a.message)
    | severity_info ↦ info_line ("[ALERT] " <> a.title <> ": " <> a.message)
  ]
  | email ↦ info_line ("Email notification not implemented: " <> a.title)
  | webhook ↦ info_line ("Webhook notification not implemented: " <> a.title)
  | slack ↦ info_line ("Slack notification not implemented: " <> a.title)
  | discord ↦ info_line ("Discord notification not implemented: " <> a.title)
]

-- `NotificationService::send_alert`.
unfoldable pub notify : List NotificationChannel → Alert → List Notice
unfolding send_to_channel
notify [] a = []
notify (channel ∷ channels) a =
    if channel.enabled then send_to_channel channel a ∷ notify channels a else notify channels a

-- `history.drain(0..excess)` and a slice from the end: the last `n` entries.
unfoldable pub keep_last {ℓ} : {A : Type ℓ} → ℕ → List A → List A
keep_last n [] = []
keep_last n (x ∷ xs) = let rest = keep_last n xs in if leb (suc (length xs)) n then x ∷ xs else rest

-- The result that stands for a check that failed or ran out of time.
unfoldable pub failed_check : String → String → Reply → HealthCheck
failed_check name message r = record {
  name = name;
  status = critical;
  message = message;
  timestamp = r.now;
  duration = r.elapsed;
  metadata = [];
}

unfoldable pub result_of : String → Reply → HealthCheck
unfolding failed_check
result_of name r = elim r.outcome [
  | checked c ↦ c
  | check_failed e ↦ failed_check name ("Health check failed: " <> e) r
  | timed_out ↦ failed_check name "Health check timed out" r
]

unfoldable pub should_alert : HealthStatus → Bool
should_alert critical = true
should_alert warned = true
should_alert healthy = false
should_alert unknown = false

unfoldable pub severity_of : HealthStatus → AlertSeverity
severity_of critical = severity_critical
severity_of warned = severity_warning
severity_of _ = severity_info

-- The alert of a check.
unfoldable pub alert_of : HealthCheck → Reply → Alert
unfolding severity_of
alert_of c r = record {
  id = r.fresh_id;
  title = "Health Check Alert: " <> c.name;
  message = c.message;
  severity = severity_of c.status;
  timestamp = r.alert_time;
  source = c.name;
  metadata = c.metadata;
}

unfoldable pub is_critical : HealthCheck → Bool
is_critical c = elim c.status [ critical ↦ true | _ ↦ false ]

unfoldable pub is_warned : HealthCheck → Bool
is_warned c = elim c.status [ warned ↦ true | _ ↦ false ]

module _ {fl : Floats} where
  unfoldable pub new_monitor : ExtendedHealthConfig fl → HealthMonitor fl
  new_monitor config = record {
    config = config;
    checks = [];
    last_results = [];
    alert_history = [];
    channels = config.notification_channels;
  }

  unfoldable pub add_checker : String → HealthMonitor fl → HealthMonitor fl
  add_checker name m = record m { checks = m.checks ++ (name ∷ []) }

  -- The part of `send_alert` that writes the history.
  unfoldable pub send_alert : Alert → HealthMonitor fl → HealthMonitor fl × List Notice
  unfolding keep_last notify
  send_alert a m = (
    record m { alert_history = keep_last 1000 (m.alert_history ++ (a ∷ [])) },
    notify m.channels a,
  )

  unfoldable pub check_for_alerts :
      HealthCheck → Reply → HealthMonitor fl → HealthMonitor fl × List Notice
  unfolding send_alert should_alert alert_of
  check_for_alerts c r m = if should_alert c.status then send_alert (alert_of c r) m else (m, [])

  -- The loop over the checkers, from the one with the index `i` on.
  unfoldable pub run_checks :
      (ℕ → Reply)
      → ℕ
      → List String
      → Map String HealthCheck
      → HealthMonitor fl
      → HealthMonitor fl × Map String HealthCheck × List Notice
  unfolding result_of check_for_alerts
  run_checks replies i [] results m = (m, results, [])
  run_checks replies i (name ∷ names) results m =
      let c = result_of name (replies i) in
      let (n, sent) = check_for_alerts c (replies i) m in
      let (o, all, later) = run_checks replies (i + 1) names (insert c.name c results) n in
      (o, all, sent ++ later)

  unfoldable pub run_health_checks : (ℕ → Reply) → HealthMonitor fl → HealthMonitor fl × List Notice
  unfolding run_checks
  run_health_checks replies m =
      let (n, results, sent) = run_checks replies 0 m.checks [] m in
      (record n { last_results = results }, sent)

  -- `start`: a round at each tick.
  unfoldable pub run_rounds : List (ℕ → Reply) → HealthMonitor fl → HealthMonitor fl
  unfolding run_health_checks
  run_rounds [] m = m
  run_rounds (replies ∷ rounds) m = run_rounds rounds (run_health_checks replies m).0

  unfoldable pub get_health_status : HealthMonitor fl → Map String HealthCheck
  get_health_status m = m.last_results

  unfoldable pub get_alert_history : Option ℕ → HealthMonitor fl → List Alert
  unfolding keep_last
  get_alert_history limit m = keep_last (get_or limit 100) m.alert_history

  unfoldable pub get_overall_status : HealthMonitor fl → HealthStatus
  unfolding is_critical is_warned
  get_overall_status m = elim m.last_results [
    | [] ↦ unknown
    | _ ∷ _ ↦
        if any is_critical (values m.last_results)
        then critical
        else if any is_warned (values m.last_results)
        then warned
        else healthy
  ]
