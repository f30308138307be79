-- ===== src/Health/Types.antt =====
-- The data of sv2-core/src/health.rs. A `DateTime` and a `Duration` are nanoseconds.
use stratum_v2_tools.Common.{Bool, List, String, [], nat_eq, string_eq, true, ℕ, ◌∷◌}
use stratum_v2_tools.Common.Floats.{Floats}
use stratum_v2_tools.Common.Map.{Map}
use stratum_v2_tools.Config.Defaults.{default_health}
use stratum_v2_tools.Config.Types.{HealthConfig}

pub data HealthStatus : Type 0 where
  healthy warned critical unknown : HealthStatus

pub record HealthCheck : Type 0 where
  pub name : String
  pub status : HealthStatus
  pub message : String
  pub timestamp : ℕ
  pub duration : ℕ
  pub metadata : Map String String

pub data NotificationChannelType : Type 0 where
  log email webhook slack discord : NotificationChannelType

pub record NotificationChannel : Type 0 where
  pub name : String
  pub channel_type : NotificationChannelType
  pub config : Map String String
  pub enabled : Bool

pub record ExtendedHealthConfig (fl : Floats) : Type 0 where
  pub base : HealthConfig fl
  pub notification_channels : List NotificationChannel

pub data AlertSeverity : Type 0 where
  severity_info severity_warning severity_critical : AlertSeverity

pub record Alert : Type 0 where
  pub id : String
  pub title : String
  pub message : String
  pub severity : AlertSeverity
  pub timestamp : ℕ
  pub source : String
  pub metadata : Map String String

-- A checker is known by its name; what it answers is an argument of each round.
pub record HealthMonitor (fl : Floats) : Type 0 where
  pub config : ExtendedHealthConfig fl
  pub checks : List String
  pub last_results : Map String HealthCheck
  pub alert_history : List Alert
  -- The channels of the notification service.
  pub channels : List NotificationChannel

abbrev pub log_channel : NotificationChannel
log_channel = record { name = "log"; channel_type = log; config = []; enabled = true }

-- `ExtendedHealthConfig::default`.
abbrev pub default_extended : (fl : Floats) → ExtendedHealthConfig fl
default_extended fl = record { base = default_health fl; notification_channels = log_channel ∷ [] }

-- What comes of one check within its time, and the readings of the clock and the identifier that the
-- monitor takes for it.
pub data Outcome : Type 0 where
  checked : HealthCheck → Outcome
  check_failed : String → Outcome
  timed_out : Outcome

pub record Reply : Type 0 where
  pub outcome : Outcome
  pub now : ℕ
  pub elapsed : ℕ
  pub fresh_id : String
  pub alert_time : ℕ

-- A line that the logger is given.
pub data Notice : Type 0 where
  error_line warn_line info_line : String → Notice
