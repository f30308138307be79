-- ===== src/Config/Defaults.antt =====
-- The `Default` instances of sv2-core/src/config.rs, its templates and the parsing of a mode.
use stratum_v2_tools.Auth.Types.{default_config, permission_eq}
use stratum_v2_tools.Common.{
  String, [], false, if◌then◌else◌, nat_eq, none, some, string_eq, true, ℕ,
}
use stratum_v2_tools.Common.Floats.{Floats}
use stratum_v2_tools.Common.Text.{lowers_to, ◌<>◌}
use stratum_v2_tools.Config.Types.{
  AlertThresholds, BitcoinConfig, ClientConfig, DaemonConfig, DatabaseConfig, HealthConfig,
  LoggingConfig, MetricsConfig, MonitoringConfig, NetworkConfig, OperationMode, OperationModeConfig,
  PoolConfig, ProxyConfig, SecurityConfig, SoloConfig, UpstreamPool, client, client_mode, json,
  mode_eq, pool, pool_mode, proxy, proxy_mode, regtest, round_robin, solo, solo_mode, stdout,
}
use stratum_v2_tools.Error.{Error, Foreign, Result, err, ok}

-- `default_bind_port`.
abbrev pub default_bind_port : ℕ
default_bind_port = 3333

-- `default_upstream_port`.
abbrev pub default_upstream_port : ℕ
default_upstream_port = 50124

abbrev pub default_solo : SoloConfig
default_solo = record {
  coinbase_address = "";
  block_template_refresh_interval = 30;
  enable_custom_templates = false;
  max_template_age = 300;
}

abbrev pub default_upstream : UpstreamPool
default_upstream = record {
  url = "stratum+tcp://pool.example.com:4444";
  username = "worker";
  password = "password";
  priority = 1;
  weight = 1;
}

-- The source leaves out the three fields of older versions; here they have the values that their
-- absence from a file gives them.
abbrev pub default_proxy : ProxyConfig
default_proxy = record {
  upstream_pools = [];
  failover_enabled = true;
  load_balancing = round_robin;
  connection_retry_interval = 30;
  max_retry_attempts = 5;
  bind_port = default_bind_port;
  upstream_address = "";
  upstream_port = default_upstream_port;
}

abbrev pub default_client : ClientConfig
default_client = record {
  upstream_pool = default_upstream;
  enable_job_negotiation = false;
  custom_template_enabled = false;
  reconnect_interval = 30;
  max_reconnect_attempts = 10;
}

abbrev pub default_network : NetworkConfig
default_network = record {
  bind_address = record { ip = "127.0.0.1"; port = 3333 };
  max_connections = 1000;
  connection_timeout = 30;
  keepalive_interval = 60;
}

abbrev pub default_bitcoin : BitcoinConfig
default_bitcoin = record {
  rpc_url = "http://127.0.0.1:8332";
  rpc_user = "bitcoin";
  rpc_password = "password";
  network = regtest;
  coinbase_address = none;
  block_template_timeout = 30;
}

abbrev pub default_database : DatabaseConfig
default_database = record {
  url = "sqlite://sv2d.db";
  max_connections = 10;
  connection_timeout = 30;
  enable_migrations = true;
}

abbrev pub default_metrics : MetricsConfig
default_metrics = record {
  enabled = true;
  collection_interval = 10;
  prometheus_port = 9090;
  system_monitoring = true;
  labels = [];
}

abbrev pub default_logging : LoggingConfig
default_logging = record {
  level = "info";
  component_levels = [];
  format = json;
  output = stdout;
  enable_correlation_ids = true;
  redact_sensitive_data = true;
  max_file_size_mb = some 100;
  max_files = some 10;
}

abbrev pub default_security : SecurityConfig
default_security = record {
  enable_authentication = false;
  api_key = none;
  rate_limit_per_minute = 60;
  enable_tls = false;
  tls_cert_path = none;
  tls_key_path = none;
  auth = default_config;
}

module _ (fl : Floats) where
  abbrev pub default_pool : PoolConfig fl
  default_pool = record {
    share_difficulty = fl.of_nat 1;
    variable_difficulty = true;
    min_difficulty = fl.decimal "0.1";
    max_difficulty = fl.of_nat 1000000;
    difficulty_adjustment_interval = 120;
    payout_threshold = fl.decimal "0.001";
    fee_percentage = fl.of_nat 1;
  }

  abbrev pub default_thresholds : AlertThresholds fl
  default_thresholds = record {
    cpu_usage = fl.of_nat 80;
    memory_usage = fl.of_nat 85;
    connection_count = 900;
    rejection_rate = fl.of_nat 10;
    response_time = 5000;
    database_connections = 8;
  }

  abbrev pub default_health : HealthConfig fl
  default_health = record {
    enabled = true;
    check_interval = 30;
    check_timeout = 10;
    alert_thresholds = default_thresholds;
  }

  abbrev pub default_monitoring : MonitoringConfig fl
  default_monitoring = record {
    enable_metrics = true;
    metrics_bind_address = record { ip = "127.0.0.1"; port = 9090 };
    enable_health_checks = true;
    health_check_interval = 30;
    metrics = default_metrics;
    health = default_health;
  }

  abbrev pub default_daemon : DaemonConfig fl
  default_daemon = record {
    mode = solo_mode default_solo;
    network = default_network;
    bitcoin = default_bitcoin;
    database = default_database;
    monitoring = default_monitoring;
    logging = default_logging;
    security = default_security;
  }

  -- The settings of the mode in `template_for_mode`.
  unfoldable pub default_mode : OperationMode → OperationModeConfig fl
  default_mode solo = solo_mode default_solo
  default_mode pool = pool_mode default_pool
  default_mode proxy = proxy_mode default_proxy
  default_mode client = client_mode default_client

  unfoldable pub template_for_mode : OperationMode → DaemonConfig fl
  unfolding default_mode
  template_for_mode m = record default_daemon { mode = default_mode m }

  -- `FromStr for OperationModeConfig`.
  unfoldable pub mode_from_str : {F : Foreign} → String → Result F (OperationModeConfig fl)
  mode_from_str s =
      if lowers_to s "solo"
      then ok (solo_mode default_solo)
      else if lowers_to s "pool"
      then ok (pool_mode default_pool)
      else if lowers_to s "proxy"
      then ok (proxy_mode default_proxy)
      else if lowers_to s "client"
      then ok (client_mode default_client)
      else err (Error.config ("Invalid operation mode: " <> s))
