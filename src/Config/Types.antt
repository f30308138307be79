-- ===== src/Config/Types.antt =====
-- The configuration of sv2-core/src/config.rs, with the mode of sv2-core/src/mode.rs. A `PathBuf` is
-- its text; a `SocketAddr` is its address and its port.
use stratum_v2_tools.Auth.Types.{AuthConfig, permission_eq}
use stratum_v2_tools.Common.{
  ==_iff, ==_refl, Bool, Eq, List, Option, String, ap, arith, both_true, if◌then◌else◌, nat_eq, not,
  same_of, same_of_iff, string_eq, subst, true, ℕ, ◌&&◌, ◌==◌, ◌↔◌, ◌∙◌, ◌≡◌,
}
use stratum_v2_tools.Common.Floats.{Floats}
use stratum_v2_tools.Common.Map.{Map}

pub data OperationMode : Type 0 where
  solo pool proxy client : OperationMode

unfoldable pub OperationMode-discrete : Discrete OperationMode
OperationMode-discrete = hlevel

pub mode_beq_iff : (m n : OperationMode) → (same_of OperationMode-discrete m n ≡ true) ↔ (m ≡ n)
mode_beq_iff = same_of_iff OperationMode-discrete

instance abbrev pub mode_eq : Eq OperationMode
mode_eq = record { same_iff = mode_beq_iff; same = same_of OperationMode-discrete }

pub record SocketAddr : Type 0 where
  pub ip : String
  pub port : ℕ

-- The equality of `SocketAddr`.
unfoldable pub same_addr : SocketAddr → SocketAddr → Bool
same_addr a b = a.ip == b.ip && a.port == b.port

same_addr-path : (a b : SocketAddr) → same_addr a b ≡ true → a ≡ b
unfolding same_addr
same_addr-path a b h =
    let (i, p) = both_true (a.ip == b.ip) (a.port == b.port) h in
    ap (λ x. record { ip = x; port = a.port }) ((==_iff a.ip b.ip).0 i)
    ∙ ap (λ x. record { ip = b.ip; port = x }) ((==_iff a.port b.port).0 p)

pub same_addr_iff : (a b : SocketAddr) → (same_addr a b ≡ true) ↔ (a ≡ b)
unfolding same_addr
same_addr_iff a b = (
  same_addr-path a b,
  λ e. subst (λ x. same_addr a x ≡ true) e (ground (arith, ==_refl a.ip, ==_refl a.port)),
)

pub record SoloConfig : Type 0 where
  pub coinbase_address : String
  pub block_template_refresh_interval : ℕ
  pub enable_custom_templates : Bool
  pub max_template_age : ℕ

pub record PoolConfig (fl : Floats) : Type 0 where
  pub share_difficulty : fl.F64
  pub variable_difficulty : Bool
  pub min_difficulty : fl.F64
  pub max_difficulty : fl.F64
  pub difficulty_adjustment_interval : ℕ
  pub payout_threshold : fl.F64
  pub fee_percentage : fl.F64

pub record UpstreamPool : Type 0 where
  pub url : String
  pub username : String
  pub password : String
  pub priority : ℕ
  pub weight : ℕ

pub data LoadBalancingStrategy : Type 0 where
  round_robin weighted_round_robin least_connections random : LoadBalancingStrategy

pub record ProxyConfig : Type 0 where
  pub upstream_pools : List UpstreamPool
  pub failover_enabled : Bool
  pub load_balancing : LoadBalancingStrategy
  pub connection_retry_interval : ℕ
  pub max_retry_attempts : ℕ
  pub bind_port : ℕ
  pub upstream_address : String
  pub upstream_port : ℕ

pub record ClientConfig : Type 0 where
  pub upstream_pool : UpstreamPool
  pub enable_job_negotiation : Bool
  pub custom_template_enabled : Bool
  pub reconnect_interval : ℕ
  pub max_reconnect_attempts : ℕ

pub data OperationModeConfig (fl : Floats) : Type 0 where
  solo_mode : SoloConfig → OperationModeConfig fl
  pool_mode : PoolConfig fl → OperationModeConfig fl
  proxy_mode : ProxyConfig → OperationModeConfig fl
  client_mode : ClientConfig → OperationModeConfig fl

pub record NetworkConfig : Type 0 where
  pub bind_address : SocketAddr
  pub max_connections : ℕ
  pub connection_timeout : ℕ
  pub keepalive_interval : ℕ

pub data BitcoinNetwork : Type 0 where
  mainnet testnet signet regtest : BitcoinNetwork

pub record BitcoinConfig : Type 0 where
  pub rpc_url : String
  pub rpc_user : String
  pub rpc_password : String
  pub network : BitcoinNetwork
  pub coinbase_address : Option String
  pub block_template_timeout : ℕ

pub record DatabaseConfig : Type 0 where
  pub url : String
  pub max_connections : ℕ
  pub connection_timeout : ℕ
  pub enable_migrations : Bool

-- The derived equality of `DatabaseConfig`.
unfoldable pub same_database : DatabaseConfig → DatabaseConfig → Bool
same_database d e =
    (d.url == e.url && d.max_connections == e.max_connections)
    && (d.connection_timeout == e.connection_timeout
        && (if d.enable_migrations then e.enable_migrations else not e.enable_migrations))

pub record AlertThresholds (fl : Floats) : Type 0 where
  pub cpu_usage : fl.F64
  pub memory_usage : fl.F64
  pub connection_count : ℕ
  pub rejection_rate : fl.F64
  pub response_time : ℕ
  pub database_connections : ℕ

pub record HealthConfig (fl : Floats) : Type 0 where
  pub enabled : Bool
  pub check_interval : ℕ
  pub check_timeout : ℕ
  pub alert_thresholds : AlertThresholds fl

pub record MetricsConfig : Type 0 where
  pub enabled : Bool
  pub collection_interval : ℕ
  pub prometheus_port : ℕ
  pub system_monitoring : Bool
  pub labels : Map String String

pub record MonitoringConfig (fl : Floats) : Type 0 where
  pub enable_metrics : Bool
  pub metrics_bind_address : SocketAddr
  pub enable_health_checks : Bool
  pub health_check_interval : ℕ
  pub metrics : MetricsConfig
  pub health : HealthConfig fl

pub data LogFormat : Type 0 where
  json pretty compact : LogFormat

pub data LogOutput : Type 0 where
  stdout : LogOutput
  file both : String → LogOutput

pub record LoggingConfig : Type 0 where
  pub level : String
  pub component_levels : Map String String
  pub format : LogFormat
  pub output : LogOutput
  pub enable_correlation_ids : Bool
  pub redact_sensitive_data : Bool
  pub max_file_size_mb : Option ℕ
  pub max_files : Option ℕ

pub record SecurityConfig : Type 0 where
  pub enable_authentication : Bool
  pub api_key : Option String
  pub rate_limit_per_minute : ℕ
  pub enable_tls : Bool
  pub tls_cert_path : Option String
  pub tls_key_path : Option String
  pub auth : AuthConfig

pub record DaemonConfig (fl : Floats) : Type 0 where
  pub mode : OperationModeConfig fl
  pub network : NetworkConfig
  pub bitcoin : BitcoinConfig
  pub database : DatabaseConfig
  pub monitoring : MonitoringConfig fl
  pub logging : LoggingConfig
  pub security : SecurityConfig

-- `OperationModeConfig::mode_type`.
unfoldable pub mode_type : {fl : Floats} → OperationModeConfig fl → OperationMode
mode_type (solo_mode _) = solo
mode_type (pool_mode _) = pool
mode_type (proxy_mode _) = proxy
mode_type (client_mode _) = client

unfoldable pub get_mode_type : {fl : Floats} → DaemonConfig fl → OperationMode
get_mode_type c = elim c.mode [
  | solo_mode _ ↦ solo
  | pool_mode _ ↦ pool
  | proxy_mode _ ↦ proxy
  | client_mode _ ↦ client
]
