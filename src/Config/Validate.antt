-- ===== src/Config/Validate.antt =====
-- `DaemonConfig::validate` of sv2-core/src/config.rs, section by section. What the file system says
-- of a path is a parameter.
use stratum_v2_tools.Auth.Types.{AuthConfig, permission_eq}
use stratum_v2_tools.Common.{
  Bool, List, Option, String, [], contains, if◌then◌else◌, is_none, length, nat_eq, not, string_eq,
  ℕ, ◌&&◌, ◌+◌, ◌==◌, ◌||◌, ◌∷◌,
}
use stratum_v2_tools.Common.Floats.{Floats}
use stratum_v2_tools.Common.Text.{is_empty, show, starts_with, ◌<>◌}
use stratum_v2_tools.Config.Types.{
  BitcoinConfig, ClientConfig, DatabaseConfig, LoggingConfig, MonitoringConfig, NetworkConfig,
  OperationModeConfig, PoolConfig, ProxyConfig, SecurityConfig, SoloConfig, UpstreamPool,
  client_mode, mode_eq, pool_mode, proxy_mode, solo_mode,
}
use stratum_v2_tools.Error.{Error, Foreign, Result, err, ok, ◌>>=◌}

-- `Path::parent` and `Path::exists`.
pub record Paths : Type 0 where
  pub parent : String → Option String
  pub exists : String → Bool

abbrev pub valid_levels : List String
valid_levels = "trace" ∷ "debug" ∷ "info" ∷ "warn" ∷ "error" ∷ []

-- The prefixes of `Basic Bitcoin address validation`.
unfoldable pub has_address_format : String → Bool
has_address_format a =
    (starts_with a "1" || starts_with a "3") || (starts_with a "bc1" || starts_with a "tb1")

module _ {F : Foreign} where
  unfoldable pub validate_network : NetworkConfig → Result F (Unit {0})
  validate_network c =
      if c.max_connections == 0
      then err (Error.config "max_connections must be greater than 0")
      else if c.connection_timeout == 0
      then err (Error.config "connection_timeout must be greater than 0")
      else if c.keepalive_interval == 0
      then err (Error.config "keepalive_interval must be greater than 0")
      else ok tt

  unfoldable pub validate_bitcoin : BitcoinConfig → Result F (Unit {0})
  validate_bitcoin c =
      if is_empty c.rpc_url
      then err (Error.config "Bitcoin RPC URL cannot be empty")
      else if is_empty c.rpc_user
      then err (Error.config "Bitcoin RPC user cannot be empty")
      else if is_empty c.rpc_password
      then err (Error.config "Bitcoin RPC password cannot be empty")
      else if c.block_template_timeout == 0
      then err (Error.config "block_template_timeout must be greater than 0")
      else ok tt

  unfoldable pub validate_database : DatabaseConfig → Result F (Unit {0})
  validate_database c =
      if is_empty c.url
      then err (Error.config "Database URL cannot be empty")
      else if c.max_connections == 0
      then err (Error.config "Database max_connections must be greater than 0")
      else if c.connection_timeout == 0
      then err (Error.config "Database connection_timeout must be greater than 0")
      else ok tt

  unfoldable pub validate_monitoring : {fl : Floats} → MonitoringConfig fl → Result F (Unit {0})
  validate_monitoring c =
      if c.enable_health_checks && c.health_check_interval == 0
      then err (
          Error.config
            "health_check_interval must be greater than 0 when health checks are enabled")
      else ok tt

  unfoldable pub validate_logging : LoggingConfig → Result F (Unit {0})
  validate_logging c =
      if not (contains valid_levels c.level)
      then err (
          Error.config (
            "Invalid log level: " <> c.level
            <> ". Must be one of: [\"trace\", \"debug\", \"info\", \"warn\", \"error\"]"))
      else ok tt

  -- The paths of the certificate and of its key.
  unfoldable pub validate_tls : SecurityConfig → Result F (Unit {0})
  validate_tls c =
      if is_none c.tls_cert_path
      then err (Error.config "TLS certificate path is required when TLS is enabled")
      else if is_none c.tls_key_path
      then err (Error.config "TLS key path is required when TLS is enabled")
      else ok tt

  -- The settings of authentication.
  unfoldable pub validate_auth : AuthConfig → Result F (Unit {0})
  validate_auth c =
      if c.session_timeout == 0
      then err (Error.config "Session timeout must be greater than 0")
      else if c.rate_limit_per_minute == 0
      then err (Error.config "Rate limit per minute must be greater than 0")
      else if c.max_sessions_per_key == 0
      then err (Error.config "Max sessions per key must be greater than 0")
      else ok tt

  unfoldable pub validate_security : SecurityConfig → Result F (Unit {0})
  unfolding validate_tls validate_auth
  validate_security c =
      if c.enable_authentication && is_none c.api_key
      then err (Error.config "API key is required when authentication is enabled")
      else do
        _ ← if c.enable_tls then validate_tls c else ok tt
        if c.auth.enabled then validate_auth c.auth else ok tt

  unfoldable pub validate_solo_config : SoloConfig → Result F (Unit {0})
  unfolding has_address_format
  validate_solo_config c =
      if is_empty c.coinbase_address
      then err (Error.config "Solo mode requires a coinbase address")
      else if not (has_address_format c.coinbase_address)
      then err (Error.config "Invalid coinbase address format")
      else if c.block_template_refresh_interval == 0
      then err (Error.config "block_template_refresh_interval must be greater than 0")
      else if c.max_template_age == 0
      then err (Error.config "max_template_age must be greater than 0")
      else ok tt

  module _ {fl : Floats} where
    -- The bounds of a difficulty that varies.
    unfoldable pub validate_variable : PoolConfig fl → Result F (Unit {0})
    validate_variable c =
        if fl.le c.min_difficulty (fl.of_nat 0)
        then err (Error.config "min_difficulty must be greater than 0")
        else if fl.le c.max_difficulty c.min_difficulty
        then err (Error.config "max_difficulty must be greater than min_difficulty")
        else if c.difficulty_adjustment_interval == 0
        then err (Error.config "difficulty_adjustment_interval must be greater than 0")
        else ok tt

    -- The bounds of the payout and of the fee.
    unfoldable pub validate_money : PoolConfig fl → Result F (Unit {0})
    validate_money c =
        if fl.lt c.payout_threshold (fl.of_nat 0)
        then err (Error.config "payout_threshold cannot be negative")
        else if fl.lt c.fee_percentage (fl.of_nat 0) || fl.lt (fl.of_nat 100) c.fee_percentage
        then err (Error.config "fee_percentage must be between 0 and 100")
        else ok tt

    unfoldable pub validate_pool_config : PoolConfig fl → Result F (Unit {0})
    unfolding validate_variable validate_money
    validate_pool_config c =
        if fl.le c.share_difficulty (fl.of_nat 0)
        then err (Error.config "share_difficulty must be greater than 0")
        else do _ ← if c.variable_difficulty then validate_variable c else ok tt; validate_money c

  -- The loop over the pools, from the index `i` on.
  unfoldable pub validate_pools : ℕ → List UpstreamPool → Result F (Unit {0})
  validate_pools i [] = ok tt
  validate_pools i (p ∷ ps) =
      let rest = validate_pools (i + 1) ps in
      if is_empty p.url
      then err (Error.config ("Upstream pool " <> show i <> " URL cannot be empty"))
      else if is_empty p.username
      then err (Error.config ("Upstream pool " <> show i <> " username cannot be empty"))
      else rest

  -- The checks of a proxy behind its pools.
  unfoldable pub validate_retries : ProxyConfig → Result F (Unit {0})
  validate_retries c =
      if c.connection_retry_interval == 0
      then err (Error.config "connection_retry_interval must be greater than 0")
      else if c.max_retry_attempts == 0
      then err (Error.config "max_retry_attempts must be greater than 0")
      else ok tt

  unfoldable pub validate_proxy_config : ProxyConfig → Result F (Unit {0})
  unfolding validate_pools validate_retries
  validate_proxy_config c =
      if length c.upstream_pools == 0
      then err (Error.config "Proxy mode requires at least one upstream pool")
      else do _ ← validate_pools 0 c.upstream_pools; validate_retries c

  unfoldable pub validate_reconnects : ClientConfig → Result F (Unit {0})
  validate_reconnects c =
      if c.reconnect_interval == 0
      then err (Error.config "reconnect_interval must be greater than 0")
      else if c.max_reconnect_attempts == 0
      then err (Error.config "max_reconnect_attempts must be greater than 0")
      else ok tt

  unfoldable pub validate_client_config : ClientConfig → Result F (Unit {0})
  unfolding validate_reconnects
  validate_client_config c =
      if is_empty c.upstream_pool.url
      then err (Error.config "Client mode requires upstream pool URL")
      else if is_empty c.upstream_pool.username
      then err (Error.config "Client mode requires upstream pool username")
      else validate_reconnects c

  unfoldable pub validate_mode : {fl : Floats} → OperationModeConfig fl → Result F (Unit {0})
  unfolding validate_solo_config validate_pool_config validate_proxy_config validate_client_config
  validate_mode (solo_mode c) = validate_solo_config c
  validate_mode (pool_mode c) = validate_pool_config c
  validate_mode (proxy_mode c) = validate_proxy_config c
  validate_mode (client_mode c) = validate_client_config c
