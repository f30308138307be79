-- ===== src/Config/Sections.antt =====
-- What each section of the configuration must satisfy, as propositions: `validate_network` to
-- `validate_mode` of sv2-core/src/config.rs.
use stratum_v2_tools.Common.{
  All, In, List, Option, String, [], arith, false, is_none, length, nat_eq, string_eq, true, ℕ, ◌+◌,
  ◌<◌, ◌↔◌, ◌∷◌, ◌≡◌,
}
use stratum_v2_tools.Common.Floats.{Floats}
use stratum_v2_tools.Common.Text.{is_empty}
use stratum_v2_tools.Config.Types.{
  BitcoinConfig, ClientConfig, DatabaseConfig, LoggingConfig, MonitoringConfig, NetworkConfig,
  OperationModeConfig, PoolConfig, ProxyConfig, SecurityConfig, SoloConfig, UpstreamPool,
  client_mode, mode_eq, pool_mode, proxy_mode, solo_mode,
}
use stratum_v2_tools.Config.Validate.{
  has_address_format, valid_levels, validate_auth, validate_bitcoin, validate_client_config,
  validate_database, validate_logging, validate_mode, validate_money, validate_monitoring,
  validate_network, validate_pool_config, validate_pools, validate_proxy_config,
  validate_reconnects, validate_retries, validate_security, validate_solo_config, validate_tls,
  validate_variable,
}
use stratum_v2_tools.Error.{Foreign, ok}

-- A text that is not empty, a number that is not zero, an option that is there.
abbrev pub NonEmpty : String → Type 0
NonEmpty s = is_empty s ≡ false

abbrev pub IsPositive : ℕ → Type 0
IsPositive n = 0 < n

abbrev pub IsGiven : Option String → Type 0
IsGiven o = is_none o ≡ false

unfoldable pub NetworkValid : NetworkConfig → Type 0
NetworkValid c =
    IsPositive c.max_connections × IsPositive c.connection_timeout × IsPositive c.keepalive_interval

unfoldable pub BitcoinValid : BitcoinConfig → Type 0
BitcoinValid c =
    NonEmpty c.rpc_url
    × NonEmpty c.rpc_user
    × NonEmpty c.rpc_password
    × IsPositive c.block_template_timeout

unfoldable pub DatabaseValid : DatabaseConfig → Type 0
DatabaseValid c = NonEmpty c.url × IsPositive c.max_connections × IsPositive c.connection_timeout

unfoldable pub MonitoringValid : {fl : Floats} → MonitoringConfig fl → Type 0
MonitoringValid c = c.enable_health_checks ≡ true → IsPositive c.health_check_interval

unfoldable pub LoggingValid : LoggingConfig → Type 0
LoggingValid c = In c.level valid_levels

unfoldable pub SecurityValid : SecurityConfig → Type 0
SecurityValid c =
    (c.enable_authentication ≡ true → IsGiven c.api_key)
    × (c.enable_tls ≡ true → IsGiven c.tls_cert_path × IsGiven c.tls_key_path)
    × (c.auth.enabled ≡ true
        → IsPositive c.auth.session_timeout
          × IsPositive c.auth.rate_limit_per_minute
          × IsPositive c.auth.max_sessions_per_key)

unfoldable pub SoloValid : SoloConfig → Type 0
SoloValid c =
    NonEmpty c.coinbase_address
    × (has_address_format c.coinbase_address ≡ true)
    × IsPositive c.block_template_refresh_interval
    × IsPositive c.max_template_age

-- Stated by comparisons that are false, which a value that is not a number satisfies.
unfoldable pub PoolValid : {fl : Floats} → PoolConfig fl → Type 0
PoolValid {fl} c =
    (fl.le c.share_difficulty (fl.of_nat 0) ≡ false)
    × (c.variable_difficulty ≡ true
        → (fl.le c.min_difficulty (fl.of_nat 0) ≡ false)
          × (fl.le c.max_difficulty c.min_difficulty ≡ false)
          × IsPositive c.difficulty_adjustment_interval)
    × (fl.lt c.payout_threshold (fl.of_nat 0) ≡ false)
    × (fl.lt c.fee_percentage (fl.of_nat 0) ≡ false)
    × (fl.lt (fl.of_nat 100) c.fee_percentage ≡ false)

unfoldable pub UpstreamNamed : UpstreamPool → Type 0
UpstreamNamed p = NonEmpty p.url × NonEmpty p.username

unfoldable pub ProxyValid : ProxyConfig → Type 0
unfolding UpstreamNamed
ProxyValid c =
    IsPositive (length c.upstream_pools)
    × All UpstreamNamed c.upstream_pools
    × IsPositive c.connection_retry_interval
    × IsPositive c.max_retry_attempts

unfoldable pub ClientValid : ClientConfig → Type 0
unfolding UpstreamNamed
ClientValid c =
    UpstreamNamed c.upstream_pool
    × IsPositive c.reconnect_interval
    × IsPositive c.max_reconnect_attempts

unfoldable pub ModeValid : {fl : Floats} → OperationModeConfig fl → Type 0
unfolding SoloValid PoolValid ProxyValid ClientValid
ModeValid (solo_mode c) = SoloValid c
ModeValid (pool_mode c) = PoolValid c
ModeValid (proxy_mode c) = ProxyValid c
ModeValid (client_mode c) = ClientValid c

module _ (F : Foreign) where
  pub validate_network_iff :
      (c : NetworkConfig) → (validate_network {F = F} c ≡ ok tt) ↔ NetworkValid c
  unfolding validate_network NetworkValid
  validate_network_iff c = ground arith

  pub validate_bitcoin_iff :
      (c : BitcoinConfig) → (validate_bitcoin {F = F} c ≡ ok tt) ↔ BitcoinValid c
  unfolding validate_bitcoin BitcoinValid
  validate_bitcoin_iff c = ground arith

  pub validate_database_iff :
      (c : DatabaseConfig) → (validate_database {F = F} c ≡ ok tt) ↔ DatabaseValid c
  unfolding validate_database DatabaseValid
  validate_database_iff c = ground arith

  pub validate_monitoring_iff :
      {fl : Floats} (c : MonitoringConfig fl)
      → (validate_monitoring {F = F} c ≡ ok tt) ↔ MonitoringValid c
  unfolding validate_monitoring MonitoringValid
  validate_monitoring_iff c = ground arith

  pub validate_logging_iff :
      (c : LoggingConfig) → (validate_logging {F = F} c ≡ ok tt) ↔ LoggingValid c
  unfolding validate_logging LoggingValid
  validate_logging_iff c = ground arith

  pub validate_security_iff :
      (c : SecurityConfig) → (validate_security {F = F} c ≡ ok tt) ↔ SecurityValid c
  unfolding validate_security validate_tls validate_auth SecurityValid
  validate_security_iff c = ground arith

  validate_solo_iff : (c : SoloConfig) → (validate_solo_config {F = F} c ≡ ok tt) ↔ SoloValid c
  unfolding validate_solo_config SoloValid
  validate_solo_iff c = ground arith

  validate_pool_iff :
      {fl : Floats} (c : PoolConfig fl) → (validate_pool_config {F = F} c ≡ ok tt) ↔ PoolValid c
  unfolding validate_pool_config validate_variable validate_money PoolValid
  validate_pool_iff c = ground arith

  pub validate_pools_iff :
      (i : ℕ) (ps : List UpstreamPool)
      → (validate_pools {F = F} i ps ≡ ok tt) ↔ All UpstreamNamed ps
  unfolding validate_pools UpstreamNamed
  validate_pools_iff i [] = ground arith
  validate_pools_iff i (p ∷ ps) = ground (arith, validate_pools_iff (i + 1) ps)

  validate_proxy_iff : (c : ProxyConfig) → (validate_proxy_config {F = F} c ≡ ok tt) ↔ ProxyValid c
  unfolding validate_proxy_config validate_retries ProxyValid
  validate_proxy_iff c = ground (arith, validate_pools_iff 0 c.upstream_pools)

  validate_client_iff :
      (c : ClientConfig) → (validate_client_config {F = F} c ≡ ok tt) ↔ ClientValid c
  unfolding validate_client_config validate_reconnects ClientValid UpstreamNamed
  validate_client_iff c = ground arith

  pub validate_mode_iff :
      {fl : Floats} (m : OperationModeConfig fl) → (validate_mode {F = F} m ≡ ok tt) ↔ ModeValid m
  unfolding validate_mode ModeValid
  validate_mode_iff (solo_mode c) = validate_solo_iff c
  validate_mode_iff (pool_mode c) = validate_pool_iff c
  validate_mode_iff (proxy_mode c) = validate_proxy_iff c
  validate_mode_iff (client_mode c) = validate_client_iff c
