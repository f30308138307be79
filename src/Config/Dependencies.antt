-- ===== src/Config/Dependencies.antt =====
-- `DaemonConfig::validate_dependencies` and `validate` of sv2-core/src/config.rs.
use stratum_v2_tools.Common.{
  List, String, [], if◌then◌else◌, is_none, length, ltb, nat_eq, none, not, some, string_eq, ℕ,
  ◌&&◌, ◌==◌, ◌||◌, ◌∷◌,
}
use stratum_v2_tools.Common.Floats.{Floats}
use stratum_v2_tools.Common.Text.{is_empty, ◌<>◌}
use stratum_v2_tools.Common.Words.{add_u32}
use stratum_v2_tools.Config.Types.{
  DaemonConfig, LogOutput, ProxyConfig, SecurityConfig, UpstreamPool, both, client_mode, file,
  mode_eq, pool_mode, proxy_mode, same_addr, solo_mode, stdout, weighted_round_robin,
}
use stratum_v2_tools.Config.Validate.{
  Paths, validate_bitcoin, validate_database, validate_logging, validate_mode, validate_monitoring,
  validate_network, validate_security,
}
use stratum_v2_tools.Error.{Error, Foreign, Result, err, ok, ◌>>=◌}

-- `iter().map(|p| p.weight).sum()` over `u32`.
unfoldable pub total_weight : List UpstreamPool → ℕ
total_weight [] = 0
total_weight (p ∷ ps) = add_u32 p.weight (total_weight ps)

module _ {F : Foreign} where
  unfoldable pub validate_weights : List UpstreamPool → Result F (Unit {0})
  unfolding total_weight
  validate_weights ps =
      if total_weight ps == 0
      then err (Error.config "Weighted round robin requires non-zero weights")
      else ok tt

  -- The balancing of a proxy with several pools.
  unfoldable pub validate_balancing : ProxyConfig → Result F (Unit {0})
  unfolding validate_weights
  validate_balancing c =
      if ltb 1 (length c.upstream_pools)
      then elim c.load_balancing [
        | weighted_round_robin ↦ validate_weights c.upstream_pools
        | _ ↦ ok tt
      ]
      else ok tt

  unfoldable pub validate_tls_paths : SecurityConfig → Result F (Unit {0})
  validate_tls_paths c =
      if c.enable_tls && (is_none c.tls_cert_path || is_none c.tls_key_path)
      then err (Error.config "TLS requires both certificate and key paths")
      else ok tt

  -- The directory of a log file.
  unfoldable pub validate_log_path : Paths → String → Result F (Unit {0})
  validate_log_path ps path = elim (ps.parent path) [
    | none ↦ ok tt
    | some dir ↦
        if not (ps.exists dir)
        then err (Error.config ("Log directory does not exist: " <> dir))
        else ok tt
  ]

  unfoldable pub validate_output : Paths → LogOutput → Result F (Unit {0})
  unfolding validate_log_path
  validate_output ps stdout = ok tt
  validate_output ps (file path) = validate_log_path ps path
  validate_output ps (both path) = validate_log_path ps path

  module _ {fl : Floats} where
    -- What each mode needs of the other sections.
    unfoldable pub validate_needs : DaemonConfig fl → Result F (Unit {0})
    unfolding validate_balancing
    validate_needs c = elim c.mode [
      | solo_mode _ ↦
          if is_empty c.bitcoin.rpc_url
          then err (Error.config "Solo mode requires Bitcoin RPC configuration")
          else ok tt
      | pool_mode _ ↦
          if is_empty c.database.url
          then err (Error.config "Pool mode requires database configuration")
          else ok tt
      | proxy_mode p ↦ validate_balancing p
      | client_mode _ ↦ ok tt
    ]

    unfoldable pub validate_addresses : DaemonConfig fl → Result F (Unit {0})
    validate_addresses c =
        if c.monitoring.enable_metrics
          && same_addr c.monitoring.metrics_bind_address c.network.bind_address
        then err (Error.config "Metrics bind address cannot be the same as main bind address")
        else ok tt

    unfoldable pub validate_dependencies : Paths → DaemonConfig fl → Result F (Unit {0})
    unfolding validate_needs validate_tls_paths validate_addresses validate_output
    validate_dependencies ps c = do
      _ ← validate_needs c
      _ ← validate_tls_paths c.security
      _ ← validate_addresses c
      validate_output ps c.logging.output

    unfoldable pub validate : Paths → DaemonConfig fl → Result F (Unit {0})
    unfolding validate_network validate_bitcoin validate_database validate_monitoring
        validate_logging validate_security validate_mode validate_dependencies
    validate ps c = do
      _ ← validate_network c.network
      _ ← validate_bitcoin c.bitcoin
      _ ← validate_database c.database
      _ ← validate_monitoring c.monitoring
      _ ← validate_logging c.logging
      _ ← validate_security c.security
      _ ← validate_mode c.mode
      validate_dependencies ps c
