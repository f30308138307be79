-- ===== src/Config/Valid.antt =====
-- What `DaemonConfig::validate` of sv2-core/src/config.rs accepts as a whole.
use stratum_v2_tools.Common.{
  Option-cases, String, arith, inl, inr, length, nat_eq, refl, some, string_eq, true, ◌<◌, ◌↔◌, ◌≡◌,
  ◌≢◌,
}
use stratum_v2_tools.Common.Floats.{Floats}
use stratum_v2_tools.Config.Dependencies.{
  total_weight, validate, validate_addresses, validate_balancing, validate_dependencies,
  validate_log_path, validate_needs, validate_output, validate_tls_paths, validate_weights,
}
use stratum_v2_tools.Config.Sections.{
  BitcoinValid, DatabaseValid, IsPositive, LoggingValid, ModeValid, MonitoringValid, NetworkValid,
  SecurityValid, validate_bitcoin_iff, validate_database_iff, validate_logging_iff,
  validate_mode_iff, validate_monitoring_iff, validate_network_iff, validate_security_iff,
}
use stratum_v2_tools.Config.Types.{
  DaemonConfig, LogOutput, OperationModeConfig, ProxyConfig, SecurityConfig, both, client_mode,
  file, mode_eq, pool_mode, proxy_mode, same_addr_iff, solo_mode, stdout, weighted_round_robin,
}
use stratum_v2_tools.Config.Validate.{
  Paths, validate_bitcoin, validate_database, validate_logging, validate_mode, validate_monitoring,
  validate_network, validate_security,
}
use stratum_v2_tools.Error.{Foreign, Result, err, ok, ◌>>=◌}

unfoldable pub BalancingValid : {fl : Floats} → OperationModeConfig fl → Type 0
BalancingValid (proxy_mode p) =
    1 < length p.upstream_pools
    → p.load_balancing ≡ weighted_round_robin
    → IsPositive (total_weight p.upstream_pools)
BalancingValid _ = Unit

unfoldable pub AddressesValid : {fl : Floats} → DaemonConfig fl → Type 0
AddressesValid c =
    c.monitoring.enable_metrics ≡ true → c.monitoring.metrics_bind_address ≢ c.network.bind_address

unfoldable pub HasDirectory : Paths → String → Type 0
HasDirectory ps path = (dir : String) → ps.parent path ≡ some dir → ps.exists dir ≡ true

unfoldable pub OutputValid : Paths → LogOutput → Type 0
unfolding HasDirectory
OutputValid ps stdout = Unit
OutputValid ps (file path) = HasDirectory ps path
OutputValid ps (both path) = HasDirectory ps path

-- Each section for itself, then the sections among each other.
unfoldable pub Valid : {fl : Floats} → Paths → DaemonConfig fl → Type 0
Valid ps c =
    NetworkValid c.network
    × BitcoinValid c.bitcoin
    × DatabaseValid c.database
    × MonitoringValid c.monitoring
    × LoggingValid c.logging
    × SecurityValid c.security
    × ModeValid c.mode
    × BalancingValid c.mode
    × AddressesValid c
    × OutputValid ps c.logging.output

-- One check after another.
then_iff :
    {F : Foreign} {P Q : Type 0} (r s : Result F (Unit {0}))
    → (r ≡ ok tt) ↔ P
    → (P → (s ≡ ok tt) ↔ Q)
    → ((r >>= λ _. s) ≡ ok tt) ↔ (P × Q)
then_iff (ok tt) s h k = ((λ e. (h.0 refl, (k (h.0 refl)).0 e)), λ t. (k t.0).1 t.1)
then_iff (err e) s h k = ((λ p. ground (arith, p)), λ t. h.1 t.0)

module _ (F : Foreign) where
  directory-ok :
      (ps : Paths) (path : String)
      → HasDirectory ps path
      → validate_log_path {F = F} ps path ≡ ok tt
  unfolding validate_log_path HasDirectory
  directory-ok ps path h = elim (Option-cases (ps.parent path)) [
    | inl e ↦ ground (arith, e)
    | inr (dir, e) ↦ ground (arith, e, h dir e)
  ]

  path_iff :
      (ps : Paths) (path : String)
      → (validate_log_path {F = F} ps path ≡ ok tt) ↔ HasDirectory ps path
  unfolding validate_log_path HasDirectory
  path_iff ps path = (λ h dir e. ground (arith, h, e), directory-ok ps path)

  output_iff :
      (ps : Paths) (o : LogOutput) → (validate_output {F = F} ps o ≡ ok tt) ↔ OutputValid ps o
  unfolding validate_output OutputValid
  output_iff ps stdout = ground arith
  output_iff ps (file path) = path_iff ps path
  output_iff ps (both path) = path_iff ps path

  addresses_iff :
      {fl : Floats} (c : DaemonConfig fl)
      → (validate_addresses {F = F} c ≡ ok tt) ↔ AddressesValid c
  unfolding validate_addresses AddressesValid
  addresses_iff c =
      ground (arith, same_addr_iff c.monitoring.metrics_bind_address c.network.bind_address)

  tls_paths-follow : (c : SecurityConfig) → SecurityValid c → validate_tls_paths {F = F} c ≡ ok tt
  unfolding SecurityValid validate_tls_paths
  tls_paths-follow c h = ground arith

  balancing_iff :
      (fl : Floats) (p : ProxyConfig)
      → (validate_balancing {F = F} p ≡ ok tt) ↔ BalancingValid {fl = fl} (proxy_mode p)
  unfolding validate_balancing validate_weights BalancingValid
  balancing_iff fl p = ground arith

  -- Behind the sections, what a mode needs is the weights of its pools.
  needs_of :
      (fl : Floats) (c : DaemonConfig fl) (m : OperationModeConfig fl)
      → BitcoinValid c.bitcoin
      → DatabaseValid c.database
      → (validate_needs {F = F} (record c { mode = m }) ≡ ok tt) ↔ BalancingValid m
  unfolding validate_needs BitcoinValid DatabaseValid BalancingValid
  needs_of fl c (solo_mode d) b e = ground arith
  needs_of fl c (pool_mode d) b e = ground arith
  needs_of fl c (proxy_mode d) b e = balancing_iff fl d
  needs_of fl c (client_mode d) b e = ground arith

  dependencies_iff :
      {fl : Floats} (ps : Paths) (c : DaemonConfig fl)
      → BitcoinValid c.bitcoin
      → DatabaseValid c.database
      → SecurityValid c.security
      → (validate_dependencies {F = F} ps c ≡ ok tt)
        ↔ (BalancingValid c.mode × (AddressesValid c × OutputValid ps c.logging.output))
  unfolding validate_dependencies
  dependencies_iff ps c b d s = then_iff (validate_needs c) _ (needs_of _ c c.mode b d) λ _.
      rw (tls_paths-follow c.security s)
        (then_iff (validate_addresses c) _ (addresses_iff c) λ _. output_iff ps c.logging.output)

  chain_iff :
      {fl : Floats} (ps : Paths) (c : DaemonConfig fl)
      → (validate {F = F} ps c ≡ ok tt) ↔ (
          NetworkValid c.network
          × (BitcoinValid c.bitcoin
              × (DatabaseValid c.database
                  × (MonitoringValid c.monitoring
                      × (LoggingValid c.logging
                          × (SecurityValid c.security
                              × (ModeValid c.mode
                                  × (BalancingValid c.mode
                                      × (AddressesValid c × OutputValid ps c.logging.output)))))))))
  unfolding validate
  chain_iff ps c = then_iff (validate_network c.network) _ (validate_network_iff F c.network) λ _.
      then_iff (validate_bitcoin c.bitcoin) _ (validate_bitcoin_iff F c.bitcoin) λ b.
        then_iff (validate_database c.database) _ (validate_database_iff F c.database) λ d.
          then_iff (validate_monitoring c.monitoring) _ (validate_monitoring_iff F c.monitoring)
            λ _. then_iff (validate_logging c.logging) _ (validate_logging_iff F c.logging) λ _.
              then_iff (validate_security c.security) _ (validate_security_iff F c.security) λ s.
                then_iff (validate_mode c.mode) _ (validate_mode_iff F c.mode)
                  λ _. dependencies_iff ps c b d s

  -- The whole configuration is accepted exactly if each section is valid for itself, a proxy that
  -- balances several pools by weight has a sum of weights that is not zero, the metrics have an
  -- address of their own, and the directory of the log exists. The checks of the node's address, of
  -- the database's and of the certificates among the dependencies refuse nothing further.
  pub validate_iff :
      {fl : Floats} (ps : Paths) (c : DaemonConfig fl)
      → (validate {F = F} ps c ≡ ok tt) ↔ Valid ps c
  unfolding Valid
  validate_iff ps c = (
    λ e.
        let (n, (b, (d, (m, (l, (s, (k, (w, (a, o))))))))) = (chain_iff ps c).0 e in
        (n, b, d, m, l, s, k, w, a, o),
    λ (n, b, d, m, l, s, k, w, a, o).
        (chain_iff ps c).1 (n, (b, (d, (m, (l, (s, (k, (w, (a, o))))))))),
  )
