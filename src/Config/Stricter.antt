-- ===== src/Config/Stricter.antt =====
-- The two sets of checks on the settings of a mode in sv2-core/src/config.rs: those of the settings
-- themselves and those of `DaemonConfig::validate`.
use stratum_v2_tools.Common.{
  All, List, String, [], arith, nat_eq, refl, string_eq, true, ℕ, ◌+◌, ◌↔◌, ◌∷◌, ◌≡◌, ◌⊎◌,
}
use stratum_v2_tools.Common.Floats.{Floats}
use stratum_v2_tools.Common.Text.{is_empty, starts_with}
use stratum_v2_tools.Config.Modes.{
  host_port, validate_client_own, validate_own, validate_pool_own, validate_proxy_own,
  validate_solo_own, validate_upstream, validate_upstreams,
}
use stratum_v2_tools.Config.Sections.{NonEmpty, UpstreamNamed, validate_pools_iff}
use stratum_v2_tools.Config.Types.{
  ClientConfig, OperationModeConfig, ProxyConfig, UpstreamPool, client_mode, mode_eq, pool_mode,
  proxy_mode, solo_mode,
}
use stratum_v2_tools.Config.Validate.{
  validate_client_config, validate_mode, validate_pool_config, validate_proxy_config,
  validate_solo_config,
}
use stratum_v2_tools.Error.{Error, Foreign, Result-cases, ok}

module _ (F : Foreign) where
  scheme-NonEmpty :
      (s : String)
      → starts_with s "stratum+tcp://" ≡ true ⊎ starts_with s "stratum+ssl://" ≡ true
      → NonEmpty s
  unfolding starts_with is_empty
  scheme-NonEmpty String.[] h = ground arith
  scheme-NonEmpty (String.◌∷◌ c s) h = refl

  host_port-scheme :
      (p : UpstreamPool) (r : String × ℕ)
      → host_port {F = F} p ≡ ok r
      → starts_with p.url "stratum+tcp://" ≡ true ⊎ starts_with p.url "stratum+ssl://" ≡ true
  unfolding host_port
  host_port-scheme p r h = ground arith

  -- What `UpstreamPool::validate` accepts: a name, and an address of a scheme, a host and a port.
  pub validate_upstream_iff :
      (p : UpstreamPool)
      → (validate_upstream {F = F} p ≡ ok tt) ↔ (
          NonEmpty p.username
          × ((host : String) × (port : ℕ) × (host_port {F = F} p ≡ ok (host, port))))
  unfolding validate_upstream
  validate_upstream_iff p = (
    λ h. ground (arith, h, Result-cases (host_port {F = F} p)),
    λ (n, (host, port, h)).
        ground (arith, scheme-NonEmpty p.url, host_port-scheme p (host, port) h),
  )

  upstream-named : (p : UpstreamPool) → validate_upstream {F = F} p ≡ ok tt → UpstreamNamed p
  unfolding validate_upstream UpstreamNamed
  upstream-named p h = ground arith

  validate_upstreams-named :
      (display : Error F → String) (i : ℕ) (ps : List UpstreamPool)
      → validate_upstreams display i ps ≡ ok tt
      → All UpstreamNamed ps
  unfolding validate_upstreams
  validate_upstreams-named display i [] h = tt
  validate_upstreams-named display i (p ∷ ps) h =
      ground (arith, upstream-named p, validate_upstreams-named display (i + 1) ps)

  own_proxy :
      (display : Error F → String) (c : ProxyConfig)
      → validate_proxy_own display c ≡ ok tt
      → validate_proxy_config {F = F} c ≡ ok tt
  unfolding validate_proxy_own validate_proxy_config
  own_proxy display c h = ground (
    arith,
    validate_upstreams-named display 0 c.upstream_pools,
    validate_pools_iff F 0 c.upstream_pools,
  )

  own_client :
      (c : ClientConfig)
      → validate_client_own {F = F} c ≡ ok tt
      → validate_client_config {F = F} c ≡ ok tt
  unfolding validate_client_own validate_client_config UpstreamNamed
  own_client c h = ground (arith, upstream-named c.upstream_pool)

  -- Settings of a mode that pass their own checks pass those of the daemon.
  pub validate_own-validate_mode :
      {fl : Floats} (display : Error F → String) (m : OperationModeConfig fl)
      → validate_own display m ≡ ok tt
      → validate_mode {F = F} m ≡ ok tt
  unfolding validate_own validate_mode validate_solo_own validate_pool_own validate_solo_config
      validate_pool_config
  validate_own-validate_mode display (solo_mode c) h = h
  validate_own-validate_mode display (pool_mode c) h = h
  validate_own-validate_mode display (proxy_mode c) h = own_proxy display c h
  validate_own-validate_mode display (client_mode c) h = own_client c h
