-- ===== src/Config/Modes.antt =====
-- The checks that the settings of a mode make of themselves, and the choice of an upstream pool:
-- `UpstreamPool`, `SoloConfig`, `PoolConfig`, `ProxyConfig` and `ClientConfig` of
-- sv2-core/src/config.rs.
use stratum_v2_tools.Common.{
  Bool, List, Option, String, [], if◌then◌else◌, inl, inr, leb, length, ltb, nat_eq, none, not,
  some, string_eq, ℕ, ◌&&◌, ◌+◌, ◌==◌, ◌∷◌,
}
use stratum_v2_tools.Common.Floats.{Floats}
use stratum_v2_tools.Common.Text.{is_empty, parse_unsigned, show, skip, split, starts_with, ◌<>◌}
use stratum_v2_tools.Config.Dependencies.{validate_weights}
use stratum_v2_tools.Config.Types.{
  ClientConfig, OperationModeConfig, PoolConfig, ProxyConfig, SoloConfig, UpstreamPool, client_mode,
  mode_eq, pool_mode, proxy_mode, solo_mode, weighted_round_robin,
}
use stratum_v2_tools.Config.Validate.{
  has_address_format, validate_money, validate_reconnects, validate_retries, validate_variable,
}
use stratum_v2_tools.Error.{Error, Foreign, Result, err, ok, ◌>>=◌}

unfoldable pub uses_ssl : UpstreamPool → Bool
uses_ssl p = starts_with p.url "stratum+ssl://"

-- `pools_by_priority` is a stable sort: a pool goes behind those of its own priority.
unfoldable pub place : UpstreamPool → List UpstreamPool → List UpstreamPool
place p [] = p ∷ []
place p (q ∷ qs) = if leb p.priority q.priority then p ∷ q ∷ qs else q ∷ place p qs

unfoldable pub sort_pools : List UpstreamPool → List UpstreamPool
unfolding place
sort_pools [] = []
sort_pools (p ∷ ps) = place p (sort_pools ps)

unfoldable pub pools_by_priority : ProxyConfig → List UpstreamPool
unfolding sort_pools
pools_by_priority c = sort_pools c.upstream_pools

-- `min_by_key`: the first of the least.
unfoldable pub least : UpstreamPool → List UpstreamPool → UpstreamPool
least p [] = p
least p (q ∷ qs) =
    let onward = least q qs in
    let stay = least p qs in if ltb q.priority p.priority then onward else stay

unfoldable pub primary_pool : ProxyConfig → Option UpstreamPool
unfolding least
primary_pool c = elim c.upstream_pools [ [] ↦ none | p ∷ ps ↦ some (least p ps) ]

module _ {F : Foreign} where
  -- The port of a pool's address.
  unfoldable pub port_of : String → String → Result F (String × ℕ)
  port_of host port = elim (parse_unsigned 65536 port) [
    | inl _ ↦ err (Error.config "Invalid port number in upstream pool URL")
    | inr n ↦ ok (host, n)
  ]

  -- The parts of a pool's address behind its scheme.
  unfoldable pub address_parts : List String → Result F (String × ℕ)
  unfolding port_of
  address_parts (host ∷ port ∷ []) = port_of host port
  address_parts _ = err (Error.config "Invalid upstream pool URL format, expected host:port")

  unfoldable pub host_port : UpstreamPool → Result F (String × ℕ)
  unfolding address_parts
  host_port p =
      if starts_with p.url "stratum+tcp://"
      then address_parts (split b':' (skip 14 p.url))
      else if starts_with p.url "stratum+ssl://"
      then address_parts (split b':' (skip 14 p.url))
      else err (Error.config "Invalid upstream pool URL scheme")

  unfoldable pub validate_upstream : UpstreamPool → Result F (Unit {0})
  unfolding host_port
  validate_upstream p =
      if is_empty p.url
      then err (Error.config "Upstream pool URL cannot be empty")
      else if is_empty p.username
      then err (Error.config "Upstream pool username cannot be empty")
      else if not (starts_with p.url "stratum+tcp://") && not (starts_with p.url "stratum+ssl://")
      then err (Error.config "Upstream pool URL must use stratum+tcp:// or stratum+ssl:// scheme")
      else do _ ← host_port p; ok tt

  unfoldable pub validate_solo_own : SoloConfig → Result F (Unit {0})
  validate_solo_own c =
      if is_empty c.coinbase_address
      then err (Error.config "Solo mode requires a coinbase address")
      else if not (has_address_format c.coinbase_address)
      then err (Error.config "Invalid coinbase address format")
      else if c.block_template_refresh_interval == 0
      then err (Error.config "block_template_refresh_interval must be greater than 0")
      else if c.max_template_age == 0
      then err (Error.config "max_template_age must be greater than 0")
      else ok tt

  unfoldable pub validate_pool_own : {fl : Floats} → PoolConfig fl → Result F (Unit {0})
  unfolding validate_variable validate_money
  validate_pool_own {fl} c =
      if fl.le c.share_difficulty (fl.of_nat 0)
      then err (Error.config "share_difficulty must be greater than 0")
      else do _ ← if c.variable_difficulty then validate_variable c else ok tt; validate_money c

  unfoldable pub validate_client_own : ClientConfig → Result F (Unit {0})
  unfolding validate_upstream validate_reconnects
  validate_client_own c = do _ ← validate_upstream c.upstream_pool; validate_reconnects c

  -- The loop over the pools, from the index `i` on; `display` prints an error.
  unfoldable pub validate_upstreams :
      (Error F → String) → ℕ → List UpstreamPool → Result F (Unit {0})
  unfolding validate_upstream
  validate_upstreams display i [] = ok tt
  validate_upstreams display i (p ∷ ps) =
      let rest = validate_upstreams display (i + 1) ps in
      elim (validate_upstream p) [
        | err e ↦ err (Error.config ("Upstream pool " <> show i <> ": " <> display e))
        | ok _ ↦ rest
      ]

  unfoldable pub validate_strategy : ProxyConfig → Result F (Unit {0})
  unfolding validate_weights
  validate_strategy c = elim c.load_balancing [
    | weighted_round_robin ↦ validate_weights c.upstream_pools
    | _ ↦ ok tt
  ]

  unfoldable pub validate_proxy_own : (Error F → String) → ProxyConfig → Result F (Unit {0})
  unfolding validate_upstreams validate_strategy
  validate_proxy_own display c =
      if length c.upstream_pools == 0
      then err (Error.config "Proxy mode requires at least one upstream pool")
      else do
        _ ← validate_upstreams display 0 c.upstream_pools
        _ ← validate_retries c
        validate_strategy c

  -- What the settings of a mode make of themselves.
  unfoldable pub validate_own :
      {fl : Floats} → (Error F → String) → OperationModeConfig fl → Result F (Unit {0})
  unfolding validate_solo_own validate_pool_own validate_proxy_own validate_client_own
  validate_own display (solo_mode c) = validate_solo_own c
  validate_own display (pool_mode c) = validate_pool_own c
  validate_own display (proxy_mode c) = validate_proxy_own display c
  validate_own display (client_mode c) = validate_client_own c
