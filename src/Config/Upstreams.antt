-- ===== src/Config/Upstreams.antt =====
-- The address of an upstream pool: `UpstreamPool::host_port` of sv2-core/src/config.rs.
use stratum_v2_tools.Common.{
  Bool, String, [], ap, arith, false, nat_eq, refl, string_eq, subst, sym, true, ℕ, ◌<◌, ◌∙◌, ◌∷◌,
  ◌≡◌,
}
use stratum_v2_tools.Common.Text.{lacks, show, skip, split, starts_with, ◌<>◌}
use stratum_v2_tools.Common.Text.Numbers.{parse_unsigned-show, show_onto-lacks}
use stratum_v2_tools.Common.Text.Parts.{split-append, split-lacks}
use stratum_v2_tools.Config.Modes.{address_parts, host_port, port_of, uses_ssl}
use stratum_v2_tools.Config.Types.{UpstreamPool, mode_eq}
use stratum_v2_tools.Error.{Foreign, ok}

-- The two schemes, by whether they use TLS.
abbrev pub scheme : Bool → String
scheme true = "stratum+ssl://"
scheme false = "stratum+tcp://"

-- The address of a pool as its operator writes it.
abbrev pub pool_url : Bool → String → ℕ → String
pool_url ssl host port = scheme ssl <> host <> ":" <> show port

pub digits_lack : (n : ℕ) → lacks b':' (show n) ≡ true
unfolding show lacks
digits_lack n = show_onto-lacks b':' 20 n "" (omega arith) refl

parts_of :
    (host : String) (port : ℕ)
    → lacks b':' host ≡ true
    → split b':' (host <> ":" <> show port) ≡ host ∷ show port ∷ []
unfolding ◌<>◌
parts_of host port h =
    split-append ":" host (show port) h
    ∙ ap (λ t. host ∷ t) (split-lacks b':' (show port) (digits_lack port))

module _ (F : Foreign) where
  port_of-show :
      (host : String) (port : ℕ) → port < 65536 → port_of {F = F} host (show port) ≡ ok (host, port)
  unfolding port_of
  port_of-show host port h = ground (arith, parse_unsigned-show 65536 port h (omega arith))

  address_of :
      (host : String) (port : ℕ)
      → lacks b':' host ≡ true
      → port < 65536
      → address_parts {F = F} (split b':' (host <> ":" <> show port)) ≡ ok (host, port)
  unfolding address_parts
  address_of host port h k = ap address_parts (parts_of host port h) ∙ port_of-show host port k

  -- An address made of a scheme, a host without a colon and a port of sixteen bits is taken apart
  -- into that host and that port, and the scheme tells whether the pool uses TLS.
  pub host_port-pool_url :
      (p : UpstreamPool) (ssl : Bool) (host : String) (port : ℕ)
      → p.url ≡ pool_url ssl host port
      → lacks b':' host ≡ true
      → port < 65536
      → (host_port {F = F} p ≡ ok (host, port)) × (uses_ssl p ≡ ssl)
  unfolding host_port uses_ssl starts_with skip ◌<>◌
  host_port-pool_url p ssl host port e h k =
      subst
        (λ u.
          (host_port {F = F} (record p { url = u }) ≡ ok (host, port))
          × (uses_ssl (record p { url = u }) ≡ ssl))
        (sym e) (at_scheme ssl)
    where
      at_scheme :
          (b : Bool)
          → (host_port {F = F} (record p { url = pool_url b host port }) ≡ ok (host, port))
            × (uses_ssl (record p { url = pool_url b host port }) ≡ b)
      at_scheme true = (address_of host port h k, refl)
      at_scheme false = (address_of host port h k, refl)
