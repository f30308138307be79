-- ===== src/Upstream/Addresses.antt =====
-- The two readings of a pool's address: `parse_stratum_url` of sv2-core/src/modes/client.rs, which
-- connects, and `UpstreamPool::host_port` of sv2-core/src/config.rs, which validates.
use Prim.Native.Char.{Char, code}
use stratum_v2_tools.Common.{
  Bool, String, arith, false, if◌then◌else◌, nat_eq, none, refl, some, string_eq, subst, sym, true,
  ℕ, ◌<◌, ◌≡◌,
}
use stratum_v2_tools.Common.Text.{is_empty, lacks, show, ◌<>◌}
use stratum_v2_tools.Common.Text.Numbers.{parse_unsigned-show}
use stratum_v2_tools.Config.Modes.{host_port}
use stratum_v2_tools.Config.Types.{UpstreamPool}
use stratum_v2_tools.Config.Upstreams.{digits_lack, host_port-pool_url, pool_url}
use stratum_v2_tools.Error.{Foreign, ok}
use stratum_v2_tools.Upstream.Url.{
  host_and_port, or_else, parse_address, parse_stratum_url, split_last, strip_prefix,
  without_scheme,
}

-- Without a separator there is none to find.
split_last-lacks : (b : ℕ) (s : String) → lacks b s ≡ true → split_last b s ≡ none
unfolding split_last lacks
split_last-lacks b String.[] h = refl
split_last-lacks b (String.◌∷◌ c s) h = ground (arith, h, split_last-lacks b s)

-- The last separator is found behind any text.
split_last-append :
    (c : Char) (s t : String)
    → lacks (code c) t ≡ true
    → split_last (code c) (s <> String.◌∷◌ c t) ≡ some (s, t)
unfolding split_last ◌<>◌
split_last-append c String.[] t h = ground (arith, split_last-lacks (code c) t h)
split_last-append c (String.◌∷◌ d s) t h = ground (arith, split_last-append c s t h)

module _ (F : Foreign) where
  parse_address-show :
      (host : String) (port : ℕ)
      → is_empty host ≡ false
      → port < 65536
      → parse_address {F = F} (host <> ":" <> show port) ≡ ok (host, port)
  unfolding parse_address host_and_port ◌<>◌
  parse_address-show host port h k = ground (
    arith,
    h,
    split_last-append ":" host (show port) (digits_lack port),
    parse_unsigned-show 65536 port k (omega arith),
  )

  -- For an address of a host without a colon and a port, the client connects to that host and port
  -- if the scheme is the one without TLS, as validation reads it. With TLS the scheme stays in the
  -- host that the client connects to, which is not the host that validation reads.
  pub parse_stratum_url-pool_url :
      (p : UpstreamPool) (host : String) (port : ℕ) (ssl : Bool)
      → p.url ≡ pool_url ssl host port
      → lacks b':' host ≡ true
      → is_empty host ≡ false
      → port < 65536
      → (host_port {F = F} p ≡ ok (host, port))
        × (parse_stratum_url {F = F} p.url
            ≡ ok (if ssl then "stratum+ssl://" <> host else host, port))
  unfolding parse_stratum_url without_scheme strip_prefix or_else is_empty ◌<>◌
  parse_stratum_url-pool_url p host port ssl e h n k = (
    (host_port-pool_url F p ssl host port e h k).0,
    subst
        (λ u.
          parse_stratum_url {F = F} u ≡ ok (if ssl then "stratum+ssl://" <> host else host, port))
        (sym e) (at_scheme ssl),
  )
    where
      at_scheme :
          (b : Bool)
          → parse_stratum_url {F = F} (pool_url b host port)
            ≡ ok (if b then "stratum+ssl://" <> host else host, port)
      at_scheme true = parse_address-show ("stratum+ssl://" <> host) port refl k
      at_scheme false = parse_address-show host port n k
