-- ===== src/Config/Overrides.antt =====
-- `apply_single_override`, `apply_overrides` and `load_from_sources` of sv2-core/src/config.rs.
use stratum_v2_tools.Common.{
  Option, String, [], if◌then◌else◌, nat_eq, none, some, string_eq, ◌==◌, ◌∷◌,
}
use stratum_v2_tools.Common.Floats.{Floats}
use stratum_v2_tools.Common.Map.{Map}
use stratum_v2_tools.Common.Text.{◌<>◌}
use stratum_v2_tools.Config.Defaults.{default_daemon}
use stratum_v2_tools.Config.Dependencies.{validate}
use stratum_v2_tools.Config.Load.{Machine, from_file, merge_env, parse_network, parse_usize, parsed}
use stratum_v2_tools.Config.Types.{DaemonConfig, OperationModeConfig, mode_eq, pool_mode, solo_mode}
use stratum_v2_tools.Error.{Error, Foreign, Result, err, ok, ◌>>=◌}

-- The override of the address, which only solo mining has.
unfoldable pub override_coinbase :
    {fl : Floats} → String → OperationModeConfig fl → OperationModeConfig fl
override_coinbase value (solo_mode c) = solo_mode (record c { coinbase_address = value })
override_coinbase value m = m

module _ {F : Foreign} {fl : Floats} (host : Machine fl) where
  -- The override of the difficulty, which only a pool has.
  unfoldable pub override_difficulty :
      String → OperationModeConfig fl → Result F (OperationModeConfig fl)
  unfolding parsed
  override_difficulty value (pool_mode c) = do
    d ← parsed ("Invalid share difficulty '" <> value <> "': ") (host.parse_f64 value)
    ok (pool_mode (record c { share_difficulty = d }))
  override_difficulty value m = ok m

  unfoldable pub override_addr : String → DaemonConfig fl → Result F (DaemonConfig fl)
  unfolding parsed
  override_addr value c = do
    a ← parsed ("Invalid bind address '" <> value <> "': ") (host.parse_addr value)
    ok (record c { network = record c.network { bind_address = a } })

  unfoldable pub override_connections : String → DaemonConfig fl → Result F (DaemonConfig fl)
  unfolding parsed
  override_connections value c = do
    n ← parsed ("Invalid max_connections '" <> value <> "': ") (parse_usize value)
    ok (record c { network = record c.network { max_connections = n } })

  unfoldable pub override_network : String → DaemonConfig fl → Result F (DaemonConfig fl)
  unfolding parse_network
  override_network value c = do
    n ← parse_network value
    ok (record c { bitcoin = record c.bitcoin { network = n } })

  -- The keys of the network and of the node.
  unfoldable pub override_node :
      String → String → DaemonConfig fl → Option (Result F (DaemonConfig fl))
  unfolding override_addr override_connections override_network
  override_node key value c =
      if key == "network.bind_address"
      then some (override_addr value c)
      else if key == "network.max_connections"
      then some (override_connections value c)
      else if key == "bitcoin.rpc_url"
      then some (ok (record c { bitcoin = record c.bitcoin { rpc_url = value } }))
      else if key == "bitcoin.rpc_user"
      then some (ok (record c { bitcoin = record c.bitcoin { rpc_user = value } }))
      else if key == "bitcoin.rpc_password"
      then some (ok (record c { bitcoin = record c.bitcoin { rpc_password = value } }))
      else if key == "bitcoin.network"
      then some (override_network value c)
      else none

  unfoldable pub override_mode : String → DaemonConfig fl → Result F (DaemonConfig fl)
  unfolding override_difficulty
  override_mode value c = do m ← override_difficulty value c.mode; ok (record c { mode = m })

  -- The other keys.
  unfoldable pub override_rest : String → String → DaemonConfig fl → Result F (DaemonConfig fl)
  unfolding override_coinbase override_mode
  override_rest key value c =
      if key == "database.url"
      then ok (record c { database = record c.database { url = value } })
      else if key == "logging.level"
      then ok (record c { logging = record c.logging { level = value } })
      else if key == "mode.solo.coinbase_address"
      then ok (record c { mode = override_coinbase value c.mode })
      else if key == "mode.pool.share_difficulty"
      then override_mode value c
      else err (Error.config ("Unknown configuration key: " <> key))

  unfoldable pub apply_single_override :
      String → String → DaemonConfig fl → Result F (DaemonConfig fl)
  unfolding override_node override_rest
  apply_single_override key value c = elim (override_node key value c) [
    | some r ↦ r
    | none ↦ override_rest key value c
  ]

  -- The entries in the order in which the map gives them.
  unfoldable pub apply_overrides : Map String String → DaemonConfig fl → Result F (DaemonConfig fl)
  unfolding apply_single_override
  apply_overrides [] c = ok c
  apply_overrides ((key, value) ∷ overrides) c = do
    d ← apply_single_override key value c
    apply_overrides overrides d

  unfoldable pub from_path : Option String → Result F (DaemonConfig fl)
  unfolding from_file
  from_path none = ok (default_daemon fl)
  from_path (some path) =
      if host.paths.exists path then from_file host path else ok (default_daemon fl)

  unfoldable pub load_from_sources :
      Option String → Option (Map String String) → Result F (DaemonConfig fl)
  unfolding from_path merge_env apply_overrides validate
  load_from_sources path overrides = do
    c ← from_path path
    d ← merge_env host c
    e ← elim overrides [ some os ↦ apply_overrides os d | none ↦ ok d ]
    _ ← validate host.paths e
    ok e
