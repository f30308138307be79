-- ===== src/Config/Load.antt =====
-- How a configuration is put together: `from_file`, `merge_env`, `load_with_env`,
-- `load_from_sources` and `apply_overrides` of sv2-core/src/config.rs.
use stratum_v2_tools.Common.{
  Option, String, get_or, if◌then◌else◌, inl, inr, nat_eq, none, some, string_eq, ℕ, ◌⊎◌,
}
use stratum_v2_tools.Common.Floats.{Floats}
use stratum_v2_tools.Common.Text.{lowers_to, parse_unsigned, ◌<>◌}
use stratum_v2_tools.Common.Words.{u64_mod}
use stratum_v2_tools.Config.Defaults.{default_daemon}
use stratum_v2_tools.Config.Dependencies.{validate}
use stratum_v2_tools.Config.Types.{
  BitcoinConfig, BitcoinNetwork, DaemonConfig, NetworkConfig, OperationModeConfig, PoolConfig,
  SocketAddr, UpstreamPool, client_mode, mainnet, mode_eq, pool_mode, proxy_mode, regtest, signet,
  solo_mode, testnet,
}
use stratum_v2_tools.Config.Validate.{Paths}
use stratum_v2_tools.Error.{Error, Foreign, Result, err, ok, ◌>>=◌}

-- The machine the daemon starts on: its environment, its files, the parser of TOML, and the parsers
-- of addresses and of `f64` with the texts of their errors.
pub record Machine (fl : Floats) : Type 0 where
  pub var : String → Option String
  pub paths : Paths
  pub read_to_string : String → String ⊎ String
  pub from_toml : String → String ⊎ DaemonConfig fl
  pub parse_addr : String → String ⊎ SocketAddr
  pub parse_f64 : String → String ⊎ fl.F64

-- A parse whose error becomes an error of the configuration.
unfoldable pub parsed {ℓ} : {F : Foreign} {A : Type ℓ} → String → String ⊎ A → Result F A
parsed text (inl e) = err (Error.config (text <> e))
parsed text (inr a) = ok a

-- `usize` has 64 bits.
abbrev pub parse_usize : String → String ⊎ ℕ
parse_usize = parse_unsigned u64_mod

module _ {fl : Floats} (host : Machine fl) where
  unfoldable pub merge_upstream : UpstreamPool → UpstreamPool
  merge_upstream p = record p {
    url = get_or (host.var "SV2D_UPSTREAM_URL") p.url;
    username = get_or (host.var "SV2D_UPSTREAM_USERNAME") p.username;
    password = get_or (host.var "SV2D_UPSTREAM_PASSWORD") p.password;
  }

module _ {F : Foreign} where
  unfoldable pub parse_network : String → Result F BitcoinNetwork
  parse_network s =
      if lowers_to s "mainnet"
      then ok mainnet
      else if lowers_to s "testnet"
      then ok testnet
      else if lowers_to s "signet"
      then ok signet
      else if lowers_to s "regtest"
      then ok regtest
      else err (Error.config ("Invalid Bitcoin network: " <> s))

  -- `if let Ok(value) = std::env::var(name) { … }` around an assignment that can fail.
  unfoldable pub with_var {ℓ} :
      {A : Type ℓ} → Option String → A → (String → Result F A) → Result F A
  with_var none a f = ok a
  with_var (some value) a f = f value

  module _ {fl : Floats} (host : Machine fl) where
    unfoldable pub merge_network : NetworkConfig → Result F NetworkConfig
    unfolding with_var parsed
    merge_network c = do
      addr ←
          with_var (host.var "SV2D_BIND_ADDRESS") c.bind_address
            λ value. parsed "Invalid bind address: " (host.parse_addr value)
      max ←
          with_var (host.var "SV2D_MAX_CONNECTIONS") c.max_connections
            λ value. parsed "Invalid max_connections: " (parse_usize value)
      ok (record c { bind_address = addr; max_connections = max })

    unfoldable pub merge_bitcoin : BitcoinConfig → Result F BitcoinConfig
    unfolding with_var parse_network
    merge_bitcoin c = do
      net ← with_var (host.var "SV2D_BITCOIN_NETWORK") c.network parse_network
      ok (record c {
        rpc_url = get_or (host.var "SV2D_BITCOIN_RPC_URL") c.rpc_url;
        rpc_user = get_or (host.var "SV2D_BITCOIN_RPC_USER") c.rpc_user;
        rpc_password = get_or (host.var "SV2D_BITCOIN_RPC_PASSWORD") c.rpc_password;
        network = net;
      })

    unfoldable pub merge_pool : PoolConfig fl → Result F (PoolConfig fl)
    unfolding with_var parsed
    merge_pool c = do
      difficulty ←
          with_var (host.var "SV2D_SHARE_DIFFICULTY") c.share_difficulty
            λ value. parsed "Invalid share difficulty: " (host.parse_f64 value)
      fee ←
          with_var (host.var "SV2D_FEE_PERCENTAGE") c.fee_percentage
            λ value. parsed "Invalid fee percentage: " (host.parse_f64 value)
      ok (record c { share_difficulty = difficulty; fee_percentage = fee })

    unfoldable pub merge_mode : OperationModeConfig fl → Result F (OperationModeConfig fl)
    unfolding merge_pool merge_upstream
    merge_mode (solo_mode c) = ok (
        solo_mode (record c {
          coinbase_address = get_or (host.var "SV2D_COINBASE_ADDRESS") c.coinbase_address;
        }))
    merge_mode (pool_mode c) = do d ← merge_pool c; ok (pool_mode d)
    merge_mode (proxy_mode c) = ok (proxy_mode c)
    merge_mode (client_mode c) =
        ok (client_mode (record c { upstream_pool = merge_upstream host c.upstream_pool }))

    -- The loaders drop the configuration when this fails.
    unfoldable pub merge_env : DaemonConfig fl → Result F (DaemonConfig fl)
    unfolding merge_network merge_bitcoin merge_mode
    merge_env c = do
      n ← merge_network c.network
      b ← merge_bitcoin c.bitcoin
      m ← merge_mode c.mode
      ok (record c {
        network = n;
        bitcoin = b;
        database = record c.database { url = get_or (host.var "SV2D_DATABASE_URL") c.database.url };
        logging = record c.logging { level = get_or (host.var "SV2D_LOG_LEVEL") c.logging.level };
        mode = m;
      })

    unfoldable pub from_file : String → Result F (DaemonConfig fl)
    unfolding parsed validate
    from_file path = do
      content ← parsed "Failed to read config file: " (host.read_to_string path)
      c ← parsed "Failed to parse config: " (host.from_toml content)
      _ ← validate host.paths c
      ok c

    unfoldable pub load_with_env : Option String → Result F (DaemonConfig fl)
    unfolding from_file merge_env validate
    load_with_env path = do
      c ← elim path [ some p ↦ from_file p | none ↦ ok (default_daemon fl) ]
      d ← merge_env c
      _ ← validate host.paths d
      ok d
