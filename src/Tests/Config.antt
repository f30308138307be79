-- ===== src/Tests/Config.antt =====
-- The theorems on sv2-core/src/config.rs at small configurations.
use mathlib.Core.List.{Perm}
use stratum_v2_tools.Common.{
  String, [], contains, false, if◌then◌else◌, inl, nat_eq, none, refl, some, string_eq, ℕ, ◌==◌,
  ◌^◌, ◌↔◌, ◌∷◌, ◌≡◌,
}
use stratum_v2_tools.Common.Floats.{whole_floats}
use stratum_v2_tools.Common.Map.{Map, get}
use stratum_v2_tools.Common.Text.{is_empty, starts_with}
use stratum_v2_tools.Common.Words.{add_u32}
use stratum_v2_tools.Config.Defaults.{
  default_client, default_daemon, default_database, default_logging, default_proxy, default_solo,
  default_upstream,
}
use stratum_v2_tools.Config.Dependencies.{
  total_weight, validate, validate_addresses, validate_dependencies, validate_needs,
  validate_output, validate_tls_paths, validate_weights,
}
use stratum_v2_tools.Config.Fields.{field_of, url_field}
use stratum_v2_tools.Config.Load.{
  Machine, merge_bitcoin, merge_env, merge_mode, merge_network, with_var,
}
use stratum_v2_tools.Config.Modes.{
  host_port, pools_by_priority, primary_pool, validate_client_own, validate_own, validate_upstream,
}
use stratum_v2_tools.Config.Overrides.{
  apply_overrides, apply_single_override, from_path, load_from_sources, override_coinbase,
  override_node, override_rest,
}
use stratum_v2_tools.Config.Priorities.{Ascending, head?, of_priority, pools_by_priority-sorted}
use stratum_v2_tools.Config.Sections.{NonEmpty}
use stratum_v2_tools.Config.Sources.{load_from_sources-field}
use stratum_v2_tools.Config.Stricter.{validate_upstream_iff}
use stratum_v2_tools.Config.Types.{
  DaemonConfig, OperationModeConfig, ProxyConfig, SoloConfig, UpstreamPool, client_mode, proxy_mode,
  same_addr, solo_mode,
}
use stratum_v2_tools.Config.Valid.{Valid, validate_iff}
use stratum_v2_tools.Config.Validate.{
  has_address_format, validate_bitcoin, validate_client_config, validate_database, validate_logging,
  validate_mode, validate_monitoring, validate_network, validate_reconnects, validate_security,
  validate_solo_config,
}
use stratum_v2_tools.Error.{Error, err, ok}
use stratum_v2_tools.Tests.Systems.{no_foreign}

-- A machine without files whose environment names a database.
abbrev a_machine : Machine whole_floats
a_machine = record {
  var = λ name. if name == "SV2D_DATABASE_URL" then some "sqlite://env.db" else none;
  paths = record { parent = λ _. none; exists = λ _. false };
  read_to_string = λ _. inl "no such file";
  from_toml = λ _. inl "no configuration";
  parse_addr = λ _. inl "invalid socket address syntax";
  parse_f64 = λ _. inl "invalid float literal";
}

abbrev an_address : Map String String
an_address = ("mode.solo.coinbase_address", "bc1qexample") ∷ ("logging.level", "debug") ∷ []

abbrev a_solo : SoloConfig
a_solo = record default_solo { coinbase_address = "bc1qexample" }

abbrev loaded : DaemonConfig whole_floats
loaded = record (default_daemon whole_floats) {
  mode = solo_mode a_solo;
  database = record default_database { url = "sqlite://env.db" };
  logging = record default_logging { level = "debug" };
}

load_loaded : load_from_sources {F = no_foreign} a_machine none (some an_address) ≡ ok loaded
unfolding load_from_sources from_path merge_env merge_network merge_bitcoin merge_mode with_var
    apply_overrides apply_single_override override_node override_rest override_coinbase validate
    validate_dependencies validate_network validate_bitcoin validate_database validate_monitoring
    validate_logging validate_security validate_mode validate_solo_config has_address_format
    validate_needs validate_tls_paths validate_addresses validate_output same_addr is_empty
    starts_with contains
load_loaded = refl

load_from_sources-field_example :
    (validate {F = no_foreign} a_machine.paths loaded ≡ ok tt)
    × (field_of url_field loaded ≡ "sqlite://env.db")
unfolding get from_path
load_from_sources-field_example =
    load_from_sources-field no_foreign a_machine url_field none (some an_address)
      (default_daemon whole_floats) loaded (refl, (refl, tt)) refl load_loaded

validate_iff_example :
    (validate {F = no_foreign} a_machine.paths loaded ≡ ok tt) ↔ Valid a_machine.paths loaded
validate_iff_example = validate_iff no_foreign a_machine.paths loaded

abbrev a_pool : UpstreamPool
a_pool = record default_upstream { url = "stratum+ssl://pool.example.com:3334"; priority = 2 }

abbrev a_proxy : ProxyConfig
a_proxy = record default_proxy { upstream_pools = a_pool ∷ default_upstream ∷ a_pool ∷ [] }

pools_by_priority-sorted_example :
    Perm (pools_by_priority a_proxy) a_proxy.upstream_pools
    × Ascending (pools_by_priority a_proxy)
    × ((n : ℕ) → of_priority n (pools_by_priority a_proxy) ≡ of_priority n a_proxy.upstream_pools)
    × (primary_pool a_proxy ≡ head? (pools_by_priority a_proxy))
pools_by_priority-sorted_example = pools_by_priority-sorted a_proxy

-- The address of a client may lack its scheme for the daemon, not for itself.
abbrev a_client : OperationModeConfig whole_floats
a_client = client_mode (record default_client {
  upstream_pool = record default_upstream { url = "pool.example.com:4444" };
})

only_daemon :
    (validate_mode {F = no_foreign} a_client ≡ ok tt)
    × (validate_own {F = no_foreign} (λ _. "") a_client
        ≡ err (Error.config "Upstream pool URL must use stratum+tcp:// or stratum+ssl:// scheme"))
unfolding validate_mode validate_client_config validate_reconnects validate_own validate_client_own
    validate_upstream starts_with is_empty
only_daemon = (refl, refl)

abbrev a_proxy_mode : OperationModeConfig whole_floats
a_proxy_mode = proxy_mode a_proxy

validate_upstream_iff_example : (validate_upstream {F = no_foreign} a_pool ≡ ok tt) ↔ (
    NonEmpty a_pool.username
    × ((host : String) × (port : ℕ) × (host_port {F = no_foreign} a_pool ≡ ok (host, port))))
validate_upstream_iff_example = validate_upstream_iff no_foreign a_pool

-- The weights of two pools add up to nothing.
abbrev heavy : UpstreamPool
heavy = record default_upstream { weight = 2 ^ 31 }

weights_wrap :
    validate_weights {F = no_foreign} (heavy ∷ heavy ∷ [])
    ≡ err (Error.config "Weighted round robin requires non-zero weights")
unfolding validate_weights total_weight add_u32
weights_wrap = refl
