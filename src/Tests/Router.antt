-- ===== src/Tests/Router.antt =====
-- The theorems on sv2-core/src/mode_factory.rs at small configurations.
use stratum_v2_tools.Common.{
  List, String, [], nat_eq, none, refl, some, string_eq, true, ◌==◌, ◌↔◌, ◌∷◌, ◌≡◌, ◌⊎◌,
}
use stratum_v2_tools.Common.Floats.{whole_floats}
use stratum_v2_tools.Config.Defaults.{default_daemon, default_pool, default_proxy, default_solo}
use stratum_v2_tools.Config.Types.{
  DaemonConfig, OperationMode, OperationMode-discrete, OperationModeConfig, get_mode_type, mode_eq,
  pool_mode, proxy_mode, same_database, solo_mode,
}
use stratum_v2_tools.Error.{err, mining, ok}
use stratum_v2_tools.Router.{
  Answers, ModeRouter, create_handler, initialize, is_allowed, new_router, replace_handler,
  start_new, switch_mode, validate_config_compatibility, validate_mode_switch, validate_switch,
}
use stratum_v2_tools.Router.Switches.{
  Call, StaysNear, initializes, run_router, run_router-new_router, run_router_changes, step_router,
  switch_mode_failed, switch_mode_ok_iff, switches, updates,
}
use stratum_v2_tools.Tests.Systems.{no_foreign}

abbrev with_mode : OperationModeConfig whole_floats → DaemonConfig whole_floats
with_mode m = record (default_daemon whole_floats) { mode = m }

abbrev all_well : Answers no_foreign
all_well = record { preserved = ok tt; stopped = ok tt; started = ok tt }

abbrev bad_start : Answers no_foreign
bad_start = record all_well { started = err (mining "no node") }

abbrev mode_format : OperationMode → OperationMode → String
mode_format m n = "restart"

abbrev solo_router : ModeRouter whole_floats
solo_router = record {
  current_handler = some (record { made_from = with_mode (solo_mode default_solo) });
  config = some (with_mode (solo_mode default_solo));
}

abbrev to_pool : List (Call whole_floats no_foreign)
to_pool =
    initializes all_well (with_mode (solo_mode default_solo))
    ∷ switches all_well (with_mode (pool_mode (default_pool whole_floats)))
    ∷ []

a_pool :
    (run_router no_foreign mode_format (new_router whole_floats) to_pool).current_handler
    ≡ some (record { made_from = with_mode (pool_mode (default_pool whole_floats)) })
unfolding run_router step_router initialize switch_mode get_mode_type OperationMode-discrete
    same_database create_handler new_router validate_switch validate_mode_switch
    validate_config_compatibility is_allowed replace_handler start_new
a_pool = refl

run_router-new_router_example :
    (run_router no_foreign mode_format (new_router whole_floats) to_pool).config
    ≡ some (with_mode (pool_mode (default_pool whole_floats)))
run_router-new_router_example =
    run_router-new_router no_foreign mode_format to_pool
      (record { made_from = with_mode (pool_mode (default_pool whole_floats)) }) a_pool

switch_mode_ok_iff_example :
    ((switch_mode {F = no_foreign} mode_format all_well
        (with_mode (proxy_mode default_proxy))
        solo_router).1
      ≡ ok tt)
    ↔ (((get_mode_type (with_mode (solo_mode default_solo))
              == get_mode_type (with_mode (proxy_mode default_proxy)))
            ≡ true
          ⊎ is_allowed
              (get_mode_type (with_mode (solo_mode default_solo)))
              (get_mode_type (with_mode (proxy_mode default_proxy)))
            ≡ true)
        × (same_database
              (with_mode (solo_mode default_solo)).database
              (with_mode (proxy_mode default_proxy)).database
            ≡ true)
        × ((with_mode (solo_mode default_solo)).network.bind_address
            ≡ (with_mode (proxy_mode default_proxy)).network.bind_address)
        × ((solo_router.current_handler ≡ none)
            ⊎ ((all_well.preserved ≡ ok tt) × (all_well.stopped ≡ ok tt)))
        × (all_well.started ≡ ok tt))
switch_mode_ok_iff_example =
    switch_mode_ok_iff no_foreign mode_format all_well (with_mode (solo_mode default_solo))
      (with_mode (proxy_mode default_proxy)) solo_router refl

switch_mode_failed_example :
    let new = with_mode (pool_mode (default_pool whole_floats)) in
    let old = with_mode (solo_mode default_solo) in
    let n = (switch_mode {F = no_foreign} mode_format bad_start new solo_router).0 in
    (n.config ≡ some old)
    × ((n.current_handler ≡ none) ⊎ (n ≡ solo_router))
    × ((n.current_handler ≡ none) ↔ (
        (solo_router.current_handler ≡ none)
        ⊎ (((get_mode_type old == get_mode_type new) ≡ true
              ⊎ is_allowed (get_mode_type old) (get_mode_type new) ≡ true)
            × (same_database old.database new.database ≡ true)
            × (old.network.bind_address ≡ new.network.bind_address)
            × (bad_start.preserved ≡ ok tt))))
unfolding switch_mode validate_switch validate_mode_switch validate_config_compatibility
    get_mode_type is_allowed OperationMode-discrete same_database replace_handler start_new
    initialize
switch_mode_failed_example =
    switch_mode_failed no_foreign mode_format bad_start (with_mode (solo_mode default_solo))
      (with_mode (pool_mode (default_pool whole_floats))) solo_router (mining "no node") refl refl

run_router_changes_example : StaysNear (with_mode (solo_mode default_solo)) (
    run_router no_foreign mode_format solo_router (
      updates all_well (with_mode (pool_mode (default_pool whole_floats)))
      ∷ switches all_well (with_mode (proxy_mode default_proxy))
      ∷ []))
run_router_changes_example =
    run_router_changes no_foreign mode_format (with_mode (solo_mode default_solo)) solo_router
      (updates all_well (with_mode (pool_mode (default_pool whole_floats)))
        ∷ switches all_well (with_mode (proxy_mode default_proxy))
        ∷ [])
      refl (tt, (tt, tt))
