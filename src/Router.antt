-- ===== src/Router.antt =====
-- The router of operation modes: sv2-core/src/mode_factory.rs, over the configuration of
-- sv2-core/src/config.rs. What a handler answers to `start`, `stop` and the
-- preservation of its state is an argument; a handler is known by the configuration it was made from.
pub mod Switches
use stratum_v2_tools.Common.{
  Bool, Option, String, if◌then◌else◌, nat_eq, none, not, some, string_eq, ◌&&◌, ◌==◌, ◌||◌,
}
use stratum_v2_tools.Common.Floats.{Floats}
use stratum_v2_tools.Config.Types.{
  DaemonConfig, OperationMode, client, get_mode_type, mode_eq, pool, proxy, same_addr,
  same_database, solo,
}
use stratum_v2_tools.Error.{Error, Foreign, Result, database, err, ok, system, ◌>>=◌}

-- A handler and the configuration that `create_handler` made it from.
pub record Handler (fl : Floats) : Type 0 where
  pub made_from : DaemonConfig fl

pub record ModeRouter (fl : Floats) : Type 0 where
  pub current_handler : Option (Handler fl)
  pub config : Option (DaemonConfig fl)

-- What the handlers and the database answer in one call of the router.
pub record Answers (F : Foreign) : Type 0 where
  pub preserved : Result F (Unit {0})
  pub stopped : Result F (Unit {0})
  pub started : Result F (Unit {0})

module _ {fl : Floats} where
  unfoldable pub create_handler : DaemonConfig fl → Handler fl
  create_handler config = record { made_from = config }

-- `allowed_transitions.contains`.
unfoldable pub is_allowed : OperationMode → OperationMode → Bool
is_allowed from to =
    (from == solo && to == pool)
    || ((from == pool && to == solo)
        || ((from == proxy && to == client) || (from == client && to == proxy)))

module _ {fl : Floats} {F : Foreign} where
  unfoldable pub initialize :
      Answers F → DaemonConfig fl → ModeRouter fl → ModeRouter fl × Result F (Unit {0})
  unfolding create_handler
  initialize a config r = elim a.started [
    | err e ↦ (r, err e)
    | ok _ ↦
        (record { current_handler = some (create_handler config); config = some config }, ok tt)
  ]

  -- The end of `switch_mode`: the new handler starts, in a router without one.
  unfoldable pub start_new :
      Answers F → DaemonConfig fl → ModeRouter fl → ModeRouter fl × Result F (Unit {0})
  unfolding initialize
  start_new a new r = initialize a new (record r { current_handler = none })

  -- `switch_mode` after its validations.
  unfoldable pub replace_handler :
      Answers F → DaemonConfig fl → ModeRouter fl → ModeRouter fl × Result F (Unit {0})
  unfolding start_new
  replace_handler a new r = elim r.current_handler [
    | none ↦ start_new a new r
    | some h ↦ elim a.preserved [
      | err e ↦ (r, err e)
      | ok _ ↦ elim a.stopped [
        | err e ↦ (record r { current_handler = none }, err e)
        | ok _ ↦ start_new a new r
      ]
    ]
  ]

  unfoldable pub shutdown : Answers F → ModeRouter fl → ModeRouter fl × Result F (Unit {0})
  shutdown a r = elim r.current_handler [
    | none ↦ (record r { config = none }, ok tt)
    | some h ↦ elim a.stopped [
      | err e ↦ (record r { current_handler = none }, err e)
      | ok _ ↦ (record { current_handler = none; config = none }, ok tt)
    ]
  ]

module _ {fl : Floats} {F : Foreign} (format : OperationMode → OperationMode → String) where
  unfoldable pub validate_mode_switch : DaemonConfig fl → DaemonConfig fl → Result F (Unit {0})
  unfolding is_allowed get_mode_type
  validate_mode_switch current new =
      if get_mode_type current == get_mode_type new
      then ok tt
      else if is_allowed (get_mode_type current) (get_mode_type new)
      then ok tt
      else err (Error.config (format (get_mode_type current) (get_mode_type new)))

  unfoldable pub validate_config_compatibility :
      DaemonConfig fl → DaemonConfig fl → Result F (Unit {0})
  unfolding same_database same_addr
  validate_config_compatibility current new =
      if not (same_database current.database new.database)
      then err (Error.config "Database configuration changes require daemon restart")
      else if not (same_addr current.network.bind_address new.network.bind_address)
      then err (Error.config "Bind address changes require daemon restart")
      else ok tt

  -- The two validations of `switch_mode`.
  unfoldable pub validate_switch : DaemonConfig fl → DaemonConfig fl → Result F (Unit {0})
  unfolding validate_mode_switch validate_config_compatibility
  validate_switch current new = do
    _ ← validate_mode_switch current new
    validate_config_compatibility current new

  unfoldable pub switch_mode :
      Answers F → DaemonConfig fl → ModeRouter fl → ModeRouter fl × Result F (Unit {0})
  unfolding validate_switch replace_handler
  switch_mode a new r = elim r.config [
    | none ↦ (r, err (system "Mode router not initialized"))
    | some current ↦ elim (validate_switch current new) [
      | err e ↦ (r, err e)
      | ok _ ↦ replace_handler a new r
    ]
  ]

  unfoldable pub update_config :
      Answers F → DaemonConfig fl → ModeRouter fl → ModeRouter fl × Result F (Unit {0})
  unfolding switch_mode
  update_config a new r = elim r.config [
    | none ↦ (r, err (system "Mode router not initialized"))
    | some current ↦
        if not (get_mode_type current == get_mode_type new)
        then switch_mode a new r
        else elim (validate_config_compatibility current new) [
          | err e ↦ (r, err e)
          | ok _ ↦ switch_mode a new r
        ]
  ]

unfoldable pub new_router : (fl : Floats) → ModeRouter fl
new_router fl = record { current_handler = none; config = none }
