-- ===== src/Router/Switches.antt =====
-- Which switches the router of sv2-core/src/mode_factory.rs makes, and what it holds after them.
use stratum_v2_tools.Common.{
  ==_iff, ==_refl, All, Bool, List, String, [], arith, inl, inr, nat_eq, none, refl, some,
  string_eq, subst, sym, true, ◌==◌, ◌||◌, ◌↔◌, ◌∙◌, ◌∷◌, ◌≡◌, ◌⊎◌,
}
use stratum_v2_tools.Common.Floats.{Floats}
use stratum_v2_tools.Config.Types.{
  DaemonConfig, DatabaseConfig, OperationMode, OperationMode-discrete, client, get_mode_type,
  mode_eq, pool, proxy, same_addr_iff, same_database, solo,
}
use stratum_v2_tools.Error.{Error, Foreign, err, ok}
use stratum_v2_tools.Router.{
  Answers, Handler, ModeRouter, create_handler, initialize, is_allowed, new_router, replace_handler,
  shutdown, start_new, switch_mode, update_config, validate_config_compatibility,
  validate_mode_switch, validate_switch,
}

pub data Call (fl : Floats) (F : Foreign) : Type 0 where
  initializes switches updates : Answers F → DaemonConfig fl → Call fl F
  shuts_down : Answers F → Call fl F

-- The modes that mine over a node of their own.
abbrev pub is_mining : OperationMode → Bool
is_mining m = m == solo || m == pool

-- A handler that stands was made from the configuration that stands.
abbrev pub Agrees : {fl : Floats} → ModeRouter fl → Type 0
Agrees {fl} r = (h : Handler fl) → r.current_handler ≡ some h → r.config ≡ some h.made_from

-- A router holds a configuration of the same kind of mode, address and database as `c`.
abbrev pub StaysNear : {fl : Floats} → DaemonConfig fl → ModeRouter fl → Type 0
StaysNear {fl} c r =
    (d : DaemonConfig fl) × (r.config ≡ some d)
    × (is_mining (get_mode_type d) ≡ is_mining (get_mode_type c))
    × (d.network.bind_address ≡ c.network.bind_address)
    × (same_database c.database d.database ≡ true)

same_database_trans :
    (a b c : DatabaseConfig)
    → same_database a b ≡ true
    → same_database b c ≡ true
    → same_database a c ≡ true
unfolding same_database
same_database_trans a b c h k =
    ground (arith, ==_iff a.url b.url, ==_iff b.url c.url, ==_iff a.url c.url)

same_database_refl : (a : DatabaseConfig) → same_database a a ≡ true
unfolding same_database
same_database_refl a = ground (arith, ==_refl a.url)

allowed-is_mining :
    (m n : OperationMode) → (m == n) ≡ true ⊎ is_allowed m n ≡ true → is_mining n ≡ is_mining m
unfolding is_allowed OperationMode-discrete
allowed-is_mining m n h = ground (
  arith,
  ==_iff m n,
  ==_iff m solo,
  ==_iff m pool,
  ==_iff m proxy,
  ==_iff m client,
  ==_iff n solo,
  ==_iff n pool,
  ==_iff n proxy,
  ==_iff n client,
)

module _ {fl : Floats} (F : Foreign) (format : OperationMode → OperationMode → String) where
  unfoldable pub step_router : ModeRouter fl → Call fl F → ModeRouter fl
  step_router r (initializes a c) = (initialize {F = F} a c r).0
  step_router r (switches a c) = (switch_mode {F = F} format a c r).0
  step_router r (updates a c) = (update_config {F = F} format a c r).0
  step_router r (shuts_down a) = (shutdown {F = F} a r).0

  unfoldable pub run_router : ModeRouter fl → List (Call fl F) → ModeRouter fl
  run_router r [] = r
  run_router r (c ∷ cs) = run_router (step_router r c) cs

  update_config_cases :
      (a : Answers F) (c : DaemonConfig fl) (r : ModeRouter fl)
      → ((update_config {F = F} format a c r).0 ≡ r)
        ⊎ ((update_config {F = F} format a c r).0 ≡ (switch_mode {F = F} format a c r).0)
  unfolding update_config
  update_config_cases a c r = ground arith

  switch_mode-Agrees :
      (a : Answers F) (c : DaemonConfig fl) (r : ModeRouter fl)
      → Agrees r
      → Agrees (switch_mode {F = F} format a c r).0
  unfolding switch_mode initialize create_handler replace_handler start_new
  switch_mode-Agrees a c r g h e = ground (arith, g h)

  step_router-Agrees : (r : ModeRouter fl) (c : Call fl F) → Agrees r → Agrees (step_router r c)
  unfolding step_router initialize create_handler shutdown
  step_router-Agrees r (initializes a c) g = λ h e. ground (arith, g h)
  step_router-Agrees r (switches a c) g = switch_mode-Agrees a c r g
  step_router-Agrees r (updates a c) g = elim (update_config_cases a c r) [
    | inl same ↦ subst Agrees (sym same) g
    | inr same ↦ subst Agrees (sym same) (switch_mode-Agrees a c r g)
  ]
  step_router-Agrees r (shuts_down a) g = λ h e. ground (arith, g h)

  run_router-Agrees :
      (r : ModeRouter fl) (cs : List (Call fl F)) → Agrees r → Agrees (run_router r cs)
  unfolding run_router
  run_router-Agrees r [] g = g
  run_router-Agrees r (c ∷ cs) g = run_router-Agrees (step_router r c) cs (step_router-Agrees r c g)

  -- After every history of calls, whatever the handlers and the database answer, a router that began
  -- empty holds no handler, or one that was made from the configuration that it holds.
  pub run_router-new_router :
      (cs : List (Call fl F)) (h : Handler fl)
      → (run_router (new_router fl) cs).current_handler ≡ some h
      → (run_router (new_router fl) cs).config ≡ some h.made_from
  unfolding new_router
  run_router-new_router cs = run_router-Agrees (new_router fl) cs (λ h e. ground arith)

  -- A router with a configuration switches to another one exactly if the modes are the same or an
  -- allowed pair, the database and the address stay the same, the old handler, if there is one, gives
  -- its state and stops, and the new one starts.
  pub switch_mode_ok_iff :
      (a : Answers F) (current new : DaemonConfig fl) (r : ModeRouter fl)
      → r.config ≡ some current
      → ((switch_mode {F = F} format a new r).1 ≡ ok tt) ↔ (
          ((get_mode_type current == get_mode_type new) ≡ true
            ⊎ is_allowed (get_mode_type current) (get_mode_type new) ≡ true)
          × (same_database current.database new.database ≡ true)
          × (current.network.bind_address ≡ new.network.bind_address)
          × ((r.current_handler ≡ none) ⊎ ((a.preserved ≡ ok tt) × (a.stopped ≡ ok tt)))
          × (a.started ≡ ok tt))
  unfolding switch_mode validate_switch validate_mode_switch validate_config_compatibility
      replace_handler start_new initialize
  switch_mode_ok_iff a current new r c =
      ground (arith, c, same_addr_iff current.network.bind_address new.network.bind_address)

  -- A switch that fails with an error keeps the configuration, and the router is either as it was or
  -- without a handler. The handler is gone exactly if there was none, or the modes are the same or an
  -- allowed pair, the database and the address stay the same and the old handler gives its state: an
  -- error when it stops, or when the new one starts, comes too late.
  pub switch_mode_failed :
      (a : Answers F) (current new : DaemonConfig fl) (r : ModeRouter fl) (e : Error F)
      → r.config ≡ some current
      → (switch_mode {F = F} format a new r).1 ≡ err e
      → let n = (switch_mode {F = F} format a new r).0 in
        (n.config ≡ some current)
        × ((n.current_handler ≡ none) ⊎ (n ≡ r))
        × ((n.current_handler ≡ none) ↔ (
            (r.current_handler ≡ none)
            ⊎ (((get_mode_type current == get_mode_type new) ≡ true
                  ⊎ is_allowed (get_mode_type current) (get_mode_type new) ≡ true)
                × (same_database current.database new.database ≡ true)
                × (current.network.bind_address ≡ new.network.bind_address)
                × (a.preserved ≡ ok tt))))
  unfolding switch_mode validate_switch validate_mode_switch validate_config_compatibility
      replace_handler start_new initialize
  switch_mode_failed a current new r e c failed = (
    ground (arith, c, failed),
    ground (arith, c, failed),
    ground (arith, c, failed, same_addr_iff current.network.bind_address new.network.bind_address),
  )

  switch_mode_config :
      (a : Answers F) (new : DaemonConfig fl) (r : ModeRouter fl)
      → let x = switch_mode {F = F} format a new r in
        (x.0.config ≡ r.config) ⊎ ((x.0.config ≡ some new) × (x.1 ≡ ok tt))
  unfolding switch_mode replace_handler start_new initialize
  switch_mode_config a new r = ground arith

  switch_mode-StaysNear :
      (a : Answers F) (c new : DaemonConfig fl) (r : ModeRouter fl)
      → StaysNear c r
      → StaysNear c (switch_mode {F = F} format a new r).0
  switch_mode-StaysNear a c new r (d, g, k, b, e) = elim (switch_mode_config a new r) [
    | inl same ↦ (d, same ∙ g, k, b, e)
    | inr (changed, good) ↦
        let (near, stored, address, _, _) = (switch_mode_ok_iff a d new r g).0 good in
        (
          new,
          changed,
          allowed-is_mining (get_mode_type d) (get_mode_type new) near ∙ k,
          sym address ∙ b,
          same_database_trans c.database d.database new.database e stored,
        )
  ]

  -- A switch or an update.
  abbrev pub IsChange : Call fl F → Type 0
  IsChange (initializes a c) = ⊥
  IsChange (switches a c) = Unit
  IsChange (updates a c) = Unit
  IsChange (shuts_down a) = ⊥

  step_router-StaysNear :
      (c : DaemonConfig fl) (r : ModeRouter fl) (call : Call fl F)
      → IsChange call
      → StaysNear c r
      → StaysNear c (step_router r call)
  unfolding step_router
  step_router-StaysNear c r (initializes a d) i n = elim i [ ]
  step_router-StaysNear c r (shuts_down a) i n = elim i [ ]
  step_router-StaysNear c r (switches a d) i n = switch_mode-StaysNear a c d r n
  step_router-StaysNear c r (updates a d) i n = elim (update_config_cases a d r) [
    | inl same ↦ subst (StaysNear c) (sym same) n
    | inr same ↦ subst (StaysNear c) (sym same) (switch_mode-StaysNear a c d r n)
  ]

  run_router-StaysNear :
      (c : DaemonConfig fl) (r : ModeRouter fl) (cs : List (Call fl F))
      → All IsChange cs
      → StaysNear c r
      → StaysNear c (run_router r cs)
  unfolding run_router
  run_router-StaysNear c r [] is n = n
  run_router-StaysNear c r (call ∷ cs) (i, is) n =
      run_router-StaysNear c (step_router r call) cs is (step_router-StaysNear c r call i n)

  -- No history of switches and updates takes a router with a configuration from the modes that mine,
  -- solo and pool, to the ones that pass work on, proxy and client, or back, or changes its address or
  -- its database.
  pub run_router_changes :
      (c : DaemonConfig fl) (r : ModeRouter fl) (cs : List (Call fl F))
      → r.config ≡ some c
      → All IsChange cs
      → StaysNear c (run_router r cs)
  run_router_changes c r cs g is =
      run_router-StaysNear c r cs is (c, g, refl, refl, same_database_refl c.database)
