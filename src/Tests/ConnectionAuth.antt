-- ===== src/Tests/ConnectionAuth.antt =====
-- The theorems on sv2-core/src/connection_auth.rs at small managers.
use stratum_v2_tools.Auth.System.{authenticate, authorize}
use stratum_v2_tools.Auth.Types.{get_all_permissions, view_shares}
use stratum_v2_tools.Common.{
  List, [], arith, count_by, if◌then◌else◌, length, nat_eq, none, not, refl, some, string_eq, ◌∷◌,
  ◌≡◌,
}
use stratum_v2_tools.Common.Map.{get, insert, modify, remove, values}
use stratum_v2_tools.Common.Words.{sub_u64}
use stratum_v2_tools.ConnectionAuth.Consistent.{IsConsistent}
use stratum_v2_tools.ConnectionAuth.Expiry.{cleanup_connections_lem, is_lost}
use stratum_v2_tools.ConnectionAuth.History.{
  Call, authenticate_after_disconnect, authenticates_connection, authorizes_connection,
  cleans_connections, disconnects, registers, run_manager, run_manager-new_manager,
}
use stratum_v2_tools.ConnectionAuth.Manager.{
  ConnectionAuthManager, attach_session, authenticate_client, authenticate_connection,
  authorize_connection, cleanup_connections, client_of, conclude, connected, disconnect_connection,
  get_connection_stats, is_authenticated, new_manager,
}
use stratum_v2_tools.ConnectionAuth.Stats.{get_connection_stats_lem}
use stratum_v2_tools.Error.{ok}
use stratum_v2_tools.Tests.Systems.{
  a_connection, a_manager, a_manager-IsConsistent, a_system, a_system-IsWellFormed, hash,
  no_foreign, open_manager,
}

abbrev a_morning : List Call
a_morning =
    registers 10 "c1" "10.0.0.1:3333" "sv2" "pool"
    ∷ authenticates_connection 20 20 21 "s1" "c1" "secret"
    ∷ authorizes_connection 30 30 "c1" view_shares
    ∷ cleans_connections 40 41
    ∷ disconnects "c1"
    ∷ []

run_manager-new_manager_example :
    IsConsistent (run_manager no_foreign hash (new_manager a_system) a_morning)
unfolding get new_manager
run_manager-new_manager_example =
    run_manager-new_manager no_foreign hash a_system a_morning (refl, (tt, (tt, (tt, (tt, tt)))))

-- The only connection is gone, and its session is stored.
abbrev left_behind : ConnectionAuthManager
left_behind = record open_manager {
  connection_sessions = ("connection", "s1") ∷ [];
  connection_metadata = [];
}

late_login :
    authenticate_client hash 20 20 21 "s1" "connection" "any" "10.0.0.1:3333"
      (disconnect_connection "connection" open_manager)
    ≡ (left_behind, connected "connection" "s1" get_all_permissions)
unfolding authenticate_client disconnect_connection get insert modify remove authenticate conclude
    attach_session
late_login = refl

authenticate_after_disconnect_example :
    (get "connection" left_behind.connection_sessions ≡ some "s1")
    × (get "connection" left_behind.connection_metadata ≡ none)
    × ((authorize_connection 30 30 "connection" view_shares left_behind).1
        ≡ (authorize 30 "s1" view_shares left_behind.auth_system).1)
    × ((get_connection_stats left_behind).unauthenticated_connections ≡ sub_u64 0 1)
unfolding get client_of disconnect_connection remove
authenticate_after_disconnect_example =
    authenticate_after_disconnect no_foreign hash 20 20 21 30 30 "connection" "10.0.0.1:3333" "any"
      "s1" "connection" "s1" view_shares get_all_permissions open_manager left_behind refl
      late_login

-- What authentication that is off answers `open_manager`.
abbrev let_in : ConnectionAuthManager
let_in = record open_manager {
  connection_sessions = ("connection", "s1") ∷ [];
  connection_metadata =
      ("connection", record a_connection { session_id = some "s1"; last_activity = 21 }) ∷ [];
}

open_login :
    authenticate_connection {F = no_foreign} hash 20 20 21 "s1" "connection" "any" open_manager
    ≡ ok (let_in, connected "connection" "s1" get_all_permissions)
unfolding authenticate_connection get insert modify authenticate client_of conclude attach_session
open_login = refl

get_connection_stats_lem_example :
    let s = get_connection_stats a_manager in
    let ds = values a_manager.connection_metadata in
    (s.total_connections ≡ length ds)
    × (s.authenticated_connections ≡ count_by is_authenticated ds)
    × (s.unauthenticated_connections ≡ count_by (λ d. not (is_authenticated d)) ds)
get_connection_stats_lem_example =
    get_connection_stats_lem a_manager a_manager-IsConsistent (omega arith)

cleanup_connections_lem_example :
    let after = cleanup_connections 4000 4001 a_manager in
    let lost = is_lost 4001 a_system (get "connection" a_manager.connection_sessions) in
    (get "connection" after.connection_sessions
      ≡ (if lost then none else get "connection" a_manager.connection_sessions))
    × (get "connection" after.connection_metadata
        ≡ (if lost then none else get "connection" a_manager.connection_metadata))
cleanup_connections_lem_example =
    cleanup_connections_lem 4000 4001 "connection" a_manager a_system-IsWellFormed
      a_manager-IsConsistent.sessions_map (omega arith)
