-- ===== src/Runs/OpcInstances.antt =====
-- The theorems on src/hw/OpcManager.cpp with a server that two devices are connected to.
use nswconfiguration.Common.{◌≡◌, refl, str_eq, true, [], ◌∷◌, some, if◌then◌else◌}
use nswconfiguration.Common.Results.{ok, err, opc_connection_issue}
use nswconfiguration.Common.Assoc.{lookup, insert, IsMap}
use mathlib.Core.Path.{subst}
use nswconfiguration.Opc.Client.{OpcClient, Answers}
use nswconfiguration.Opc.Manager.{
  reachable, unreachable, server_offline, OpcManager, done, waiting, PingStatusMap, get_connection,
  analyze_ping_results, ping_connections, test_server_restart, exists, add, try_emplace,
  contains_key, at_port, ping_loop, statuses, test_connection, starts, bad_after, is_reachable,
  is_offline, update_loop, update_bad, change_bad, status_eq,
}
use nswconfiguration.Opc.Pings.{status_of, should_list, analyze_ping_results-status_of}
use nswconfiguration.Opc.Steps.{Steps, get, ping, here, next, initial}
use nswconfiguration.Opc.Restarts.{IsDone, Steps-IsDone}
use nswconfiguration.Opc.Tracking.{is_open, is_open-listed}

-- A connection is always made, and has no state.
abbrev Session : Type 0
Session = Unit {0}

abbrev sessions : OpcClient Session
sessions = record { connect = λ port. ok tt }

-- Every device throws, as when the server is down; or every device answers.
abbrev offline : Answers Session
offline connection name = err opc_connection_issue

abbrev connected : OpcManager Session
connected = record {
  connections = ("p", ("d", tt) ∷ ("e", tt) ∷ []) ∷ [];
  bad_connections = [];
  reconnect_threads = [];
  pinging = true;
}

abbrev answered : PingStatusMap
answered = ("d", unreachable) ∷ ("e", reachable) ∷ []

one_each : IsMap answered
unfolding lookup
one_each = (refl, (refl, tt))

analyze_ping_results-status_of_example :
    status_of (analyze_ping_results "p" answered connected) "p" "d" ≡ (
      if str_eq "p" "p"
      then should_list answered (lookup "d" answered) (status_of connected "p" "d")
      else status_of connected "p" "d")
analyze_ping_results-status_of_example =
    analyze_ping_results-status_of "p" answered connected "p" "d" one_each

-- A device is connected, its server goes down, and comes back.
abbrev with_device : OpcManager Session
with_device = record {
  connections = ("p", ("d", tt) ∷ []) ∷ [];
  bad_connections = [];
  reconnect_threads = [];
  pinging = true;
}

abbrev without_server : OpcManager Session
without_server = record {
  connections = ("p", ("d", tt) ∷ []) ∷ [];
  bad_connections = ("p", ("d", server_offline) ∷ []) ∷ [];
  reconnect_threads = ("p", waiting ("d" ∷ [])) ∷ [];
  pinging = true;
}

abbrev restarted : OpcManager Session
restarted = record {
  connections = ("p", []) ∷ [];
  bad_connections = ("p", []) ∷ [];
  reconnect_threads = ("p", done) ∷ [];
  pinging = true;
}

connects : (get_connection ⦃opc = sessions⦄ "p" "d" (initial Session)).0 ≡ with_device
unfolding get_connection exists add try_emplace contains_key lookup insert at_port
connects = refl

goes_down : ping_connections offline with_device ≡ ok without_server
unfolding ping_connections ping_loop statuses test_connection analyze_ping_results starts bad_after
    is_reachable is_offline update_loop update_bad try_emplace contains_key lookup insert at_port
    change_bad status_eq
goes_down = refl

comes_back : test_server_restart "p" without_server ≡ ok restarted
unfolding test_server_restart lookup insert
comes_back = refl

waits : lookup "p" without_server.reconnect_threads ≡ some (waiting ("d" ∷ []))
unfolding lookup
waits = refl

to_device : Steps ⦃opc = sessions⦄ (initial Session) with_device
to_device =
    subst (Steps ⦃opc = sessions⦄ (initial Session)) connects
      (next here (get (initial Session) "p" "d"))

to_offline : Steps ⦃opc = sessions⦄ (initial Session) without_server
to_offline = next to_device (ping offline with_device refl goes_down)

listed_d : status_of without_server "p" "d" ≡ some server_offline
unfolding at_port lookup
listed_d = refl

is_open-listed_example : is_open without_server "p" "d" ≡ true
is_open-listed_example = is_open-listed ⦃opc = sessions⦄ to_offline "p" "d" server_offline listed_d

-- After the restart the device is connected again; the thread stays done.
abbrev again : OpcManager Session
again = (get_connection ⦃opc = sessions⦄ "p" "d" restarted).0

is_done : IsDone "p" restarted
unfolding lookup
is_done = refl

Steps-IsDone_example : lookup "p" again.reconnect_threads ≡ some done
Steps-IsDone_example =
    Steps-IsDone ⦃opc = sessions⦄ "p" {m = restarted} {m' = again}
      (next here (get restarted "p" "d")) is_done
