-- ===== src/Opc/Manager.antt =====
-- The state and the calls of nsw::OpcManager of src/hw/OpcManager.cpp. A std::map is an association
-- list; a thread that waits for a restart is waiting or done.
use nswconfiguration.Common.{
  String, str_eq, Bool, true, false, not, ◌&&◌, List, [], ◌∷◌, all, Option, none, some,
  if◌then◌else◌, map,
}
use nswconfiguration.Common.Results.{
  Result, ok, err, opc_connection_issue, opc_read_write_issue, at, ◌>>=◌,
}
use nswconfiguration.Common.Assoc.{Assoc, lookup, insert}
use nswconfiguration.Opc.Client.{OpcClient, Answers}

-- nsw::hw::ScaStatus
pub data ScaStatus : Type 0 where
  reachable unreachable server_offline : ScaStatus

unfoldable pub is_reachable : ScaStatus → Bool
is_reachable reachable = true
is_reachable unreachable = false
is_reachable server_offline = false

unfoldable pub is_offline : ScaStatus → Bool
is_offline reachable = false
is_offline unreachable = false
is_offline server_offline = true

abbrev pub PingStatusMap : Type 0
PingStatusMap = Assoc ScaStatus

-- A thread of testServerRestart.
pub data Restart : Type 0 where
  waiting : List String → Restart
  done : Restart

pub record OpcManager (Client : Type 0) : Type 0 where
  pub connections : Assoc (Assoc Client)
  pub bad_connections : Assoc PingStatusMap
  pub reconnect_threads : Assoc Restart
  -- The background thread has not been asked to stop.
  pub pinging : Bool

abbrev pub is_some {ℓ} : {V : Type ℓ} → Option V → Bool
is_some none = false
is_some (some v) = true

-- m.contains(key)
unfoldable pub contains_key {ℓ} : {V : Type ℓ} → String → Assoc V → Bool
contains_key k m = is_some (lookup k m)

-- m.erase(key)
unfoldable pub erase {ℓ} : {V : Type ℓ} → String → Assoc V → Assoc V
erase k [] = []
erase k (e ∷ rest) = let others = erase k rest in if str_eq e.0 k then others else e ∷ others

-- m.try_emplace(key, v)
unfoldable pub try_emplace {ℓ} : {V : Type ℓ} → String → V → Assoc V → Assoc V
unfolding contains_key
try_emplace k v m = if contains_key k m then m else insert k v m

-- The entry of a port, or none as an empty map.
abbrev pub entries {ℓ} : {V : Type ℓ} → Option (Assoc V) → Assoc V
entries none = []
entries (some m) = m

unfoldable pub at_port {ℓ} : {V : Type ℓ} → String → Assoc (Assoc V) → Assoc V
at_port port m = entries (lookup port m)

-- OpcManager::testConnection; an exception that it does not handle goes through.
unfoldable pub test_connection :
    {Client : Type 0} → Answers Client → String → Client → Result ScaStatus
test_connection answers name connection = elim (answers connection name) [
  | ok true ↦ ok reachable
  | ok false ↦ ok unreachable
  | err opc_connection_issue ↦ ok server_offline
  | err opc_read_write_issue ↦ ok server_offline
  | err issue ↦ err issue
]

unfoldable pub status_eq : ScaStatus → ScaStatus → Bool
status_eq reachable reachable = true
status_eq unreachable unreachable = true
status_eq server_offline server_offline = true
status_eq status other = false

-- The three tests of analyzePingResults for one device: it is added, removed and updated.
unfoldable pub add_bad : String → ScaStatus → PingStatusMap → PingStatusMap
add_bad name status bad =
    if not (contains_key name bad) && not (is_reachable status)
    then try_emplace name status bad
    else bad

unfoldable pub remove_bad : String → ScaStatus → PingStatusMap → PingStatusMap
remove_bad name status bad =
    if contains_key name bad && is_reachable status then erase name bad else bad

abbrev pub change_found : String → ScaStatus → PingStatusMap → Option ScaStatus → PingStatusMap
change_found name status bad none = bad
change_found name status bad (some old) =
    if not (status_eq status old) then insert name status bad else bad

unfoldable pub change_bad : String → ScaStatus → PingStatusMap → PingStatusMap
change_bad name status bad = change_found name status bad (lookup name bad)

unfoldable pub update_bad : String → ScaStatus → PingStatusMap → PingStatusMap
unfolding add_bad remove_bad change_bad
update_bad name status bad =
    change_bad name status (remove_bad name status (add_bad name status bad))

unfoldable pub update_loop : PingStatusMap → PingStatusMap → PingStatusMap
update_loop [] bad = bad
update_loop ((name, status) ∷ result) bad = update_loop result (update_bad name status bad)

-- The bad connections after analyzePingResults.
unfoldable pub bad_after : PingStatusMap → PingStatusMap → PingStatusMap
bad_after result bad = if all (λ e. is_reachable e.1) result then [] else update_loop result bad

module _ {Client : Type 0} where
  -- A thread is started when every device of the server is offline and no thread has been.
  unfoldable pub starts : String → PingStatusMap → OpcManager Client → Bool
  starts port result m =
      not (all (λ e. is_reachable e.1) result)
      && (all (λ e. is_offline e.1) result && not (contains_key port m.reconnect_threads))

  -- OpcManager::analyzePingResults
  unfoldable pub analyze_ping_results :
      String → PingStatusMap → OpcManager Client → OpcManager Client
  analyze_ping_results port result m = record m {
    bad_connections =
        insert port (bad_after result (at_port port m.bad_connections)) m.bad_connections;
    reconnect_threads =
        if starts port result m
        then insert port (waiting (map (λ e. e.0) (at_port port m.connections))) m.reconnect_threads
        else m.reconnect_threads;
  }

  -- The answers of the devices of a port, as pingConnections collects them.
  unfoldable pub statuses : Answers Client → Assoc Client → Result PingStatusMap
  statuses answers [] = ok []
  statuses answers ((name, connection) ∷ rest) = do
    status ← test_connection answers name connection
    others ← statuses answers rest
    ok ((name, status) ∷ others)

  -- The loop of pingConnections over the ports.
  unfoldable pub ping_loop :
      Answers Client → List String → OpcManager Client → Result (OpcManager Client)
  ping_loop answers [] m = ok m
  ping_loop answers (port ∷ ports) m = do
    result ← statuses answers (at_port port m.connections)
    ping_loop answers ports (analyze_ping_results port result m)

  -- One round of pingConnections, under the lock. An exception ends the thread, and the program.
  unfoldable pub ping_connections : Answers Client → OpcManager Client → Result (OpcManager Client)
  ping_connections answers m = ping_loop answers (map (λ e. e.0) m.connections) m

  -- The end of testServerRestart, under the lock: the server is back.
  unfoldable pub test_server_restart : String → OpcManager Client → Result (OpcManager Client)
  test_server_restart server m = do
    open_connections ← at (lookup server m.connections)
    bad ← at (lookup server m.bad_connections)
    ok (record m {
      connections = insert server [] m.connections;
      bad_connections = insert server [] m.bad_connections;
      reconnect_threads = insert server done m.reconnect_threads;
    })

  -- OpcManager::doClear: the background thread and the other threads are stopped and joined. It takes
  -- no lock: the step stands for a call that no getConnection runs beside, which would be a data race.
  unfoldable pub do_clear : OpcManager Client → OpcManager Client
  do_clear m = record {
    connections = [];
    bad_connections = [];
    reconnect_threads = map (λ e. (e.0, done)) m.reconnect_threads;
    pinging = false;
  }

  -- OpcManager::exists
  unfoldable pub exists : String → String → OpcManager Client → Bool
  exists port name m =
      contains_key port m.connections && contains_key name (at_port port m.connections)

  -- The connection of OpcManager::add, made or failed, in a manager that has the port.
  abbrev pub opened :
      String → String → OpcManager Client → Result Client → OpcManager Client × Result (Unit {0})
  opened port name m (err issue) = (m, err issue)
  opened port name m (ok client) = (
    record m {
      connections =
          insert port (try_emplace name client (at_port port m.connections)) m.connections;
    },
    ok tt,
  )

  -- OpcManager::add: the port has its entry also when the connection fails.
  unfoldable pub add :
      ⦃opc : OpcClient Client⦄
      → String
      → String
      → OpcManager Client
      → OpcManager Client × Result (Unit {0})
  add ⦃opc = opc⦄ port name m =
      opened port name (record m { connections = try_emplace port [] m.connections })
        (opc.connect port)

  -- m_connections.at(port).at(name), after the call of add if there was one.
  abbrev pub hand_out :
      String → String → OpcManager Client × Result (Unit {0}) → OpcManager Client × Result Client
  hand_out port name (m, err issue) = (m, err issue)
  hand_out port name (m, ok u) = (m, at (lookup name (at_port port m.connections)))

  -- OpcManager::getConnection, with the manager as it leaves it.
  unfoldable pub get_connection :
      ⦃opc : OpcClient Client⦄
      → String
      → String
      → OpcManager Client
      → OpcManager Client × Result Client
  get_connection port name m =
      hand_out port name (if exists port name m then (m, ok tt) else add port name m)
