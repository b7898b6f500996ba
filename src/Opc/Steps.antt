-- ===== src/Opc/Steps.antt =====
-- The calls of nsw::OpcManager of src/hw/OpcManager.cpp in any order, as the threads make them.
use nswconfiguration.Common.{◌≡◌, String, true, [], List, some}
use nswconfiguration.Common.Results.{ok}
use nswconfiguration.Common.Assoc.{lookup}
use nswconfiguration.Opc.Client.{OpcClient, Answers}
use nswconfiguration.Opc.Manager.{
  OpcManager, waiting, ping_connections, test_server_restart, do_clear, get_connection,
}

-- OpcManager::OpcManager
abbrev pub initial : (Client : Type 0) → OpcManager Client
initial Client = record {
  connections = [];
  bad_connections = [];
  reconnect_threads = [];
  pinging = true;
}

module _ {Client : Type 0} ⦃opc : OpcClient Client⦄ where
  -- One call, with the answers of the devices at its time.
  pub data Step : OpcManager Client → OpcManager Client → Type 0 where
    get : (m : OpcManager Client) (port name : String) → Step m (get_connection port name m).0
    ping :
        (answers : Answers Client) (m : OpcManager Client) {m' : OpcManager Client}
        → m.pinging ≡ true
        → ping_connections answers m ≡ ok m'
        → Step m m'
    restart :
        (server : String) (names : List String) (m : OpcManager Client) {m' : OpcManager Client}
        → lookup server m.reconnect_threads ≡ some (waiting names)
        → test_server_restart server m ≡ ok m'
        → Step m m'
    clear : (m : OpcManager Client) → Step m (do_clear m)

  pub data Steps (m : OpcManager Client) : OpcManager Client → Type 0 where
    here : Steps m m
    next : {t u : OpcManager Client} → Steps m t → Step t u → Steps m u
