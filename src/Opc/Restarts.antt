-- ===== src/Opc/Restarts.antt =====
-- The thread that waits for a server's restart in src/hw/OpcManager.cpp is started once.
use nswconfiguration.Common.{
  ◌≡◌, refl, ap, ◌∙◌, sym, arith, String, str_eq, eq_iff, Bool, true, false, Bool-cases, inl, inr,
  [], ◌∷◌, List, some, map, if◌then◌else◌,
}
use nswconfiguration.Common.Results.{Result, ok, err, at, >>=-eq-ok, ok-injective}
use nswconfiguration.Common.Assoc.{Assoc, lookup, lookup-insert}
use nswconfiguration.Opc.Client.{OpcClient, Answers}
use nswconfiguration.Opc.Manager.{
  OpcManager, Restart, waiting, done, contains_key, PingStatusMap, ping_connections,
  test_server_restart, do_clear, get_connection, add, exists, opened, hand_out,
  analyze_ping_results, starts, ping_loop, statuses, at_port,
}
use nswconfiguration.Opc.Entries.{contains_key-some}
use nswconfiguration.Opc.Steps.{Step, Steps, get, ping, restart, clear, here, next}

map-done-IsDone :
    (server : String) (threads : Assoc Restart)
    → lookup server threads ≡ some done
    → lookup server (map (λ e. (e.0, done)) threads) ≡ some done
unfolding lookup
map-done-IsDone server [] h = cc
map-done-IsDone server (e ∷ threads) h = ground (arith, map-done-IsDone server threads)

-- The manager that getConnection leaves is that of the call of add.
pub hand_out-threads :
    {Client : Type 0} (port name : String) (p : OpcManager Client × Result (Unit {0}))
    → (hand_out port name p).0 ≡ p.0
hand_out-threads port name (m, ok u) = refl
hand_out-threads port name (m, err e) = refl

opened-threads :
    {Client : Type 0} (port name : String) (m : OpcManager Client) (r : Result Client)
    → (opened port name m r).0.reconnect_threads ≡ m.reconnect_threads
opened-threads port name m (ok c) = refl
opened-threads port name m (err e) = refl

module _ {Client : Type 0} where
  -- The thread of the server has come to its end.
  abbrev pub IsDone : String → OpcManager Client → Type 0
  IsDone server m = lookup server m.reconnect_threads ≡ some done

  not_starts :
      (port : String) (result : PingStatusMap) (m : OpcManager Client)
      → contains_key port m.reconnect_threads ≡ true
      → starts port result m ≡ false
  unfolding starts
  not_starts port result m known = rw known (ground arith)

  analyze_ping_results-IsDone :
      (server port : String) (result : PingStatusMap) (m : OpcManager Client)
      → IsDone server m
      → IsDone server (analyze_ping_results port result m)
  unfolding analyze_ping_results
  analyze_ping_results-IsDone server port result m h = elim (Bool-cases (starts port result m)) [
    | inr idle ↦ rw idle h
    | inl starting ↦ elim (Bool-cases (str_eq port server)) [
      | inl same ↦ absurd (cc (not_starts port result m (known port same), starting))
      | inr other ↦ rw starting (
          lookup-insert port server (waiting (map (λ e. e.0) (at_port port m.connections)))
            m.reconnect_threads
          ∙ ap
              (λ (b : Bool).
                if b
                then some (waiting (map (λ e. e.0) (at_port port m.connections)))
                else lookup server m.reconnect_threads)
              other
          ∙ h)
    ]
  ]
    where
      known : (p : String) → str_eq p server ≡ true → contains_key p m.reconnect_threads ≡ true
      known p same =
          contains_key-some p m.reconnect_threads done
            (ap (λ t. lookup t m.reconnect_threads) ((eq_iff p server).0 same) ∙ h)

  ping_loop-IsDone :
      (server : String) (answers : Answers Client) (ports : List String) (m : OpcManager Client)
      {m' : OpcManager Client}
      → ping_loop answers ports m ≡ ok m'
      → IsDone server m
      → IsDone server m'
  unfolding ping_loop
  ping_loop-IsDone server answers [] m e h =
      ap (λ t. lookup server t.reconnect_threads) (sym (ok-injective e)) ∙ h
  ping_loop-IsDone server answers (port ∷ ports) m e h =
      let (result, got, rest) = >>=-eq-ok (statuses answers (at_port port m.connections)) _ e in
      ping_loop-IsDone server answers ports (analyze_ping_results port result m) rest
        (analyze_ping_results-IsDone server port result m h)

  test_server_restart-IsDone :
      (server back : String) (m : OpcManager Client) {m' : OpcManager Client}
      → test_server_restart back m ≡ ok m'
      → IsDone server m
      → IsDone server m'
  unfolding test_server_restart
  test_server_restart-IsDone server back m e h =
      let (conns, got, e') = >>=-eq-ok (at (lookup back m.connections)) _ e in
      let (bad, got', e'') = >>=-eq-ok (at (lookup back m.bad_connections)) _ e' in
      ap (λ t. lookup server t.reconnect_threads) (sym (ok-injective e''))
      ∙ (elim (Bool-cases (str_eq back server)) [
        | inl same ↦
            lookup-insert back server done m.reconnect_threads
            ∙ ap (λ (b : Bool). if b then some done else lookup server m.reconnect_threads) same
        | inr other ↦
            lookup-insert back server done m.reconnect_threads
            ∙ ap (λ (b : Bool). if b then some done else lookup server m.reconnect_threads) other
            ∙ h
      ])

  get_connection-IsDone :
      ⦃opc : OpcClient Client⦄ (server port name : String) (m : OpcManager Client)
      → IsDone server m
      → IsDone server (get_connection port name m).0
  unfolding get_connection add
  get_connection-IsDone ⦃opc = opc⦄ server port name m h =
      ap (λ t. lookup server t.reconnect_threads)
        (hand_out-threads port name (if exists port name m then (m, ok tt) else add port name m))
      ∙ elim (Bool-cases (exists port name m)) [
        | inl there ↦ rw there h
        | inr absent ↦
            rw absent (ap (lookup server) (opened-threads port name _ (opc.connect port)) ∙ h)
      ]

module _ {Client : Type 0} ⦃opc : OpcClient Client⦄ where
  Step-IsDone :
      (server : String) {m m' : OpcManager Client} → Step m m' → IsDone server m → IsDone server m'
  Step-IsDone server (get m port name) h = get_connection-IsDone server port name m h
  Step-IsDone server (ping answers m up e) h =
      unfold ping_connections in
      (ping_loop-IsDone server answers (map (λ x. x.0) m.connections) m e h)
  Step-IsDone server (restart back names m w e) h = test_server_restart-IsDone server back m e h
  Step-IsDone server (clear m) h = unfold do_clear in (map-done-IsDone server m.reconnect_threads h)

  -- Once the thread of a server has seen a restart, no call starts another: whatever the devices
  -- answer later, no thread waits for the next restart of this server.
  pub Steps-IsDone :
      (server : String) {m m' : OpcManager Client} → Steps m m' → IsDone server m → IsDone server m'
  Steps-IsDone server here h = h
  Steps-IsDone server (next steps step) h = Step-IsDone server step (Steps-IsDone server steps h)
