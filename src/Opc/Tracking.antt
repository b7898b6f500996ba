-- ===== src/Opc/Tracking.antt =====
-- Every bad connection of src/hw/OpcManager.cpp is an open one.
use nswconfiguration.Common.{
  ◌≡◌, refl, ap, ◌∙◌, sym, String, str_eq, eq_iff, Bool, true, Bool-cases, inl, inr, [], ◌∷◌, List,
  some, map, if◌then◌else◌,
}
use nswconfiguration.Common.Results.{Result, ok, err, at, >>=-eq-ok, ok-injective}
use nswconfiguration.Common.Assoc.{Assoc, lookup, insert, lookup_empty, lookup-cons}
use mathlib.Core.Path.{subst}
use nswconfiguration.Opc.Client.{OpcClient, Answers}
use nswconfiguration.Opc.Manager.{
  ScaStatus, OpcManager, done, contains_key, try_emplace, PingStatusMap, ping_connections,
  test_server_restart, do_clear, get_connection, add, exists, opened, analyze_ping_results,
  ping_loop, statuses, at_port, test_connection, bad_after,
}
use nswconfiguration.Opc.Pings.{bad_after_from, status_of}
use nswconfiguration.Opc.Restarts.{hand_out-threads}
use nswconfiguration.Opc.Steps.{Step, Steps, get, ping, restart, clear, here, next, initial}
use nswconfiguration.Opc.Ports.{
  contains_key-cons, at_port-insert, contains_key-try_emplace, at_port-try_emplace, lookup_no_port,
}

module _ {Client : Type 0} where
  -- The manager has a connection to the device.
  abbrev pub is_open : OpcManager Client → String → String → Bool
  is_open m port name = contains_key name (at_port port m.connections)

  -- A device that is listed as bad has a connection.
  abbrev pub IsTracked : OpcManager Client → Type 0
  IsTracked m =
      (port name : String) (s : ScaStatus)
      → status_of m port name ≡ some s
      → is_open m port name ≡ true

  statuses-open :
      (answers : Answers Client) (connections : Assoc Client) (name : String) (t : ScaStatus)
      {result : PingStatusMap}
      → statuses answers connections ≡ ok result
      → lookup name result ≡ some t
      → contains_key name connections ≡ true
  unfolding statuses
  statuses-open answers [] name t e h =
      cc (ap (lookup name) (ok-injective e), lookup_empty {V = ScaStatus} name)
  statuses-open answers ((other, connection) ∷ rest) name t e h =
      let (s, one, e') = >>=-eq-ok (test_connection answers other connection) _ e in
      let (others, run, e'') = >>=-eq-ok (statuses answers rest) _ e' in
      elim (Bool-cases (str_eq other name)) [
        | inl same ↦
            contains_key-cons name other connection rest
            ∙ ap (λ (b : Bool). if b then true else contains_key name rest) same
        | inr apart ↦
            contains_key-cons name other connection rest
            ∙ ap (λ (b : Bool). if b then true else contains_key name rest) apart
            ∙ statuses-open answers rest name t run (
                ap (λ (b : Bool). if b then some s else lookup name others) (sym apart)
                ∙ sym (lookup-cons name other s others)
                ∙ ap (lookup name) (ok-injective e'')
                ∙ h)
      ]

  analyze_ping_results-IsTracked :
      (answers : Answers Client) (port : String) (m : OpcManager Client) {result : PingStatusMap}
      → statuses answers (at_port port m.connections) ≡ ok result
      → IsTracked m
      → IsTracked (analyze_ping_results port result m)
  unfolding analyze_ping_results
  analyze_ping_results-IsTracked answers port m {result} run tracked asked name s e =
      elim (Bool-cases (str_eq port asked)) [
        | inl same ↦
            let here =
              sym (
                ap (lookup name) (
                  at_port-insert port asked bad m.bad_connections
                  ∙ ap (λ (b : Bool). if b then bad else at_port asked m.bad_connections) same))
              ∙ e in
            ap (λ p. is_open m p name) (sym ((eq_iff port asked).0 same))
            ∙ elim (bad_after_from name result (at_port port m.bad_connections) s here) [
              | inl (t, pinged) ↦
                  statuses-open answers (at_port port m.connections) name t run pinged
              | inr old ↦ tracked port name s old
            ]
        | inr apart ↦ tracked asked name s (
            sym (
              ap (lookup name) (
                at_port-insert port asked bad m.bad_connections
                ∙ ap (λ (b : Bool). if b then bad else at_port asked m.bad_connections) apart))
            ∙ e)
      ]
    where
      bad : PingStatusMap
      bad = bad_after result (at_port port m.bad_connections)

  ping_loop-IsTracked :
      (answers : Answers Client) (ports : List String) (m : OpcManager Client)
      {m' : OpcManager Client}
      → ping_loop answers ports m ≡ ok m'
      → IsTracked m
      → IsTracked m'
  unfolding ping_loop
  ping_loop-IsTracked answers [] m e tracked = subst IsTracked (ok-injective e) tracked
  ping_loop-IsTracked answers (port ∷ ports) m e tracked =
      let (result, run, rest) = >>=-eq-ok (statuses answers (at_port port m.connections)) _ e in
      ping_loop-IsTracked answers ports (analyze_ping_results port result m) rest
        (analyze_ping_results-IsTracked answers port m run tracked)

  test_server_restart-IsTracked :
      (server : String) (m : OpcManager Client) {m' : OpcManager Client}
      → test_server_restart server m ≡ ok m'
      → IsTracked m
      → IsTracked m'
  unfolding test_server_restart
  test_server_restart-IsTracked server m e tracked =
      let (conns, got, e') = >>=-eq-ok (at (lookup server m.connections)) _ e in
      let (bad, got', e'') = >>=-eq-ok (at (lookup server m.bad_connections)) _ e' in
      subst IsTracked (ok-injective e'') cleared
    where
      cleared : IsTracked (record m {
        connections = insert server [] m.connections;
        bad_connections = insert server [] m.bad_connections;
        reconnect_threads = insert server done m.reconnect_threads;
      })
      cleared port name s h = elim (Bool-cases (str_eq server port)) [
        | inl same ↦ cc (
          lookup_empty {V = ScaStatus} name,
          ap (lookup name) (
              at_port-insert server port [] m.bad_connections
              ∙ ap (λ (b : Bool). if b then [] else at_port port m.bad_connections) same),
          h,
        )
        | inr apart ↦
            ap (contains_key name) (
              at_port-insert server port [] m.connections
              ∙ ap (λ (b : Bool). if b then [] else at_port port m.connections) apart)
            ∙ tracked port name s (
                sym (
                  ap (lookup name) (
                    at_port-insert server port [] m.bad_connections
                    ∙ ap (λ (b : Bool). if b then [] else at_port port m.bad_connections) apart))
                ∙ h)
      ]

  -- getConnection keeps the list and the connections that are there.
  opened-open :
      (port name : String) (m : OpcManager Client) (r : Result Client) (asked device : String)
      → is_open m asked device ≡ true
      → is_open (opened port name m r).0 asked device ≡ true
  opened-open port name m (err e) asked device h = h
  opened-open port name m (ok client) asked device h = elim (Bool-cases (str_eq port asked)) [
    | inl same ↦
        ap (contains_key device) (
          at_port-insert port asked more m.connections
          ∙ ap (λ (b : Bool). if b then more else at_port asked m.connections) same)
        ∙ contains_key-try_emplace device name client (at_port port m.connections)
            (ap (λ p. is_open m p device) ((eq_iff port asked).0 same) ∙ h)
    | inr apart ↦
        ap (contains_key device) (
          at_port-insert port asked more m.connections
          ∙ ap (λ (b : Bool). if b then more else at_port asked m.connections) apart)
        ∙ h
  ]
    where
      more : Assoc Client
      more = try_emplace name client (at_port port m.connections)

  opened-bad :
      (port name : String) (m : OpcManager Client) (r : Result Client)
      → (opened port name m r).0.bad_connections ≡ m.bad_connections
  opened-bad port name m (ok c) = refl
  opened-bad port name m (err e) = refl

  add-IsTracked :
      (port name : String) (m : OpcManager Client) (r : Result Client)
      → IsTracked m
      → IsTracked
          (opened port name (record m { connections = try_emplace port [] m.connections }) r).0
  add-IsTracked port name m r tracked asked device s h =
      opened-open port name with_port r asked device (
        ap (contains_key device) (at_port-try_emplace port asked m.connections)
        ∙ tracked asked device s (
            ap (λ b. lookup device (at_port asked b)) (sym (opened-bad port name with_port r)) ∙ h))
    where
      with_port : OpcManager Client
      with_port = record m { connections = try_emplace port [] m.connections }

  unlisted-IsTracked : (m : OpcManager Client) → m.bad_connections ≡ [] → IsTracked m
  unlisted-IsTracked m e port name s h = cc (
    ap (λ b. lookup name (at_port port b)) e,
    lookup_no_port port name,
    lookup_empty {V = ScaStatus} name,
    h,
  )

module _ {Client : Type 0} ⦃opc : OpcClient Client⦄ where
  get_connection-IsTracked :
      (port name : String) (m : OpcManager Client)
      → IsTracked m
      → IsTracked (get_connection port name m).0
  unfolding get_connection add
  get_connection-IsTracked port name m tracked =
      subst IsTracked
        (sym
          (hand_out-threads port name (if exists port name m then (m, ok tt) else add port name m)))
        (elim (Bool-cases (exists port name m)) [
          | inl there ↦ rw there tracked
          | inr absent ↦ rw absent (add-IsTracked port name m (opc.connect port) tracked)
        ])

  Step-IsTracked : {m m' : OpcManager Client} → Step m m' → IsTracked m → IsTracked m'
  Step-IsTracked (get m port name) h = get_connection-IsTracked port name m h
  Step-IsTracked (ping answers m up e) h =
      unfold ping_connections in (ping_loop-IsTracked answers (map (λ x. x.0) m.connections) m e h)
  Step-IsTracked (restart back names m w e) h = test_server_restart-IsTracked back m e h
  Step-IsTracked (clear m) h = unlisted-IsTracked (do_clear m) (unfold do_clear in refl)

  Steps-IsTracked : {m m' : OpcManager Client} → Steps m m' → IsTracked m → IsTracked m'
  Steps-IsTracked here h = h
  Steps-IsTracked (next steps step) h = Step-IsTracked step (Steps-IsTracked steps h)

  -- Whatever calls are made of a new manager, in whatever order, with whatever answers: a device that
  -- is listed as bad has an open connection.
  pub is_open-listed :
      {m : OpcManager Client} (steps : Steps (initial Client) m) (port name : String)
      (s : ScaStatus)
      → status_of m port name ≡ some s
      → is_open m port name ≡ true
  is_open-listed steps = Steps-IsTracked steps (unlisted-IsTracked (initial Client) refl)
