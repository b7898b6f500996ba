-- ===== src/Opc/Pings.antt =====
-- The list of bad connections after analyzePingResults of src/hw/OpcManager.cpp, by device.
use nswconfiguration.Common.{
  ◌≡◌, ◌⊎◌, refl, sym, ap, ◌∙◌, arith, String, str_eq, eq_iff, Bool, true, false, all, [], ◌∷◌,
  Option, none, some, if◌then◌else◌, Bool-cases, Option-cases, inl, inr,
}
use nswconfiguration.Common.Assoc.{lookup, insert, lookup-insert, lookup-cons, lookup_empty, IsMap}
use nswconfiguration.Opc.Manager.{
  ScaStatus, is_reachable, PingStatusMap, OpcManager, erase, at_port, entries, update_bad,
  update_loop, bad_after, analyze_ping_results,
}
use nswconfiguration.Opc.Entries.{
  lookup-erase, listed, lookup-insert_self, lookup-erase_self, add_bad_new, add_bad_known,
  add_bad_up, remove_bad_down, remove_bad_absent, remove_bad_up, change_bad_absent,
  lookup-change_bad, listed_up, listed_down,
}

lookup-update_bad :
    (name asked : String) (s : ScaStatus) (bad : PingStatusMap)
    → lookup asked (update_bad name s bad)
      ≡ (if str_eq name asked then listed s else lookup asked bad)
unfolding update_bad
lookup-update_bad name asked s bad = elim (Bool-cases (is_reachable s)) [
  | inl up ↦ elim (Option-cases (lookup name bad)) [
    | inl e ↦
        rw
          (
            add_bad_up name s bad up,
            remove_bad_absent name s bad e,
            change_bad_absent name s bad e,
            listed_up s up,
          )
          (ground (arith, eq_iff name asked, e))
    | inr (old, e) ↦
        rw
          (
            add_bad_up name s bad up,
            remove_bad_up name s old bad up e,
            change_bad_absent name s (erase name bad) (lookup-erase_self name bad),
            listed_up s up,
          )
          (lookup-erase name asked bad)
  ]
  | inr down ↦ elim (Option-cases (lookup name bad)) [
    | inl e ↦
        rw
          (
            add_bad_new name s bad down e,
            remove_bad_down name s (insert name s bad) down,
            lookup-change_bad name asked s s (insert name s bad) (lookup-insert_self name s bad),
            listed_down s down,
          )
          (ground (arith, lookup-insert name asked s bad))
    | inr (old, e) ↦
        rw (add_bad_known name s old bad e, remove_bad_down name s bad down, listed_down s down)
          (lookup-change_bad name asked s old bad e)
  ]
]

-- What the list has for a device after the pings: by its answer, or as before when it has none.
abbrev pub after_pings : Option ScaStatus → Option ScaStatus → Option ScaStatus
after_pings none before = before
after_pings (some s) before = listed s

lookup-update_loop :
    (asked : String) (result bad : PingStatusMap)
    → IsMap result
    → lookup asked (update_loop result bad) ≡ after_pings (lookup asked result) (lookup asked bad)
unfolding update_loop
lookup-update_loop asked [] bad h =
    ap (λ o. after_pings o (lookup asked bad)) (sym (lookup_empty asked))
lookup-update_loop asked ((name, s) ∷ result) bad (fresh, h) =
    elim (Bool-cases (str_eq name asked)) [
      | inl same ↦
          rw
            (
              lookup-update_loop asked result (update_bad name s bad) h,
              lookup-update_bad name asked s bad,
              lookup-cons asked name s result,
              same,
              ap (λ t. lookup t result) (sym ((eq_iff name asked).0 same)) ∙ fresh,
            )
            refl
      | inr other ↦
          rw
            (
              lookup-update_loop asked result (update_bad name s bad) h,
              lookup-update_bad name asked s bad,
              lookup-cons asked name s result,
              other,
            )
            refl
    ]

-- The bad connections of the port, as analyzePingResults should leave them: a device that was pinged
-- is listed with its status unless it is reachable, and the others stay, but when all answered the
-- list is empty.
unfoldable pub should_list : PingStatusMap → Option ScaStatus → Option ScaStatus → Option ScaStatus
should_list result answer before =
    if all (λ e. is_reachable e.1) result then none else after_pings answer before

pub lookup-bad_after :
    (asked : String) (result bad : PingStatusMap)
    → IsMap result
    → lookup asked (bad_after result bad)
      ≡ should_list result (lookup asked result) (lookup asked bad)
unfolding bad_after should_list
lookup-bad_after asked result bad h = elim (Bool-cases (all (λ e. is_reachable e.1) result)) [
  | inl up ↦ rw up (lookup_empty asked)
  | inr down ↦ rw down (lookup-update_loop asked result bad h)
]

-- A listed device was pinged or was listed before.
update_loop_from :
    (asked : String) (result bad : PingStatusMap) (s : ScaStatus)
    → lookup asked (update_loop result bad) ≡ some s
    → ((t : ScaStatus) × (lookup asked result ≡ some t)) ⊎ (lookup asked bad ≡ some s)
unfolding update_loop
update_loop_from asked [] bad s e = inr e
update_loop_from asked ((name, t) ∷ result) bad s e = elim (Bool-cases (str_eq name asked)) [
  | inl same ↦ inl (
    t,
    lookup-cons asked name t result
        ∙ ap (λ (b : Bool). if b then some t else lookup asked result) same,
  )
  | inr other ↦ elim (update_loop_from asked result (update_bad name t bad) s e) [
    | inl (u, here) ↦ inl (
      u,
      lookup-cons asked name t result
          ∙ ap (λ (b : Bool). if b then some t else lookup asked result) other
          ∙ here,
    )
    | inr old ↦ inr (
        sym (
          lookup-update_bad name asked t bad
          ∙ ap (λ (b : Bool). if b then listed t else lookup asked bad) other)
        ∙ old)
  ]
]

pub bad_after_from :
    (asked : String) (result bad : PingStatusMap) (s : ScaStatus)
    → lookup asked (bad_after result bad) ≡ some s
    → ((t : ScaStatus) × (lookup asked result ≡ some t)) ⊎ (lookup asked bad ≡ some s)
unfolding bad_after
bad_after_from asked result bad s e = of_test (all (λ e. is_reachable e.1) result) e
  where
    of_test :
        (up : Bool)
        → lookup asked (if up then [] else update_loop result bad) ≡ some s
        → ((t : ScaStatus) × (lookup asked result ≡ some t)) ⊎ (lookup asked bad ≡ some s)
    of_test true e = cc (lookup_empty {V = ScaStatus} asked)
    of_test false e = update_loop_from asked result bad s e

module _ {Client : Type 0} where
  -- The abstract view of the manager: the status that is listed for a device of a port.
  abbrev pub status_of : OpcManager Client → String → String → Option ScaStatus
  status_of m port name = lookup name (at_port port m.bad_connections)

  -- After the answers of the devices of a port, each once, the list of bad connections is at this
  -- port what should_list says, and unchanged at every other port.
  pub analyze_ping_results-status_of :
      (port : String) (result : PingStatusMap) (m : OpcManager Client) (asked name : String)
      → IsMap result
      → status_of (analyze_ping_results port result m) asked name ≡ (
          if str_eq port asked
          then should_list result (lookup name result) (status_of m port name)
          else status_of m asked name)
  unfolding analyze_ping_results at_port
  analyze_ping_results-status_of port result m asked name h =
      elim (Bool-cases (str_eq port asked)) [
        | inl same ↦
            rw
              (
                lookup-insert port asked
                    (bad_after result (entries (lookup port m.bad_connections))) m.bad_connections,
                same,
              )
              (lookup-bad_after name result (entries (lookup port m.bad_connections)) h)
        | inr other ↦
            rw
              (
                lookup-insert port asked
                    (bad_after result (entries (lookup port m.bad_connections))) m.bad_connections,
                other,
              )
              refl
      ]
