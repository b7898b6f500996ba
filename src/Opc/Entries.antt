-- ===== src/Opc/Entries.antt =====
-- What one device's answer does to its entry in the list of bad connections, in analyzePingResults of
-- src/hw/OpcManager.cpp.
use nswconfiguration.Common.{
  ◌≡◌, refl, arith, String, str_eq, eq_iff, Bool, true, false, [], ◌∷◌, Option, none, some,
  if◌then◌else◌, Bool-cases, inl, inr,
}
use nswconfiguration.Common.Assoc.{Assoc, lookup, insert, lookup-insert}
use nswconfiguration.Opc.Manager.{
  ScaStatus, reachable, unreachable, server_offline, is_reachable, PingStatusMap, contains_key,
  erase, try_emplace, status_eq, add_bad, remove_bad, change_bad,
}

either_none {ℓ} : {V : Type ℓ} (b : Bool) → none ≡ (if◌then◌else◌ {A = Option V} b none none)
either_none true = refl
either_none false = refl

pub lookup-erase {ℓ} :
    {V : Type ℓ} (k j : String) (m : Assoc V)
    → lookup j (erase k m) ≡ (if str_eq k j then none else lookup j m)
unfolding lookup erase
lookup-erase k j [] = either_none (str_eq k j)
lookup-erase k j (e ∷ rest) =
    ground (arith, lookup-erase k j rest, eq_iff e.0 k, eq_iff e.0 j, eq_iff k j)

-- What the list has for a device that answered with the status.
abbrev pub listed : ScaStatus → Option ScaStatus
listed reachable = none
listed unreachable = some unreachable
listed server_offline = some server_offline

pub contains_key-none {ℓ} :
    {V : Type ℓ} (k : String) (m : Assoc V) → lookup k m ≡ none → contains_key k m ≡ false
unfolding contains_key
contains_key-none k m e = rw e refl

pub contains_key-some {ℓ} :
    {V : Type ℓ} (k : String) (m : Assoc V) (v : V) → lookup k m ≡ some v → contains_key k m ≡ true
unfolding contains_key
contains_key-some k m v e = rw e refl

pub lookup-insert_self :
    (k : String) (s : ScaStatus) (m : PingStatusMap) → lookup k (insert k s m) ≡ some s
lookup-insert_self k s m = ground (arith, lookup-insert k k s m, eq_iff k k)

pub lookup-erase_self : (k : String) (m : PingStatusMap) → lookup k (erase k m) ≡ none
lookup-erase_self k m = ground (arith, lookup-erase k k m, eq_iff k k)

pub add_bad_new :
    (name : String) (s : ScaStatus) (bad : PingStatusMap)
    → is_reachable s ≡ false
    → lookup name bad ≡ none
    → add_bad name s bad ≡ insert name s bad
unfolding add_bad try_emplace
add_bad_new name s bad down e = rw (contains_key-none name bad e, down) refl

pub add_bad_known :
    (name : String) (s old : ScaStatus) (bad : PingStatusMap)
    → lookup name bad ≡ some old
    → add_bad name s bad ≡ bad
unfolding add_bad
add_bad_known name s old bad e = rw (contains_key-some name bad old e) refl

pub add_bad_up :
    (name : String) (s : ScaStatus) (bad : PingStatusMap)
    → is_reachable s ≡ true
    → add_bad name s bad ≡ bad
unfolding add_bad
add_bad_up name s bad up = elim (Bool-cases (contains_key name bad)) [
  | inl c ↦ rw c refl
  | inr c ↦ rw (c, up) refl
]

pub remove_bad_down :
    (name : String) (s : ScaStatus) (bad : PingStatusMap)
    → is_reachable s ≡ false
    → remove_bad name s bad ≡ bad
unfolding remove_bad
remove_bad_down name s bad down = elim (Bool-cases (contains_key name bad)) [
  | inl c ↦ rw (c, down) refl
  | inr c ↦ rw c refl
]

pub remove_bad_absent :
    (name : String) (s : ScaStatus) (bad : PingStatusMap)
    → lookup name bad ≡ none
    → remove_bad name s bad ≡ bad
unfolding remove_bad
remove_bad_absent name s bad e = rw (contains_key-none name bad e) refl

pub remove_bad_up :
    (name : String) (s old : ScaStatus) (bad : PingStatusMap)
    → is_reachable s ≡ true
    → lookup name bad ≡ some old
    → remove_bad name s bad ≡ erase name bad
unfolding remove_bad
remove_bad_up name s old bad up e = rw (contains_key-some name bad old e, up) refl

pub change_bad_absent :
    (name : String) (s : ScaStatus) (bad : PingStatusMap)
    → lookup name bad ≡ none
    → change_bad name s bad ≡ bad
unfolding change_bad
change_bad_absent name s bad e = rw e refl

status_eq-true : (s old : ScaStatus) → status_eq s old ≡ true → s ≡ old
unfolding status_eq
status_eq-true reachable reachable h = refl
status_eq-true unreachable unreachable h = refl
status_eq-true server_offline server_offline h = refl
status_eq-true reachable unreachable h = cc
status_eq-true reachable server_offline h = cc
status_eq-true unreachable reachable h = cc
status_eq-true unreachable server_offline h = cc
status_eq-true server_offline reachable h = cc
status_eq-true server_offline unreachable h = cc

pub lookup-change_bad :
    (name asked : String) (s old : ScaStatus) (bad : PingStatusMap)
    → lookup name bad ≡ some old
    → lookup asked (change_bad name s bad)
      ≡ (if str_eq name asked then some s else lookup asked bad)
unfolding change_bad
lookup-change_bad name asked s old bad e =
    rw e
      (ground (arith, lookup-insert name asked s bad, eq_iff name asked, status_eq-true s old, e))

pub listed_up : (s : ScaStatus) → is_reachable s ≡ true → listed s ≡ none
unfolding is_reachable
listed_up reachable h = refl
listed_up unreachable h = cc
listed_up server_offline h = cc

pub listed_down : (s : ScaStatus) → is_reachable s ≡ false → listed s ≡ some s
unfolding is_reachable
listed_down reachable h = cc
listed_down unreachable h = refl
listed_down server_offline h = refl
