-- ===== src/Opc/Ports.antt =====
-- The ports and the devices of m_connections and m_badConnections of src/hw/OpcManager.cpp, under the
-- changes that its calls make.
use nswconfiguration.Common.{
  ◌≡◌, refl, ap, ◌∙◌, sym, arith, String, str_eq, eq_iff, true, false, Bool-cases, inl, inr, [],
  ◌∷◌, none, Option-cases, if◌then◌else◌,
}
use nswconfiguration.Common.Assoc.{Assoc, lookup, insert, lookup-insert, lookup_empty, lookup-cons}
use nswconfiguration.Opc.Manager.{ScaStatus, is_some, contains_key, try_emplace, entries, at_port}

pub contains_key-cons {ℓ} :
    {V : Type ℓ} (k j : String) (v : V) (m : Assoc V)
    → contains_key k ((j, v) ∷ m) ≡ (if str_eq j k then true else contains_key k m)
unfolding contains_key
contains_key-cons k j v m = elim (Bool-cases (str_eq j k)) [
  | inl same ↦ rw (lookup-cons k j v m, same) refl
  | inr other ↦ rw (lookup-cons k j v m, other) refl
]

contains_key-insert {ℓ} :
    {V : Type ℓ} (k j : String) (v : V) (m : Assoc V)
    → contains_key k (insert j v m) ≡ (if str_eq j k then true else contains_key k m)
unfolding contains_key
contains_key-insert k j v m = elim (Bool-cases (str_eq j k)) [
  | inl same ↦ rw (lookup-insert j k v m, same) refl
  | inr other ↦ rw (lookup-insert j k v m, other) refl
]

pub at_port-insert {ℓ} :
    {V : Type ℓ} (port asked : String) (v : Assoc V) (m : Assoc (Assoc V))
    → at_port asked (insert port v m) ≡ (if str_eq port asked then v else at_port asked m)
unfolding at_port
at_port-insert port asked v m = elim (Bool-cases (str_eq port asked)) [
  | inl same ↦ rw (lookup-insert port asked v m, same) refl
  | inr other ↦ rw (lookup-insert port asked v m, other) refl
]

contains_key-lookup {ℓ} :
    {V : Type ℓ} (k : String) (m : Assoc V) → contains_key k m ≡ false → lookup k m ≡ none
unfolding contains_key
contains_key-lookup k m h = elim (Option-cases (lookup k m)) [
  | inl e ↦ e
  | inr (v, e) ↦ cc (ap is_some e, h)
]

-- An entry stays when another is added.
pub contains_key-try_emplace {ℓ} :
    {V : Type ℓ} (k j : String) (v : V) (m : Assoc V)
    → contains_key k m ≡ true
    → contains_key k (try_emplace j v m) ≡ true
unfolding try_emplace
contains_key-try_emplace k j v m h = elim (Bool-cases (contains_key j m)) [
  | inl there ↦ rw there h
  | inr absent ↦ rw absent (ground (arith, contains_key-insert k j v m))
]

-- A port without devices counts as absent.
pub at_port-try_emplace {ℓ} :
    {V : Type ℓ} (port asked : String) (m : Assoc (Assoc V))
    → at_port asked (try_emplace port [] m) ≡ at_port asked m
unfolding try_emplace
at_port-try_emplace port asked m = elim (Bool-cases (contains_key port m)) [
  | inl there ↦ rw there refl
  | inr absent ↦ elim (Bool-cases (str_eq port asked)) [
    | inl same ↦
        rw (absent, at_port-insert port asked [] m, same)
          (sym (
            ap (λ p. at_port p m) (sym ((eq_iff port asked).0 same))
            ∙ at_port_absent (contains_key-lookup port m absent)))
    | inr apart ↦ rw (absent, at_port-insert port asked [] m, apart) refl
  ]
]
  where
    at_port_absent : lookup port m ≡ none → at_port port m ≡ []
    at_port_absent e = unfold at_port in (ap entries e)

pub lookup_no_port :
    (port name : String) → lookup name (at_port {V = ScaStatus} port []) ≡ lookup name []
unfolding at_port
lookup_no_port port name = ap (λ o. lookup {V = ScaStatus} name (entries o)) (lookup_empty port)
