-- ===== src/Vmm/ChannelMap.antt =====
-- buildChannelRegisterMap of src/VMMCodec.cpp: each named register has 64 values, and each fits.
use nswconfiguration.Common.{
  ℕ, zero, suc, ◌+◌, ◌^◌, ◌<◌, ◌==◌, ◌≡◌, sym, ap, ◌∙◌, arith, String, str_eq, true, false, List,
  [], ◌∷◌, ◌++◌, length, All, replicate, set, length-set, length-replicate, pow_two-pos,
  if◌then◌else◌, some, eq_iff, Bool-cases, inl, inr, not,
}
use nswconfiguration.Common.Results.{
  ok, ◌>>=◌, ◌>>◌, throw_if, >>=-eq-ok, ok-injective, vmm_codec_issue,
}
use nswconfiguration.Common.Assoc.{Assoc, lookup, insert, lookup-insert}
use mathlib.Core.Path.{subst}
use text.Mathlib.TextPositions.{eq_refl}
use nswconfiguration.Ptree.{Ptree}
use nswconfiguration.Utility.{not_used, check_overflow}
use nswconfiguration.Utility.Overflow.{check_overflow-fits}
use nswconfiguration.Vmm.Tables.{NameSize}
use nswconfiguration.Vmm.Codec.{
  num_ch_per_vmm, set_at, array_loop, single_value, array_values, channel_values, has_register,
  channel_register_loop,
}

-- The values of a register: one for each channel, each of the register's size.
pub record IsChannelArray (size : ℕ) (values : List ℕ) : Type 0 where
  pub count : length values ≡ 64
  pub fits : All (λ v. v < 2 ^ size) values

All-replicate : (n v size : ℕ) → v < 2 ^ size → All (λ w. w < 2 ^ size) (replicate n v)
All-replicate zero v size h = tt
All-replicate (suc n) v size h = (h, All-replicate n v size h)

All-set :
    (values : List ℕ) (i v size : ℕ)
    → v < 2 ^ size
    → All (λ w. w < 2 ^ size) values
    → All (λ w. w < 2 ^ size) (set values i v)
All-set [] i v size h a = tt
All-set (w ∷ values) zero v size h a = (h, a.1)
All-set (w ∷ values) (suc i) v size h a = (a.0, All-set values i v size h a.1)

set_at-ok :
    (values : List ℕ) (i v : ℕ) {values' : List ℕ}
    → set_at values i v ≡ ok values'
    → values' ≡ set values i v
unfolding set_at
set_at-ok values i v h = ground arith

set_at-IsChannelArray :
    (size i v : ℕ) (values : List ℕ) {values' : List ℕ}
    → v < 2 ^ size
    → IsChannelArray size values
    → set_at values i v ≡ ok values'
    → IsChannelArray size values'
set_at-IsChannelArray size i v values h a e =
    rw (set_at-ok values i v e)
      (record { count = length-set values i v ∙ a.count; fits = All-set values i v size h a.fits })

absent_cons :
    (name : String) (row : NameSize) (rows : List NameSize)
    → has_register name (row ∷ rows) ≡ false
    → (str_eq row.0 name ≡ false) × (has_register name rows ≡ false)
unfolding has_register
absent_cons name row rows h = ground (arith, eq_iff name row.0, eq_iff row.0 name)

module _ {Tree : Type 0} ⦃pt : Ptree Tree⦄ where
  array_loop-IsChannelArray :
      (name : String) (size : ℕ) (nodes : List (String × Tree)) (i : ℕ) (values : List ℕ) {j : ℕ}
      {values' : List ℕ}
      → IsChannelArray size values
      → array_loop name size nodes i values ≡ ok (j, values')
      → IsChannelArray size values'
  array_loop-IsChannelArray name size [] i values {values' = w} a e =
      subst (IsChannelArray size) (same e) a
    where
      same :
          {k : ℕ} {u : List ℕ}
          → array_loop {Tree = Tree} name size [] i values ≡ ok (k, u)
          → values ≡ u
      same e = unfold array_loop in cc
  array_loop-IsChannelArray name size (node ∷ nodes) i values {j = j} {values' = values'} a e =
      let (v, p, q) = >>=-eq-ok (pt.get_value node.1) _ (step e) in
      let (u, fits, r) = >>=-eq-ok (check_overflow size v name) _ q in
      let (next, t, rest) = >>=-eq-ok (set_at values i v) _ r in
      array_loop-IsChannelArray name size nodes (i + 1) next
        (set_at-IsChannelArray size i v values (check_overflow-fits size v name fits) a t) rest
    where
      step :
          array_loop name size (node ∷ nodes) i values ≡ ok (j, values')
          → (do
            v ← pt.get_value node.1
            check_overflow size v name
            next ← set_at values i v
            array_loop name size nodes (i + 1) next)
            ≡ ok (j, values')
      step e = unfold array_loop in e

  single_value-IsChannelArray :
      (config : Tree) (row : NameSize) {values : List ℕ}
      → single_value config row ≡ ok values
      → IsChannelArray row.1 values
  unfolding single_value
  single_value-IsChannelArray config (name, size) e =
      let (v, p, q) = >>=-eq-ok (pt.get_unsigned config name) _ e in
      let (u, fits, r) = >>=-eq-ok (check_overflow size v name) _ q in
      subst (IsChannelArray size) (ok-injective r) (record {
        count = length-replicate 64 v;
        fits = All-replicate 64 v size (check_overflow-fits size v name fits);
      })

  array_values-IsChannelArray :
      (ptemp : Tree) (row : NameSize) {values : List ℕ}
      → array_values ptemp row ≡ ok values
      → IsChannelArray row.1 values
  unfolding array_values
  array_values-IsChannelArray ptemp (name, size) {values} e =
      let ((i, vtemp), p, q) =
        >>=-eq-ok (array_loop name size (pt.children ptemp) 0 (replicate num_ch_per_vmm 0)) _ e in
      let (u, full, r) = >>=-eq-ok (throw_if (not (i == num_ch_per_vmm)) (vmm_codec_issue i)) _ q in
      subst (IsChannelArray size) (ok-injective r) (
        array_loop-IsChannelArray name size (pt.children ptemp) 0 (replicate num_ch_per_vmm 0)
          (record {
            count = length-replicate {A = ℕ} 64 0;
            fits = All-replicate 64 0 size (pow_two-pos size);
          })
          p)

  pub channel_values-IsChannelArray :
      (config : Tree) (row : NameSize) {values : List ℕ}
      → channel_values config row ≡ ok values
      → IsChannelArray row.1 values
  unfolding channel_values
  channel_values-IsChannelArray config row e =
      let (ptemp, p, q) = >>=-eq-ok (pt.get_child config row.0) _ e in
      elim (Bool-cases (length (pt.children ptemp) == 0)) [
        | inl single ↦ single_value-IsChannelArray config row (rw single at q)
        | inr array ↦ array_values-IsChannelArray ptemp row (rw array at q)
      ]

  channel_register_loop_unused :
      (config : Tree) (row : NameSize) (rows : List NameSize) (result : Assoc (List ℕ))
      → str_eq row.0 not_used ≡ true
      → channel_register_loop config (row ∷ rows) result ≡ channel_register_loop config rows result
  unfolding channel_register_loop
  channel_register_loop_unused config row rows result h = rw h

  channel_register_loop_named :
      (config : Tree) (row : NameSize) (rows : List NameSize) (result : Assoc (List ℕ))
      → str_eq row.0 not_used ≡ false
      → channel_register_loop config (row ∷ rows) result ≡ (
          channel_values config row >>= λ values.
          channel_register_loop config rows (insert row.0 values result))
  unfolding channel_register_loop
  channel_register_loop_named config row rows result h = rw h

  -- The loop leaves the names alone that it does not meet.
  channel_register_loop-absent :
      (config : Tree) (rows : List NameSize) (result : Assoc (List ℕ)) (name : String)
      {m : Assoc (List ℕ)}
      → has_register name rows ≡ false
      → channel_register_loop config rows result ≡ ok m
      → lookup name m ≡ lookup name result
  channel_register_loop-absent config [] result name {m} h e = ap (lookup name) (same e)
    where
      same : channel_register_loop config [] result ≡ ok m → m ≡ result
      same e = unfold channel_register_loop in cc
  channel_register_loop-absent config (row ∷ rows) result name h e =
      let (here, later) = absent_cons name row rows h in
      elim (Bool-cases (str_eq row.0 not_used)) [
        | inl unused ↦
            channel_register_loop-absent config rows result name later
              (sym (channel_register_loop_unused config row rows result unused) ∙ e)
        | inr named ↦
            let (values, p, q) =
              >>=-eq-ok (channel_values config row) _
                (sym (channel_register_loop_named config row rows result named) ∙ e) in
            channel_register_loop-absent config rows (insert row.0 values result) name later q
            ∙ lookup-insert row.0 name values result
            ∙ ap (λ b. if b then some values else lookup name result) here
      ]

  -- A register that no later row names holds the values of its row.
  pub channel_register_loop-row :
      (config : Tree) (front : List NameSize) (row : NameSize) (back : List NameSize)
      (result : Assoc (List ℕ)) {m : Assoc (List ℕ)}
      → str_eq row.0 not_used ≡ false
      → has_register row.0 back ≡ false
      → channel_register_loop config (front ++ (row ∷ back)) result ≡ ok m
      → (values : List ℕ) × (channel_values config row ≡ ok values) × (lookup row.0 m ≡ some values)
  channel_register_loop-row config [] row back result named once e =
      let (values, p, q) =
        >>=-eq-ok (channel_values config row) _
          (sym (channel_register_loop_named config row back result named) ∙ e) in
      (
        values,
        p,
        channel_register_loop-absent config back (insert row.0 values result) row.0 once q
            ∙ lookup-insert row.0 row.0 values result
            ∙ ap (λ b. if b then some values else lookup row.0 result) (eq_refl row.0),
      )
  channel_register_loop-row config (other ∷ front) row back result named once e =
      elim (Bool-cases (str_eq other.0 not_used)) [
        | inl unused ↦ channel_register_loop-row config front row back result named once (
            sym (channel_register_loop_unused config other (front ++ (row ∷ back)) result unused)
            ∙ e)
        | inr used ↦
            let (values, p, q) = >>=-eq-ok (channel_values config other) _ (
              sym (channel_register_loop_named config other (front ++ (row ∷ back)) result used)
              ∙ e) in
            channel_register_loop-row config front row back (insert other.0 values result) named
              once q
      ]
