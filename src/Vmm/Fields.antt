-- ===== src/Vmm/Fields.antt =====
-- One global register of src/VMMCodec.cpp: its bits, and when they are written.
use nswconfiguration.Common.{
  ℕ, ◌^◌, ◌≤◌, ◌<◌, ◌≡◌, refl, sym, ap, ◌∙◌, arith, str_eq, true, false, List, reverse, length,
  length-reverse, any, if◌then◌else◌, Bool-cases, inl, inr, ◌⊎◌,
}
use nswconfiguration.Common.Results.{ok, err, ◌>>=◌, ◌>>◌, >>=-eq-ok, rethrow_bad_path-ok}
use nswconfiguration.Common.Results.{rethrow_bad_path, bad_path, missing_vmm_register}
use nswconfiguration.Common.Results.{register_overflow, out_of_range}
use native.Mathlib.Decide.{dec_le}
use nswconfiguration.Bits.{BitString, bits, length-bits}
use nswconfiguration.Stream.{stream}
use nswconfiguration.Ptree.{Ptree}
use nswconfiguration.Utility.{not_used, check_overflow, bit_string, reversed_bit_string}
use nswconfiguration.Utility.Fmt.{BinaryFormat}
use nswconfiguration.Utility.Overflow.{
  check_overflow-fits, check_overflow_passes, check_overflow_throws,
}
use nswconfiguration.Utility.BitStrings.{
  bit_string-eq-bits, bit_string_too_wide, reversed_bit_string-eq-bits,
}
use nswconfiguration.Vmm.Tables.{
  NameSize, global_name_size0, global_name_size1, bitreversed_registers,
}
use nswconfiguration.Vmm.Codec.{
  ordered_bits, GlobalRegisters, global0, global1, global_field, build_global_config,
}

-- The size of a row.
abbrev pub size_of : NameSize → ℕ
size_of row = row.1

-- The table that a bit string follows.
abbrev pub table_of : GlobalRegisters → List NameSize
table_of global0 = global_name_size0
table_of global1 = global_name_size1

-- The bits that stand for a value, in the order of the register.
unfoldable pub field_bits : NameSize → ℕ → BitString
field_bits (name, size) v =
    if any (str_eq name) bitreversed_registers then reverse (bits size v) else bits size v

length-field_bits : (row : NameSize) (v : ℕ) → length (field_bits row v) ≡ row.1
unfolding field_bits
length-field_bits (name, size) v = ground (arith, length-bits size v, length-reverse (bits size v))

module _ ⦃fmt : BinaryFormat⦄ where
  pub bit_string-fits :
      (v n : ℕ) {s : BitString} → bit_string v n ≡ ok s → (n ≤ 32) × (s ≡ bits n v)
  bit_string-fits v n e = elim (dec_le n 32) [
    | yes h ↦ (h, cc (bit_string-eq-bits v n h))
    | no h ↦ cc (bit_string_too_wide v n (omega arith))
  ]

  ordered_bits-eq-field_bits :
      (row : NameSize) (v : ℕ) → row.1 ≤ 32 → ordered_bits row.0 v row.1 ≡ ok (field_bits row v)
  unfolding ordered_bits field_bits
  ordered_bits-eq-field_bits (name, size) v h =
      ground (arith, bit_string-eq-bits v size h, reversed_bit_string-eq-bits v size h)

  ordered_bits-fits :
      (row : NameSize) (v : ℕ) {s : BitString}
      → ordered_bits row.0 v row.1 ≡ ok s
      → (row.1 ≤ 32) × (s ≡ field_bits row v)
  ordered_bits-fits row v e = elim (dec_le row.1 32) [
    | yes h ↦ (h, cc (ordered_bits-eq-field_bits row v h))
    | no h ↦ cc (too_wide (omega arith))
  ]
    where
      too_wide : 32 < row.1 → ordered_bits row.0 v row.1 ≡ err out_of_range
      too_wide h =
          unfold ordered_bits reversed_bit_string in ground (arith, bit_string_too_wide v row.1 h)

module _ {Tree : Type 0} ⦃pt : Ptree Tree⦄ ⦃fmt : BinaryFormat⦄ where
  pub as_stream :
      (config : Tree) (type : GlobalRegisters)
      → build_global_config config type ≡ stream (global_field config) (table_of type)
  unfolding build_global_config
  as_stream config global0 = refl
  as_stream config global1 = refl

  named_field :
      (config : Tree) (row : NameSize)
      → str_eq row.0 not_used ≡ false
      → global_field config row ≡ (do
        v ← rethrow_bad_path (pt.get_unsigned config row.0) (missing_vmm_register row.0)
        check_overflow row.1 v row.0
        ordered_bits row.0 v row.1)
  unfolding global_field
  named_field config row named = rw named

  -- A named register is written with its value, which fits; its bits are the value's.
  pub global_field-eq-field_bits :
      (config : Tree) (row : NameSize) {s : BitString}
      → global_field config row ≡ ok s
      → str_eq row.0 not_used ≡ false
      → (v : ℕ) × (pt.get_unsigned config row.0 ≡ ok v)
        × (v < 2 ^ row.1)
        × (row.1 ≤ 32)
        × (s ≡ field_bits row v)
  global_field-eq-field_bits config row e named =
      let (v, p, q) =
        >>=-eq-ok (rethrow_bad_path (pt.get_unsigned config row.0) _) _
          (sym (named_field config row named) ∙ e) in
      let (u, fits, r) = >>=-eq-ok (check_overflow row.1 v row.0) _ q in
      let (small, same) = ordered_bits-fits row v r in
      (v, rethrow_bad_path-ok _ _ p, check_overflow-fits row.1 v row.0 fits, small, same)

  pub length-global_field :
      (config : Tree) (row : NameSize) (s : BitString)
      → global_field config row ≡ ok s
      → length s ≡ size_of row
  length-global_field config row s e = elim (Bool-cases (str_eq row.0 not_used)) [
    | inl unused ↦ ap length (bit_string-fits 0 row.1 (blank unused)).1 ∙ length-bits row.1 0
    | inr named ↦
        let (v, p, fits, small, same) = global_field-eq-field_bits config row e named in
        ap length same ∙ length-field_bits row v
  ]
    where
      blank : str_eq row.0 not_used ≡ true → bit_string 0 row.1 ≡ ok s
      blank unused = unfold global_field in (rw unused at e)

  -- A register's bits can be written: it is unused, or its value is there and fits.
  abbrev pub IsWritable : Tree → NameSize → Type 0
  IsWritable config row =
      (row.1 ≤ 32)
      × ((str_eq row.0 not_used ≡ true)
          ⊎ ((v : ℕ) × (pt.get_unsigned config row.0 ≡ ok v) × (v < 2 ^ row.1)))

  pub global_field_total :
      (config : Tree) (row : NameSize)
      → IsWritable config row
      → (text : BitString) × (global_field config row ≡ ok text)
  global_field_total config row (small, inl unused) =
      (bits row.1 0, unfold global_field in rw unused (bit_string-eq-bits 0 row.1 small))
  global_field_total config row (small, inr (v, p, fits)) =
      elim (Bool-cases (str_eq row.0 not_used)) [
        | inl unused ↦
            (bits row.1 0, unfold global_field in rw unused (bit_string-eq-bits 0 row.1 small))
        | inr named ↦ (
          field_bits row v,
          named_field config row named
              ∙ rw (p, check_overflow_passes row.1 v row.0 fits)
                  (ordered_bits-eq-field_bits row v small),
        )
      ]

  pub global_field-IsWritable :
      (config : Tree) (row : NameSize)
      → (text : BitString) × (global_field config row ≡ ok text)
      → IsWritable config row
  global_field-IsWritable config row (text, e) = elim (Bool-cases (str_eq row.0 not_used)) [
    | inl unused ↦ (
      (bit_string-fits 0 row.1 {s = text} (unfold global_field in (rw unused at e))).0,
      inl unused,
    )
    | inr named ↦
        let (v, p, fits, small, same) = global_field-eq-field_bits config row e named in
        (small, inr (v, p, fits))
  ]

  pub global_field_missing :
      (config : Tree) (row : NameSize)
      → str_eq row.0 not_used ≡ false
      → pt.get_unsigned config row.0 ≡ err bad_path
      → global_field config row ≡ err (missing_vmm_register row.0)
  global_field_missing config row named e = named_field config row named ∙ rw e

  pub global_field_overflow :
      (config : Tree) (row : NameSize) (v : ℕ)
      → str_eq row.0 not_used ≡ false
      → pt.get_unsigned config row.0 ≡ ok v
      → 2 ^ row.1 ≤ v
      → global_field config row ≡ err (register_overflow row.0)
  global_field_overflow config row v named e wide =
      named_field config row named ∙ rw (e, check_overflow_throws row.1 v row.0 wide)
