-- ===== src/I2c/Fields.antt =====
-- One register of I2cMasterCodec::buildConfig of src/I2cMasterConfig.cpp, and one address.
use nswconfiguration.Common.{
  ℕ, ◌-◌, ◌^◌, ◌≤◌, ◌<◌, ◌≡◌, sym, ap, ◌∙◌, arith, String, str_eq, false, List, [], ◌∷◌, inl, inr,
  slice, length, take, drop, drop-append_right, slice-append_middle,
}
use nswconfiguration.Common.Results.{
  ok, err, ◌>>=◌, ◌>>◌, >>=-eq-ok, ok-injective, rethrow_bad_path, rethrow_bad_path-ok,
  missing_i2c_register, missing_i2c_address, out_of_range,
}
use nswconfiguration.Bits.{BitString, bits, length-bits, drop-bits}
use nswconfiguration.Stream.{stream, stream-cons}
use nswconfiguration.Ptree.{Ptree}
use nswconfiguration.Utility.{not_used, check_overflow, substr}
use nswconfiguration.Utility.BitStrings.{take_past}
use nswconfiguration.Utility.Overflow.{check_overflow-fits}
use nswconfiguration.I2c.Codec.{
  RegisterSize, size_of, low_string, register_value, register_field, address_bits,
}
use nswconfiguration.I2c.Layout.{At}
use mathlib.Core.Path.{subst}
use native.Mathlib.Decide.{dec_le}

-- The last characters of the bitset's text are the lowest bits.
low_string-bits : (width v size : ℕ) → size ≤ width → low_string width v size ≡ ok (bits size v)
unfolding low_string substr
low_string-bits width v size h = ground (arith, length-bits width v, tail)
  where
    tail : take width (drop (width - size) (bits width v)) ≡ bits size v
    tail =
        ap (λ (w : ℕ). take width (drop (width - size) (bits w v))) (omega arith)
        ∙ ap (take width) (drop-bits size (width - size) v)
        ∙ take_past width (bits size v) (omega (arith, length-bits size v))

low_string_wide : (width v size : ℕ) → width < size → low_string width v size ≡ err out_of_range
unfolding low_string
low_string_wide width v size h = ground arith

pub low_string-fits :
    (width v size : ℕ) {s : BitString}
    → low_string width v size ≡ ok s
    → (size ≤ width) × (s ≡ bits size v)
low_string-fits width v size e = elim (dec_le size width) [
  | yes h ↦ (h, cc (low_string-bits width v size h))
  | no h ↦ cc (low_string_wide width v size (omega arith))
]

module _ {Tree : Type 0} ⦃pt : Ptree Tree⦄ where
  -- What is written for a named register: its value, which fits.
  pub register_field-bits :
      (child : Tree) (r : RegisterSize) {s : BitString}
      → register_field child r ≡ ok s
      → str_eq r.0 not_used ≡ false
      → (v : ℕ) × (pt.get_unsigned child r.0 ≡ ok v) × (v < 2 ^ r.1) × (r.1 ≤ 32) × (s ≡ bits r.1 v)
  unfolding register_field
  register_field-bits child (name, size) e named =
      let (v, p, q) = >>=-eq-ok (register_value child (name, size)) _ e in
      let (w, pw, qw) =
        >>=-eq-ok (rethrow_bad_path (pt.get_unsigned child name) (missing_i2c_register name)) _
          (sym named_value ∙ p) in
      let (u, fits, same) = >>=-eq-ok (check_overflow size w name) _ qw in
      let (small, bits_eq) = low_string-fits 32 v size q in
      (
        w,
        rethrow_bad_path-ok _ _ pw,
        check_overflow-fits size w name fits,
        small,
        bits_eq ∙ ap (bits size) (sym (ok-injective same)),
      )
    where
      named_value : register_value child (name, size) ≡ (do
        v ← rethrow_bad_path (pt.get_unsigned child name) (missing_i2c_register name)
        check_overflow size v name
        ok v)
      named_value = unfold register_value in rw named

  pub length-register_field :
      (child : Tree) (r : RegisterSize) (s : BitString)
      → register_field child r ≡ ok s
      → length s ≡ size_of r
  unfolding register_field
  length-register_field child (name, size) s e =
      let (v, p, q) = >>=-eq-ok (register_value child (name, size)) _ e in
      ap length (low_string-fits 32 v size q).1 ∙ length-bits size v

  -- The register at a place of the vector is written there.
  pub stream-At :
      (child : Tree) (registers : List RegisterSize) (p : ℕ) (r : RegisterSize) {s : BitString}
      → At registers p r
      → stream (register_field child) registers ≡ ok s
      → register_field child r ≡ ok (slice p r.1 s)
  stream-At child [] p r a e = elim a [ ]
  stream-At child (q ∷ rest) p r {s} (inl (here, same)) e =
      let (text, tail, g, h, whole) = stream-cons (register_field child) q rest e in
      subst (λ x. register_field child x ≡ ok (slice p x.1 s)) same
        (g
          ∙ ap ok (
              sym (
                slice-append_middle p q.1 [] text tail here
                  (sym (length-register_field child q text g)))
              ∙ ap (slice p q.1) (sym whole)))
  stream-At child (q ∷ rest) p r (inr (p', later, a)) e =
      let (text, tail, g, h, whole) = stream-cons (register_field child) q rest e in
      stream-At child rest p' r a h
      ∙ ap ok (
          ap (take r.1) (
            sym (
              drop-append_right p p' text tail
                (omega (arith, length-register_field child q text g))))
          ∙ ap (slice p r.1) (sym whole))

  pub address_bits-stream :
      (config : Tree) (address : String) (registers : List RegisterSize) {s : BitString}
      → address_bits config address registers ≡ ok s
      → (child : Tree) × (pt.get_child config address ≡ ok child)
        × (stream (register_field child) registers ≡ ok s)
  unfolding address_bits
  address_bits-stream config address registers e =
      let (child, p, q) =
        >>=-eq-ok (rethrow_bad_path (pt.get_child config address) (missing_i2c_address address)) _
          e in
      (child, rethrow_bad_path-ok _ _ p, q)
