-- ===== src/I2c/Masters.antt =====
-- The configuration objects of src/I2cMasterConfig.cpp over the six register maps of
-- NSWConfiguration/I2cRegisterMappings.h.
use nswconfiguration.Common.{
  ℕ, ◌/◌, ◌^◌, ◌≤◌, ◌<◌, ◌≡◌, ◌≢◌, sym, ap, ◌∙◌, String, str_eq, false, List, Option, none, some,
  Bool, true, false, Bool-cases, leb, [], ◌⊎◌, inl, inr, ◌↔◌, ◌==◌, arith, refl, length,
  if◌then◌else◌,
}
use nswconfiguration.Common.Results.{Result, ok, err, out_of_range}
use nswconfiguration.Common.Assoc.{lookup}
use nswconfiguration.Bits.{BitString, bits}
use nswconfiguration.Stream.{total}
use nswconfiguration.Ptree.{Ptree}
use nswconfiguration.Utility.{not_used, string_to_byte_vector, vector_to_bit_string}
use nswconfiguration.Utility.Fmt.{BinaryFormat}
use nswconfiguration.Utility.Bytes.{
  vector_to_bit_string-string_to_byte_vector, length-string_to_byte_vector,
}
use nswconfiguration.I2c.Codec.{RegisterSize, size_of, is_readonly}
use nswconfiguration.I2c.Config.{
  I2cMasterConfig, i2c_master_config, find_register, get_register_value, set_register_value,
  with_bits,
}
use nswconfiguration.I2c.Config.Registers.{set_register_value_overflow, set_register_value_absent}
use nswconfiguration.I2c.Config.Places.{find_register-At}
use nswconfiguration.I2c.Config.RoundTrip.{
  IsLaidOut, set_register_value-IsLaidOut, get_register_value-set_register_value,
  get_register_value-set_register_value_ne,
}
use nswconfiguration.I2c.Config.Build.{
  i2c_master_config-IsLaidOut, get_register_value-i2c_master_config,
}
use nswconfiguration.I2c.Maps.{Master, registers}
use nswconfiguration.I2c.Maps.WellFormed.{IsMap-registers, size-registers, whole_bytes-registers}

module _ (m : Master) (c : I2cMasterConfig) (laid : IsLaidOut (registers m) c) where
  found_size :
      (address name : String) {p n : ℕ}
      → find_register c.codec address name ≡ ok (p, n)
      → (0 < n) × (n ≤ 32)
  found_size address name {p} {n} found =
      let (v, at_reg, a) =
        find_register-At (registers m) address name (IsMap-registers m)
          (ap (λ k. find_register k address name) (sym laid.same_codec) ∙ found) in
      size-registers m address v p (name, n) at_reg a

  module _ ⦃fmt : BinaryFormat⦄ (address name : String) {p n : ℕ}
      (found : find_register c.codec address name ≡ ok (p, n)) (v : ℕ) where
    returns_absent :
        lookup address c.address_bitstream ≡ none
        → v < 2 ^ n
        → (set_register_value c address name v).1 ≡ (if p == 0 then ok tt else err out_of_range)
    returns_absent here fits =
        ap (λ r. r.1)
          (set_register_value_absent c address name v found (found_size address name found).1 fits
            here)
        ∙ second (p == 0)
      where
        second :
            (b : Bool)
            → (if◌then◌else◌ {A = I2cMasterConfig × Result (Unit {0})} b
                (with_bits c address (bits n v), ok tt)
                (with_bits c address [], err out_of_range)).1
              ≡ (if b then ok tt else err out_of_range)
        second true = refl
        second false = refl

    succeeds :
        (o : Option BitString)
        → lookup address c.address_bitstream ≡ o
        → v < 2 ^ n
        → ((set_register_value c address name v).1 ≡ ok tt) ↔ ((o ≢ none) ⊎ (p ≡ 0))
    succeeds none here fits =
        let returns = returns_absent here fits in
        (
          λ e. inr (ground (arith, returns, e)),
          λ h. elim h [
            | inl some_text ↦ absurd (some_text refl)
            | inr first ↦ ground (arith, returns)
          ],
        )
    succeeds (some text) here fits = (
      λ e. inl (λ no_text. cc),
      λ h.
          (set_register_value-IsLaidOut (registers m) (IsMap-registers m) c laid address name found
            text here (found_size address name found).1 v fits).0,
    )

    in_width : (set_register_value c address name v).1 ≡ ok tt → v < 2 ^ n
    in_width e = elim (Bool-cases (leb (2 ^ n) v)) [
      | inl wide ↦
          let refused = set_register_value_overflow c address name v found (ground (arith, wide)) in
          cc (ap (λ r. r.1) refused, e)
      | inr fits ↦ ground (arith, fits)
    ]

    -- In an object laid out by a register map, setRegisterValue of a register that is found returns
    -- exactly if the value fits the register and the address has a bit string or the register is the
    -- first of its address.
    pub set_register_value-ok_iff :
        ((set_register_value c address name v).1 ≡ ok tt)
        ↔ ((v < 2 ^ n) × ((lookup address c.address_bitstream ≢ none) ⊎ (p ≡ 0)))
    set_register_value-ok_iff = (
      λ e. let fits = in_width e in (fits, (succeeds _ refl fits).0 e),
      λ (fits, place). (succeeds _ refl fits).1 place,
    )

  module _ ⦃fmt : BinaryFormat⦄ (address name : String) {p n : ℕ}
      (found : find_register c.codec address name ≡ ok (p, n)) (text : BitString)
      (here : lookup address c.address_bitstream ≡ some text) (v : ℕ) (fits : v < 2 ^ n) where
    -- In an object laid out by a register map, with a bit string at the address, setting a register
    -- that is found to a value that fits it does not throw; the register then reads as the value, and
    -- the object is still laid out by the map.
    pub set_register_value_reads :
        ((set_register_value c address name v).1 ≡ ok tt)
        × (get_register_value (set_register_value c address name v).0 address name ≡ ok v)
        × IsLaidOut (registers m) (set_register_value c address name v).0
    set_register_value_reads =
        let (pos, small) = found_size address name found in
        let (done, laid') =
          set_register_value-IsLaidOut (registers m) (IsMap-registers m) c laid address name found
            text here small v fits in
        (
          done,
          get_register_value-set_register_value (registers m) (IsMap-registers m) c laid address
              name found text here small v fits pos,
          laid',
        )

    -- In an object laid out by a register map, with a bit string at the address, setting a register
    -- that is found to a value that fits it leaves what each other pair of address and register reads as.
    pub set_register_value_frame :
        (address' name' : String)
        → (address ≢ address') ⊎ (name ≢ name')
        → get_register_value (set_register_value c address name v).0 address' name'
          ≡ get_register_value c address' name'
    set_register_value_frame address' name' other =
        get_register_value-set_register_value_ne (registers m) (IsMap-registers m) c laid address
          name found text here (found_size address name found).1 v fits address' name' other

  -- In an object laid out by a register map, the bit string of an address fills whole bytes, an eighth
  -- of the address's size, and comes back from them.
  pub bytes-address_bitstream :
      ⦃fmt : BinaryFormat⦄ (address : String) (v : List RegisterSize) (text : BitString)
      → lookup address (registers m) ≡ some v
      → lookup address c.address_bitstream ≡ some text
      → (length (string_to_byte_vector text) ≡ total size_of v / 8)
        × (vector_to_bit_string (string_to_byte_vector text) false ≡ text)
  bytes-address_bitstream address v text at_reg here =
      let long = laid.sized address text v here at_reg ∙ whole_bytes-registers m address v at_reg in
      (
        length-string_to_byte_vector (total size_of v / 8) text long,
        vector_to_bit_string-string_to_byte_vector (total size_of v / 8) text long,
      )

-- In the object that the constructor makes from a configuration and a register map, each register
-- that is found, not unused and of an address that is not read-only, has a value in the configuration
-- and reads as it.
pub i2c_master_config_reads :
    {Tree : Type 0} ⦃pt : Ptree Tree⦄ (m : Master) (config : Tree) {c : I2cMasterConfig}
    → i2c_master_config config (registers m) false ≡ ok c
    → (address name : String) {p n : ℕ} → is_readonly address ≡ false
    → str_eq name not_used ≡ false
    → find_register c.codec address name ≡ ok (p, n)
    → (child : Tree) × (v : ℕ) × (pt.get_child config address ≡ ok child)
      × (pt.get_unsigned child name ≡ ok v)
      × (get_register_value c address name ≡ ok v)
i2c_master_config_reads m config {c} made address name kept named found =
    let laid = i2c_master_config-IsLaidOut config (registers m) (IsMap-registers m) made in
    get_register_value-i2c_master_config config (registers m) (IsMap-registers m) made address name
      kept named found (found_size m c laid address name found).0
