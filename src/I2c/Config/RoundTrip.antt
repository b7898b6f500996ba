-- ===== src/I2c/Config/RoundTrip.antt =====
-- setRegisterValue and getRegisterValue of src/I2cMasterConfig.cpp over whole objects: a register
-- that is set is read back, and no other register of any address changes.
use nswconfiguration.Common.{
  ℕ, ◌+◌, ◌^◌, ◌%◌, ◌≤◌, ◌<◌, ◌≡◌, ◌≢◌, refl, sym, ap, ◌∙◌, arith, String, str_eq, Bool, true,
  false, List, Option, some, ◌⊎◌, inl, inr, slice, splice, length, eq_iff, length-splice,
  if◌then◌else◌, slice-splice_self, slice-splice_before, slice-splice_after,
}
use nswconfiguration.Common.Results.{Result, ok, err, ◌>>=◌, at}
use nswconfiguration.Common.Assoc.{lookup, lookup-insert, IsMap}
use nswconfiguration.Bits.{BitString, value, bits, length-bits, value-bits_fits}
use nswconfiguration.Stream.{total}
use nswconfiguration.Utility.{substr, stoul_binary}
use nswconfiguration.Utility.Fmt.{BinaryFormat}
use nswconfiguration.I2c.Codec.{RegisterSize, size_of, AddressRegisterMap, i2c_master_codec}
use nswconfiguration.I2c.Layout.{At, At-bound, At-disjoint}
use nswconfiguration.I2c.Config.{
  I2cMasterConfig, find_register, get_register_value, set_register_value, with_bits,
}
use nswconfiguration.I2c.Config.Places.{find_register-At}
use nswconfiguration.I2c.Config.Registers.{get_register_value_found, set_register_value_found}
use mathlib.Core.Option.{some-injective}
use mathlib.Core.Path.{subst, ap₂}
use text.Mathlib.TextPositions.{eq_refl}

-- An object over the register map `reg`: its codec is the map's, and each bit string is as long as
-- the registers of its address together.
pub record IsLaidOut (reg : AddressRegisterMap) (c : I2cMasterConfig) : Type 0 where
  pub same_codec : c.codec ≡ i2c_master_codec reg
  pub sized :
      (address : String) (text : BitString) (registers : List RegisterSize)
      → lookup address c.address_bitstream ≡ some text
      → lookup address reg ≡ some registers
      → length text ≡ total size_of registers

lookup-with_bits :
    (c : I2cMasterConfig) (address other : String) (text : BitString)
    → lookup other (with_bits c address text).address_bitstream
      ≡ (if str_eq address other then some text else lookup other c.address_bitstream)
unfolding with_bits
lookup-with_bits c address other text = lookup-insert address other text c.address_bitstream

codec-with_bits :
    (c : I2cMasterConfig) (address : String) (text : BitString)
    → (with_bits c address text).codec ≡ c.codec
unfolding with_bits
codec-with_bits c address text = refl

-- What getRegisterValue makes of a place and a bit string.
reading : Result (ℕ × ℕ) → Option BitString → Result ℕ
reading r o = do
  (p, n) ← r
  text ← at o
  tmp ← substr text p n
  v ← stoul_binary tmp
  ok (v % 2 ^ 32)

get_register_value-reading :
    (c : I2cMasterConfig) (address name : String)
    → get_register_value c address name
      ≡ reading (find_register c.codec address name) (lookup address c.address_bitstream)
unfolding get_register_value reading
get_register_value-reading c address name = refl

-- Two texts of one length that agree in a window read alike there.
reading_window :
    (q m : ℕ) (s t : BitString)
    → length s ≡ length t
    → slice q m s ≡ slice q m t
    → reading (ok (q, m)) (some s) ≡ reading (ok (q, m)) (some t)
unfolding reading substr
reading_window q m s t same window = rw (same, window)

module _ (reg : AddressRegisterMap) (keys : IsMap reg) (c : I2cMasterConfig)
    (laid : IsLaidOut reg c) where
  place :
      (address name : String) {p n : ℕ}
      → find_register c.codec address name ≡ ok (p, n)
      → (registers : List RegisterSize) × (lookup address reg ≡ some registers)
        × At registers p (name, n)
  place address name found =
      find_register-At reg address name keys
        (ap (λ k. find_register k address name) (sym laid.same_codec) ∙ found)

  module _ (address name : String) {p n : ℕ}
      (found : find_register c.codec address name ≡ ok (p, n)) (text : BitString)
      (here : lookup address c.address_bitstream ≡ some text) where
    inside : p + n ≤ length text
    inside =
        let (registers, at_reg, a) = place address name found in
        omega
          (arith, At-bound registers p (name, n) a, laid.sized address text registers here at_reg)

    module _ ⦃fmt : BinaryFormat⦄ (small : n ≤ 32) (v : ℕ) (fits : v < 2 ^ n) where
      new_text : BitString
      new_text = splice p n (bits n v) text

      done : set_register_value c address name v ≡ (with_bits c address new_text, ok tt)
      unfolding new_text
      done = set_register_value_found c address name found text here inside small v fits

      length-new_text : length new_text ≡ length text
      unfolding new_text
      length-new_text = length-splice p n (bits n v) text inside (length-bits n v)

      lookup_new :
          (other : String)
          → lookup other (set_register_value c address name v).0.address_bitstream
            ≡ (if str_eq address other then some new_text else lookup other c.address_bitstream)
      lookup_new other =
          ap (λ r. lookup other r.0.address_bitstream) done
          ∙ lookup-with_bits c address other new_text

      codec_new : (set_register_value c address name v).0.codec ≡ c.codec
      codec_new = ap (λ r. r.0.codec) done ∙ codec-with_bits c address new_text

      sized_new :
          (other : String) (b : Bool) (t : BitString) (registers : List RegisterSize)
          → str_eq address other ≡ b
          → (if b then some new_text else lookup other c.address_bitstream) ≡ some t
          → lookup other reg ≡ some registers
          → length t ≡ total size_of registers
      sized_new other true t registers same h at_reg =
          ap length (sym (some-injective new_text t h))
          ∙ length-new_text
          ∙ laid.sized other text registers
              (subst (λ k. lookup k c.address_bitstream ≡ some text) ((eq_iff address other).0 same)
                here)
              at_reg
      sized_new other false t registers differ h at_reg = laid.sized other t registers h at_reg

      -- Setting a register to a value that fits succeeds, and keeps the layout.
      pub set_register_value-IsLaidOut :
          ((set_register_value c address name v).1 ≡ ok tt)
          × IsLaidOut reg (set_register_value c address name v).0
      set_register_value-IsLaidOut = (
        ap (λ r. r.1) done,
        record {
          same_codec = codec_new ∙ laid.same_codec;
          sized = λ other t registers h at_reg.
              sized_new other _ t registers refl (sym (lookup_new other) ∙ h) at_reg;
        },
      )

      -- The register then reads as the value.
      pub get_register_value-set_register_value :
          0 < n → get_register_value (set_register_value c address name v).0 address name ≡ ok v
      get_register_value-set_register_value pos =
          get_register_value_found (set_register_value c address name v).0 address name
            (ap (λ k. find_register k address name) codec_new ∙ found) new_text
            (lookup_new address
              ∙ ap (λ b. if b then some new_text else lookup address c.address_bitstream)
                  (eq_refl address))
            (omega (arith, length-new_text, inside)) small pos
          ∙ ap ok (ap value window ∙ value-bits_fits n v fits)
        where
          window : slice p n new_text ≡ bits n v
          window =
              unfold new_text in (slice-splice_self p n (bits n v) text inside (length-bits n v))

      -- A register of another name at this address is in another window.
      other_window :
          (name' : String) (q m : ℕ)
          → name ≢ name'
          → find_register c.codec address name' ≡ ok (q, m)
          → slice q m new_text ≡ slice q m text
      unfolding new_text
      other_window name' q m other found' =
          let (registers, at_reg, a) = place address name found in
          let (registers', at_reg', a') = place address name' found' in
          let same = some-injective registers' registers (sym at_reg' ∙ at_reg) in
          elim (At-disjoint registers p q (name, n) (name', m) a
            (subst (λ l. At l q (name', m)) same a') other) [
              | inl h ↦ slice-splice_after p n (bits n v) text inside (length-bits n v) q m h
              | inr h ↦ slice-splice_before p n (bits n v) text inside (length-bits n v) q m h
            ]

      read_other :
          (address' name' : String) (b : Bool) (r : Result (ℕ × ℕ))
          → (address ≢ address') ⊎ (name ≢ name')
          → str_eq address address' ≡ b
          → find_register c.codec address' name' ≡ r
          → reading r (if b then some new_text else lookup address' c.address_bitstream)
            ≡ reading r (lookup address' c.address_bitstream)
      read_other address' name' false r other differ e = refl
      read_other address' name' true r (inl other) same e =
          absurd (other ((eq_iff address address').0 same))
      read_other address' name' true (err i) (inr other) same e = unfold reading in refl
      read_other address' name' true (ok (q, m)) (inr other) same e =
          let here' = (eq_iff address address').0 same in
          reading_window q m new_text text length-new_text
            (other_window name' q m other (ap (λ a. find_register c.codec a name') here' ∙ e))
          ∙ ap (reading (ok (q, m))) (sym here ∙ ap (λ a. lookup a c.address_bitstream) here')

      -- Every other register, of this address or another, reads as before.
      pub get_register_value-set_register_value_ne :
          (address' name' : String)
          → (address ≢ address') ⊎ (name ≢ name')
          → get_register_value (set_register_value c address name v).0 address' name'
            ≡ get_register_value c address' name'
      get_register_value-set_register_value_ne address' name' other =
          get_register_value-reading (set_register_value c address name v).0 address' name'
          ∙ ap₂ reading (ap (λ k. find_register k address' name') codec_new) (lookup_new address')
          ∙ read_other address' name' _ _ other refl refl
          ∙ sym (get_register_value-reading c address' name')
