-- ===== src/I2c/Config/Registers.antt =====
-- getRegisterValue and setRegisterValue of src/I2cMasterConfig.cpp at a register that is found.
use nswconfiguration.Common.{
  ℕ, zero, suc, refl, ◌∙◌, ◌++◌, drop, append-nil, ◌+◌, ◌^◌, ◌≤◌, ◌<◌, ◌≡◌, ap, arith, String, List,
  [], none, some, ◌==◌, if◌then◌else◌, slice, splice, length, length-slice,
}
use nswconfiguration.Common.Results.{ok, err, register_overflow, out_of_range}
use nswconfiguration.Common.Assoc.{Assoc, lookup}
use nswconfiguration.Bits.{BitString, value, bits, value-lt}
use nswconfiguration.Utility.{substr, replace, stoul_binary}
use nswconfiguration.Utility.Fmt.{BinaryFormat}
use nswconfiguration.Utility.BitStrings.{bit_string-eq-bits}
use nswconfiguration.Utility.Overflow.{check_overflow_passes, check_overflow_throws}
use nswconfiguration.I2c.Config.{
  I2cMasterConfig, find_register, get_register_value, set_register_value, entry, with_bits,
  replaced,
}
use native.Mathlib.Nat.{pow-le-pow_right, mod-eq_of_lt}

value_32 : (s : BitString) → length s ≤ 32 → value s < 2 ^ 32
value_32 s h = omega (arith, value-lt s, pow-le-pow_right {n = 2} (omega arith) h)

stoul_binary_short : (s : BitString) → 0 < length s → length s ≤ 32 → stoul_binary s ≡ ok (value s)
unfolding stoul_binary
stoul_binary_short s h k = ground (arith, value_32 s)

substr_fits {ℓ} :
    {A : Type ℓ} (s : List A) (p n : ℕ) → p ≤ length s → substr s p n ≡ ok (slice p n s)
unfolding substr
substr_fits s p n h = ground arith

replace_fits {ℓ} :
    {A : Type ℓ} (s : List A) (p n : ℕ) (t : List A)
    → p ≤ length s
    → replace s p n t ≡ ok (splice p n t s)
unfolding replace
replace_fits s p n t h = ground arith

entry_found :
    (m : Assoc BitString) (address : String) {text : BitString}
    → lookup address m ≡ some text
    → entry m address ≡ text
unfolding entry
entry_found m address h = rw (h, entry)

entry_absent :
    (m : Assoc BitString) (address : String) → lookup address m ≡ none → entry m address ≡ []
unfolding entry
entry_absent m address h = rw (h, entry)

drop_empty {ℓ} : {A : Type ℓ} (n : ℕ) → drop {A = A} n [] ≡ []
drop_empty zero = refl
drop_empty (suc n) = refl

replaced_empty :
    (c : I2cMasterConfig) (address : String) (p n : ℕ) (t : BitString)
    → replaced c address [] (replace [] p n t) ≡ (
        if p == 0
        then (with_bits c address t, ok tt)
        else (with_bits c address [], err out_of_range))
unfolding replaced replace
replaced_empty c address zero n t =
    ap (λ (s : BitString). (with_bits c address s, ok tt))
      (ap (λ (s : BitString). t ++ s) (drop_empty (0 + n)) ∙ append-nil t)
replaced_empty c address (suc p) n t = ground arith

module _ (c : I2cMasterConfig) (address name : String) {p n : ℕ}
    (found : find_register c.codec address name ≡ ok (p, n)) (text : BitString)
    (here : lookup address c.address_bitstream ≡ some text) (inside : p + n ≤ length text)
    (small : n ≤ 32) where
  pub get_register_value_found :
      0 < n → get_register_value c address name ≡ ok (value (slice p n text))
  unfolding get_register_value
  get_register_value_found pos =
      rw
        (
          found,
          here,
          substr_fits text p n (omega arith),
          stoul_binary_short (slice p n text) (omega (arith, length-slice p n text inside))
              (omega (arith, length-slice p n text inside)),
        )
        (ap ok
          (mod-eq_of_lt (value_32 (slice p n text) (omega (arith, length-slice p n text inside)))))

  pub set_register_value_found :
      ⦃fmt : BinaryFormat⦄ (v : ℕ)
      → v < 2 ^ n
      → set_register_value c address name v
        ≡ (with_bits c address (splice p n (bits n v) text), ok tt)
  unfolding set_register_value
  set_register_value_found v fits = rw (
    found,
    check_overflow_passes n v name fits,
    bit_string-eq-bits v n small,
    entry_found c.address_bitstream address here,
    replace_fits text p n (bits n v) (omega arith),
  )

module _ ⦃fmt : BinaryFormat⦄ (c : I2cMasterConfig) (address name : String) (v : ℕ) {p n : ℕ}
    (found : find_register c.codec address name ≡ ok (p, n)) where
  -- A value that is too wide is refused, and the object is unchanged.
  pub set_register_value_overflow :
      2 ^ n ≤ v → set_register_value c address name v ≡ (c, err (register_overflow name))
  unfolding set_register_value
  set_register_value_overflow wide = rw (found, check_overflow_throws n v name wide)

  -- Where the address has no bit string, an empty one is made for it, in which only the position 0
  -- exists.
  pub set_register_value_absent :
      n ≤ 32
      → v < 2 ^ n
      → lookup address c.address_bitstream ≡ none
      → set_register_value c address name v ≡ (
          if p == 0
          then (with_bits c address (bits n v), ok tt)
          else (with_bits c address [], err out_of_range))
  unfolding set_register_value replaced
  set_register_value_absent small fits absent =
      rw
        (
          found,
          check_overflow_passes n v name fits,
          bit_string-eq-bits v n small,
          entry_absent c.address_bitstream address absent,
        )
        (replaced_empty c address p n (bits n v))
