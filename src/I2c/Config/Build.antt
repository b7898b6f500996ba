-- ===== src/I2c/Config/Build.antt =====
-- I2cMasterCodec::buildConfig of src/I2cMasterConfig.cpp, read back by getRegisterValue.
use nswconfiguration.Common.{
  ℕ, ◌<◌, ◌≡◌, sym, ap, ◌∙◌, arith, String, str_eq, true, false, List, [], ◌∷◌, if◌then◌else◌, none,
  some, ◌⊎◌, inl, inr, Bool-cases, eq_iff,
}
use nswconfiguration.Common.Results.{ok, ◌>>=◌, >>=-eq-ok, ok-injective}
use nswconfiguration.Common.Assoc.{Assoc, lookup, insert, lookup-insert, lookup_empty, IsMap}
use nswconfiguration.Bits.{BitString, value, value-bits_fits}
use nswconfiguration.Stream.{length-stream}
use nswconfiguration.Ptree.{Ptree}
use nswconfiguration.Utility.{not_used}
use nswconfiguration.I2c.Codec.{
  RegisterSize, size_of, AddressRegisterMap, i2c_master_codec, is_readonly, address_bits,
  build_loop, build_config, register_field,
}
use nswconfiguration.I2c.Layout.{At-bound}
use nswconfiguration.I2c.Positions.{addr_reg-i2c_master_codec}
use nswconfiguration.I2c.Fields.{
  register_field-bits, length-register_field, stream-At, address_bits-stream,
}
use nswconfiguration.I2c.Config.{
  I2cMasterConfig, i2c_master_config, find_register, get_register_value,
}
use nswconfiguration.I2c.Config.Places.{find_register-At}
use nswconfiguration.I2c.Config.Registers.{get_register_value_found}
use nswconfiguration.I2c.Config.RoundTrip.{IsLaidOut}
use mathlib.Core.Option.{some-injective}
use mathlib.Core.Path.{ap₂}

abbrev object : AddressRegisterMap → Assoc BitString → I2cMasterConfig
object reg bitstreams = record { codec = i2c_master_codec reg; address_bitstream = bitstreams }

as_loop :
    {Tree : Type 0} ⦃pt : Ptree Tree⦄ (config : Tree) (reg : AddressRegisterMap)
    → i2c_master_config config reg false ≡ (build_loop config reg [] >>= λ m. ok (object reg m))
unfolding i2c_master_config build_config
as_loop config reg =
    ap (λ r. build_loop config r [] >>= λ m. ok (object reg m)) (addr_reg-i2c_master_codec reg)

untouched_rest :
    (key : String) (own : List RegisterSize) (rest : AddressRegisterMap) (address : String)
    → (lookup address ((key, own) ∷ rest) ≡ none) ⊎ (is_readonly address ≡ true)
    → (lookup address rest ≡ none) ⊎ (is_readonly address ≡ true)
unfolding lookup
untouched_rest key own rest address h = ground arith

untouched_key :
    (key : String) (own : List RegisterSize) (rest : AddressRegisterMap) (address : String)
    → is_readonly key ≡ false
    → (lookup address ((key, own) ∷ rest) ≡ none) ⊎ (is_readonly address ≡ true)
    → str_eq key address ≡ false
unfolding lookup
untouched_key key own rest address kept h = ground (arith, eq_iff key address)

first_or_later :
    (key : String) (own : List RegisterSize) (rest : AddressRegisterMap) (address : String)
    (registers : List RegisterSize)
    → lookup address ((key, own) ∷ rest) ≡ some registers
    → ((key ≡ address) × (own ≡ registers)) ⊎ (lookup address rest ≡ some registers)
unfolding lookup
first_or_later key own rest address registers h = ground (arith, eq_iff key address)

module _ {Tree : Type 0} ⦃pt : Ptree Tree⦄ (config : Tree) where
  build_loop_skip :
      (address : String) (registers : List RegisterSize) (rest : AddressRegisterMap)
      (m : Assoc BitString)
      → is_readonly address ≡ true
      → build_loop config ((address, registers) ∷ rest) m ≡ build_loop config rest m
  unfolding build_loop
  build_loop_skip address registers rest m h = rw h

  build_loop_write :
      (address : String) (registers : List RegisterSize) (rest : AddressRegisterMap)
      (m : Assoc BitString)
      → is_readonly address ≡ false
      → build_loop config ((address, registers) ∷ rest) m ≡ (
          address_bits config address registers >>= λ text.
          build_loop config rest (insert address text m))
  unfolding build_loop
  build_loop_write address registers rest m h = rw h

  -- Addresses that the loop does not meet, or that are read-only, keep their entry.
  build_loop-untouched :
      (reg : AddressRegisterMap) (m : Assoc BitString) (address : String) {m' : Assoc BitString}
      → (lookup address reg ≡ none) ⊎ (is_readonly address ≡ true)
      → build_loop config reg m ≡ ok m'
      → lookup address m' ≡ lookup address m
  build_loop-untouched [] m address {m'} h e = ap (lookup address) (sym (ok-injective (done e)))
    where
      done : build_loop config [] m ≡ ok m' → ok m ≡ ok m'
      done e = unfold build_loop in e
  build_loop-untouched ((key, registers) ∷ rest) m address h e =
      elim (Bool-cases (is_readonly key)) [
        | inl skipped ↦
            build_loop-untouched rest m address (untouched_rest key registers rest address h)
              (sym (build_loop_skip key registers rest m skipped) ∙ e)
        | inr kept ↦
            let (text, p, q) =
              >>=-eq-ok (address_bits config key registers) _
                (sym (build_loop_write key registers rest m kept) ∙ e) in
            build_loop-untouched rest (insert key text m) address
              (untouched_rest key registers rest address h) q
            ∙ lookup-insert key address text m
            ∙ ap (λ b. if b then some text else lookup address m)
                (untouched_key key registers rest address kept h)
      ]

  -- The others hold the bits of their registers.
  build_loop-present :
      (reg : AddressRegisterMap) (m : Assoc BitString) (address : String)
      (registers : List RegisterSize) {m' : Assoc BitString}
      → IsMap reg
      → is_readonly address ≡ false
      → lookup address reg ≡ some registers
      → build_loop config reg m ≡ ok m'
      → (text : BitString) × (address_bits config address registers ≡ ok text)
        × (lookup address m' ≡ some text)
  build_loop-present [] m address registers keys h at_reg e =
      cc (lookup_empty {V = List RegisterSize} address)
  build_loop-present ((key, own) ∷ rest) m address registers (fresh, keys) h at_reg e =
      elim (first_or_later key own rest address registers at_reg) [
        | inl (same, own_eq) ↦
            let (text, p, q) =
              >>=-eq-ok (address_bits config key own) _
                (sym (build_loop_write key own rest m (ap is_readonly same ∙ h)) ∙ e) in
            (
              text,
              sym (ap₂ (address_bits config) same own_eq) ∙ p,
              build_loop-untouched rest (insert key text m) address
                    (inl (sym (ap (λ k. lookup k rest) same) ∙ fresh)) q
                  ∙ lookup-insert key address text m
                  ∙ ap (λ b. if b then some text else lookup address m)
                      ((eq_iff key address).1 same),
            )
        | inr later ↦ elim (Bool-cases (is_readonly key)) [
          | inl skipped ↦
              build_loop-present rest m address registers keys h later
                (sym (build_loop_skip key own rest m skipped) ∙ e)
          | inr kept ↦
              let (text, p, q) =
                >>=-eq-ok (address_bits config key own) _
                  (sym (build_loop_write key own rest m kept) ∙ e) in
              build_loop-present rest (insert key text m) address registers keys h later q
        ]
      ]

  module _ (reg : AddressRegisterMap) (keys : IsMap reg) {c : I2cMasterConfig}
      (made : i2c_master_config config reg false ≡ ok c) where
    made_parts :
        (bitstreams : Assoc BitString) × (build_loop config reg [] ≡ ok bitstreams)
        × (c ≡ object reg bitstreams)
    made_parts =
        let (m, p, q) = >>=-eq-ok (build_loop config reg []) _ (sym (as_loop config reg) ∙ made) in
        (m, p, sym (ok-injective q))

    present :
        (address : String) (text : BitString) (registers : List RegisterSize)
        → lookup address c.address_bitstream ≡ some text
        → lookup address reg ≡ some registers
        → address_bits config address registers ≡ ok text
    present address text registers here at_reg =
        let (m, built, c_eq) = made_parts in
        let in_m = sym (ap (λ k. lookup address k.address_bitstream) c_eq) ∙ here in
        elim (Bool-cases (is_readonly address)) [
          | inl readonly ↦ cc (
            build_loop-untouched reg [] address (inr readonly) built,
            lookup_empty {V = BitString} address,
          )
          | inr kept ↦
              let (t, p, found) =
                build_loop-present reg [] address registers keys kept at_reg built in
              p ∙ ap ok (some-injective t text (sym found ∙ in_m))
        ]

    -- The object that the constructor makes from a configuration and a map, in which no address stands
    -- twice, has the codec of the map and bit strings of the length of their addresses.
    pub i2c_master_config-IsLaidOut : IsLaidOut reg c
    i2c_master_config-IsLaidOut = record {
      same_codec = ap (λ k. k.codec) made_parts.2;
      sized = λ address text registers here at_reg.
          let (child, p, q) =
            address_bits-stream config address registers
              (present address text registers here at_reg) in
          length-stream (register_field child) size_of registers (length-register_field child) q;
    }

    -- Each named register of an address that is not read-only reads as the configuration's value.
    pub get_register_value-i2c_master_config :
        (address name : String) {p n : ℕ}
        → is_readonly address ≡ false
        → str_eq name not_used ≡ false
        → find_register c.codec address name ≡ ok (p, n)
        → 0 < n
        → (child : Tree) × (v : ℕ) × (pt.get_child config address ≡ ok child)
          × (pt.get_unsigned child name ≡ ok v)
          × (get_register_value c address name ≡ ok v)
    get_register_value-i2c_master_config address name {p} {n} kept named found pos =
        let (m, built, c_eq) = made_parts in
        let (registers, at_reg, a) =
          find_register-At reg address name keys
            (ap (λ k. find_register k.codec address name) (sym c_eq) ∙ found) in
        let (text, bits_eq, in_m) =
          build_loop-present reg [] address registers keys kept at_reg built in
        let here = ap (λ k. lookup address k.address_bitstream) c_eq ∙ in_m in
        let (child, pc, written) = address_bits-stream config address registers bits_eq in
        let (v, pv, fits, small, same) =
          register_field-bits child (name, n) (stream-At child registers p (name, n) a written)
            named in
        let long =
          length-stream (register_field child) size_of registers (length-register_field child)
            written in
        (
          child,
          v,
          pc,
          pv,
          get_register_value_found c address name found text here
                (omega (arith, At-bound registers p (name, n) a, long)) small pos
              ∙ ap ok (ap value same ∙ value-bits_fits n v fits),
        )
