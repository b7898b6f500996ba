-- ===== src/I2c/Config/Places.antt =====
-- The places that the look-ups of src/I2cMasterConfig.cpp find are places of the register vectors.
use nswconfiguration.Common.{ℕ, ◌≡◌, refl, sym, ◌∙◌, arith, String, List, Option, none, some}
use nswconfiguration.Common.Results.{ok, at}
use nswconfiguration.Common.Assoc.{lookup, IsMap}
use nswconfiguration.I2c.Codec.{RegisterSize, AddressRegisterMap, i2c_master_codec}
use nswconfiguration.I2c.Layout.{At, layout_loop-At}
use nswconfiguration.I2c.Positions.{
  written, positions_of, sizes_of, lookup-addr_reg_pos, lookup-addr_reg_size,
}
use nswconfiguration.I2c.Config.{register_entry, register_place, find_register}
use mathlib.Core.Path.{ap₂}

register_entry-ok :
    (address : String) (o s : Option ℕ) {p n : ℕ}
    → register_entry address o (at s) ≡ ok (p, n)
    → (o ≡ some p) × (s ≡ some n)
unfolding register_entry
register_entry-ok address none s e = cc
register_entry-ok address (some q) none e = cc
register_entry-ok address (some q) (some m) e = ground arith

register_place-At :
    (address name : String) (o : Option (List RegisterSize)) {p n : ℕ}
    → register_place address name (written positions_of o none) (written sizes_of o none)
      ≡ ok (p, n)
    → (registers : List RegisterSize) × (o ≡ some registers) × At registers p (name, n)
unfolding register_place
register_place-At address name none e = cc
register_place-At address name (some registers) {p} {n} e =
    let (hp, hn) =
      register_entry-ok address (lookup name (positions_of registers))
        (lookup name (sizes_of registers)) e in
    (registers, refl, layout_loop-At registers name p n hp hn)

-- A register that is found stands in the vector of its address.
pub find_register-At :
    (reg : AddressRegisterMap) (address name : String) {p n : ℕ}
    → IsMap reg
    → find_register (i2c_master_codec reg) address name ≡ ok (p, n)
    → (registers : List RegisterSize) × (lookup address reg ≡ some registers)
      × At registers p (name, n)
unfolding find_register
find_register-At reg address name keys e = register_place-At address name (lookup address reg) (
    sym (
      ap₂ (register_place address name) (lookup-addr_reg_pos reg keys address)
        (lookup-addr_reg_size reg keys address))
    ∙ e)
