-- ===== src/Runs/Masters.antt =====
-- A whole configuration of the ART core, its object and a setter on it.
use nswconfiguration.Common.{
  ◌≡◌, refl, str_eq, true, false, List, [], ◌∷◌, if◌then◌else◌, none, some,
}
use nswconfiguration.Common.Results.{Result, ok, err}
use nswconfiguration.Common.Assoc.{lookup, insert}
use nswconfiguration.Bits.{BitString, bits, test_bit}
use nswconfiguration.Stream.{stream}
use nswconfiguration.Text.{contains}
use nswconfiguration.Utility.{not_used, check_overflow, substr}
use nswconfiguration.I2c.Codec.{
  RegisterSize, AddressRegisterMap, i2c_master_codec, codec_loop, layout_loop, is_readonly,
  low_string, register_value, register_field, address_bits, build_loop, build_config,
}
use nswconfiguration.I2c.Config.{
  I2cMasterConfig, i2c_master_config, find_register, register_place, register_entry,
}
use nswconfiguration.I2c.Maps.{registers, art_core}
use nswconfiguration.Runs.Trees.{
  Tree, node, nil, trees, put_tree, add_tree, find, put_kids, add_kid,
}

-- The named registers of an address, each with the value 1.
unfoldable pub put_registers : List RegisterSize → Tree → Tree
put_registers [] t = t
put_registers ((name, size) ∷ rest) t =
    put_registers rest (if str_eq name not_used then t else put_tree t name 1)

unfoldable pub put_addresses : AddressRegisterMap → Tree → Tree
put_addresses [] t = t
put_addresses ((address, v) ∷ rest) t =
    put_addresses rest (add_tree t address (put_registers v (node none nil)))

abbrev pub art_core_tree : Tree
art_core_tree = put_addresses (registers art_core) (node none nil)

abbrev pub object_of : Result I2cMasterConfig → I2cMasterConfig
object_of (ok c) = c
object_of (err e) = record { codec = i2c_master_codec []; address_bitstream = [] }

abbrev pub art_core_object : I2cMasterConfig
art_core_object =
    object_of (i2c_master_config ⦃pt = trees⦄ art_core_tree (registers art_core) false)

-- The bits of the address 26: a register of six bits and one of two, each 1.
abbrev pub art_core_text : BitString
art_core_text = false ∷ false ∷ false ∷ false ∷ false ∷ true ∷ false ∷ true ∷ []

-- The object is made; the register of two bits stands at position 6, in the bits of its address.
pub art_core_facts :
    (i2c_master_config ⦃pt = trees⦄ art_core_tree (registers art_core) false ≡ ok art_core_object)
    × (find_register art_core_object.codec "26" "cfg_pattern_data_phi2[13:12]" ≡ ok (6, 2))
    × (lookup "26" art_core_object.address_bitstream ≡ some art_core_text)
unfolding put_addresses put_registers registers i2c_master_config build_config build_loop
    address_bits register_field register_value low_string is_readonly contains codec_loop
    i2c_master_codec layout_loop check_overflow substr stream bits test_bit find put_kids add_kid
    lookup insert find_register register_place register_entry
art_core_facts = (refl, refl, refl)
