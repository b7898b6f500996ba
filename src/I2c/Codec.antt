-- ===== src/I2c/Codec.antt =====
-- nsw::I2cMasterCodec of src/I2cMasterConfig.cpp, with the types of NSWConfiguration/Types.h. A
-- std::map keeps its keys sorted; an association list stands for it in that order.
use nswconfiguration.Common.{
  ℕ, ◌+◌, ◌-◌, ltb, String, str_eq, Bool, List, [], ◌∷◌, map, if◌then◌else◌, none, some,
}
use nswconfiguration.Common.Results.{Result, ok, err, ◌>>=◌, ◌>>◌, throw_if, at, rethrow_bad_path}
use nswconfiguration.Common.Results.{
  out_of_range, missing_i2c_address, missing_i2c_register, no_such_i2c_address,
  write_to_readonly_register,
}
use nswconfiguration.Common.Assoc.{Assoc, lookup, insert}
use nswconfiguration.Bits.{BitString, bits}
use nswconfiguration.Stream.{stream, total}
use nswconfiguration.Text.{contains}
use nswconfiguration.Ptree.{Ptree}
use nswconfiguration.Utility.{not_used, check_overflow, substr}

-- {register name, register size in bits}
abbrev pub RegisterSize : Type 0
RegisterSize = String × ℕ

abbrev pub AddressRegisterMap : Type 0
AddressRegisterMap = Assoc (List RegisterSize)

abbrev pub size_of : RegisterSize → ℕ
size_of r = r.1

pub record I2cMasterCodec : Type 0 where
  pub addr_reg : AddressRegisterMap
  pub addr_size : Assoc ℕ
  pub addr_reg_pos : Assoc (Assoc ℕ)
  pub addr_reg_size : Assoc (Assoc ℕ)

-- The inner loop of calculateSizesAndPositions: unused bits take room and have no name.
unfoldable pub layout_loop : List RegisterSize → ℕ → Assoc ℕ → Assoc ℕ → Assoc ℕ × Assoc ℕ
layout_loop [] pos positions sizes = (positions, sizes)
layout_loop ((name, size) ∷ rest) pos positions sizes =
    layout_loop rest (pos + size)
      (if str_eq name not_used then positions else insert name pos positions)
      (if str_eq name not_used then sizes else insert name size sizes)

-- The outer loop of calculateSizesAndPositions.
unfoldable pub codec_loop : AddressRegisterMap → I2cMasterCodec → I2cMasterCodec
unfolding layout_loop
codec_loop [] codec = codec
codec_loop ((address, registers) ∷ rest) codec =
    let (positions, sizes) = layout_loop registers 0 [] [] in
    codec_loop rest (record codec {
      addr_size = insert address (total size_of registers) codec.addr_size;
      addr_reg_pos = insert address positions codec.addr_reg_pos;
      addr_reg_size = insert address sizes codec.addr_reg_size;
    })

-- I2cMasterCodec::I2cMasterCodec
unfoldable pub i2c_master_codec : AddressRegisterMap → I2cMasterCodec
unfolding codec_loop
i2c_master_codec ar_map =
    codec_loop ar_map
      (record { addr_reg = ar_map; addr_size = []; addr_reg_pos = []; addr_reg_size = [] })

-- I2cMasterCodec::getTotalSize
unfoldable pub get_total_size : I2cMasterCodec → String → Result ℕ
get_total_size codec address = elim (lookup address codec.addr_size) [
  | none ↦ err (no_such_i2c_address address)
  | some n ↦ ok n
]

-- I2cMasterCodec::getAddresses
unfoldable pub get_addresses : I2cMasterCodec → List String
get_addresses codec = map (λ e. e.0) codec.addr_reg

unfoldable pub is_readonly : String → Bool
unfolding contains
is_readonly address = contains address "READONLY"

-- bs.to_string().substr(bs.size() - size, bs.size()) on a bitset of `width` bits. The difference is
-- a std::size_t: where it wraps around, it is past the end, and substr throws.
unfoldable pub low_string : ℕ → ℕ → ℕ → Result BitString
low_string width v size =
    if ltb width size then err out_of_range else substr (bits width v) (width - size) width

module _ {Tree : Type 0} ⦃pt : Ptree Tree⦄ where
  -- The value of a register in the loop of buildConfig.
  unfoldable pub register_value : Tree → RegisterSize → Result ℕ
  register_value child (register_name, size) = if str_eq register_name not_used then ok 0 else do
    v ← rethrow_bad_path (pt.get_unsigned child register_name) (missing_i2c_register register_name)
    check_overflow size v register_name
    ok v

  unfoldable pub register_field : Tree → RegisterSize → Result BitString
  register_field child (register_name, size) = do
    v ← register_value child (register_name, size)
    low_string 32 v size

  -- One address of buildConfig.
  unfoldable pub address_bits : Tree → String → List RegisterSize → Result BitString
  address_bits config address register_sizes = do
    child ← rethrow_bad_path (pt.get_child config address) (missing_i2c_address address)
    stream (register_field child) register_sizes

  -- I2cMasterCodec::buildConfig. Read-only addresses have no value in the configuration.
  unfoldable pub build_loop : Tree → AddressRegisterMap → Assoc BitString → Result (Assoc BitString)
  build_loop config [] bitstreams = ok bitstreams
  build_loop config ((address, register_sizes) ∷ rest) bitstreams =
      let unchanged = build_loop config rest bitstreams in
      if is_readonly address then unchanged else do
        text ← address_bits config address register_sizes
        build_loop config rest (insert address text bitstreams)

  unfoldable pub build_config : Tree → I2cMasterCodec → Result (Assoc BitString)
  unfolding build_loop
  build_config config codec = build_loop config codec.addr_reg []

  -- One address of buildPartialConfig.
  unfoldable pub partial_bits : Tree → I2cMasterCodec → String → Result BitString
  partial_bits config codec address = do
    throw_if (is_readonly address) (write_to_readonly_register address)
    v ← pt.get_unsigned config address
    registers ← at (lookup address codec.addr_reg)
    low_string 128 v (total size_of registers)

  -- std::inserter: a key that is there keeps its value.
  unfoldable pub partial_loop :
      Tree → I2cMasterCodec → List (String × Tree) → Assoc BitString → Result (Assoc BitString)
  partial_loop config codec [] bitstreams = ok bitstreams
  partial_loop config codec ((address, child) ∷ rest) bitstreams = do
    text ← partial_bits config codec address
    partial_loop config codec rest (elim (lookup address bitstreams) [
      | none ↦ insert address text bitstreams
      | some old ↦ bitstreams
    ])

  -- I2cMasterCodec::buildPartialConfig
  unfoldable pub build_partial_config : Tree → I2cMasterCodec → Result (Assoc BitString)
  unfolding partial_loop
  build_partial_config config codec = partial_loop config codec (pt.children config) []
