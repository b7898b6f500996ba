-- ===== src/I2c/Config.antt =====
-- nsw::I2cMasterConfig of src/I2cMasterConfig.cpp: the bit strings of an I2C master's addresses, and
-- the registers in them.
pub mod Places
pub mod Registers
pub mod RoundTrip
pub mod Build
use nswconfiguration.Common.{
  ℕ, ◌%◌, ◌^◌, String, Bool, List, [], ◌++◌, if◌then◌else◌, Option, none, some,
}
use nswconfiguration.Common.Results.{Issue, Result, ok, err, ◌>>=◌, ◌>>◌, at}
use nswconfiguration.Common.Results.{no_such_i2c_address, no_such_i2c_register}
use nswconfiguration.Common.Assoc.{Assoc, lookup, insert}
use nswconfiguration.Bits.{BitString}
use nswconfiguration.Ptree.{Ptree}
use nswconfiguration.Utility.{check_overflow, bit_string, substr, replace, stoul_binary}
use nswconfiguration.Utility.Fmt.{BinaryFormat}
use nswconfiguration.I2c.Codec.{
  I2cMasterCodec, AddressRegisterMap, i2c_master_codec, build_config, build_partial_config,
}

pub record I2cMasterConfig : Type 0 where
  pub codec : I2cMasterCodec
  pub address_bitstream : Assoc BitString

-- I2cMasterConfig::I2cMasterConfig with its buildConfig
unfoldable pub i2c_master_config :
    {Tree : Type 0} ⦃pt : Ptree Tree⦄ → Tree → AddressRegisterMap → Bool → Result I2cMasterConfig
i2c_master_config config reg partial = do
  let codec = i2c_master_codec reg
  bitstreams ← if partial then build_partial_config config codec else build_config config codec
  ok (record { codec = codec; address_bitstream = bitstreams })

-- The check for the register, and its size.
unfoldable pub register_entry : String → Option ℕ → Result ℕ → Result (ℕ × ℕ)
register_entry address none size = err (no_such_i2c_register address)
register_entry address (some reg_pos) size = do reg_size ← size; ok (reg_pos, reg_size)

-- The check for the address, and the register in its maps.
unfoldable pub register_place :
    String → String → Option (Assoc ℕ) → Option (Assoc ℕ) → Result (ℕ × ℕ)
unfolding register_entry
register_place address register_name none sizes = err (no_such_i2c_address address)
register_place address register_name (some positions) sizes =
    register_entry address (lookup register_name positions)
      (do reg_sizes ← at sizes; at (lookup register_name reg_sizes))

-- The checks and look-ups that getRegisterValue and setRegisterValue share.
unfoldable pub find_register : I2cMasterCodec → String → String → Result (ℕ × ℕ)
find_register codec address register_name =
    register_place address register_name (lookup address codec.addr_reg_pos)
      (lookup address codec.addr_reg_size)

-- I2cMasterConfig::getRegisterValue
unfoldable pub get_register_value : I2cMasterConfig → String → String → Result ℕ
get_register_value c address register_name = do
  (reg_pos, reg_size) ← find_register c.codec address register_name
  bitstream ← at (lookup address c.address_bitstream)
  tmp ← substr bitstream reg_pos reg_size
  v ← stoul_binary tmp
  ok (v % 2 ^ 32)

-- m[address] of std::map: a new entry is empty.
unfoldable pub entry : Assoc BitString → String → BitString
entry bitstreams address = elim (lookup address bitstreams) [ none ↦ [] | some text ↦ text ]

-- The part of setRegisterValue before the bit strings change.
unfoldable pub new_bits :
    ⦃fmt : BinaryFormat⦄ → I2cMasterConfig → String → String → ℕ → Result (ℕ × ℕ × BitString)
new_bits c address register_name v = do
  (reg_pos, reg_size) ← find_register c.codec address register_name
  check_overflow reg_size v register_name
  bitstring ← bit_string v reg_size
  ok (reg_pos, reg_size, bitstring)

-- The object with another bit string at an address.
unfoldable pub with_bits : I2cMasterConfig → String → BitString → I2cMasterConfig
with_bits c address text = record c { address_bitstream = insert address text c.address_bitstream }

-- m_address_bitstream[address].replace(pos, size, bitstring): the entry is made before it throws.
unfoldable pub replaced :
    I2cMasterConfig → String → BitString → Result BitString → I2cMasterConfig × Result (Unit {0})
unfolding with_bits
replaced c address old (ok text) = (with_bits c address text, ok tt)
replaced c address old (err e) = (with_bits c address old, err e)

unfoldable pub store_bits :
    I2cMasterConfig → String → Result (ℕ × ℕ × BitString) → I2cMasterConfig × Result (Unit {0})
unfolding replaced
store_bits c address (err e) = (c, err e)
store_bits c address (ok (reg_pos, reg_size, bitstring)) =
    let old = entry c.address_bitstream address in
    replaced c address old (replace old reg_pos reg_size bitstring)

-- I2cMasterConfig::setRegisterValue
unfoldable pub set_register_value :
    ⦃fmt : BinaryFormat⦄
    → I2cMasterConfig
    → String
    → String
    → ℕ
    → I2cMasterConfig × Result (Unit {0})
unfolding new_bits store_bits
set_register_value c address register_name v =
    store_bits c address (new_bits c address register_name v)
