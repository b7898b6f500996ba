-- ===== src/Vmm/Codec.antt =====
-- src/VMMCodec.cpp: the bit string of a VMM's configuration.
use nswconfiguration.Common.{
  ℕ, zero, suc, ◌+◌, ◌==◌, ltb, String, str_eq, Bool, List, [], ◌∷◌, ◌++◌, reverse, length, set,
  get_elem?, replicate, any, not, if◌then◌else◌, ◌||◌,
}
use nswconfiguration.Common.Results.{Result, ok, ◌>>=◌, ◌>>◌, throw_if, at}
use nswconfiguration.Common.Results.{out_of_range, missing_vmm_register, vmm_codec_issue}
use nswconfiguration.Common.Results.{rethrow_bad_path}
use nswconfiguration.Common.Assoc.{Assoc, lookup, insert}
use nswconfiguration.Bits.{BitString}
use nswconfiguration.Stream.{stream}
use nswconfiguration.Ptree.{Ptree}
use nswconfiguration.Utility.{not_used, check_overflow, bit_string, reversed_bit_string}
use nswconfiguration.Utility.Fmt.{BinaryFormat}
use nswconfiguration.Vmm.Tables.{
  NameSize, global_name_size0, global_name_size1, channel_name_size, bitreversed_registers,
}

abbrev pub num_ch_per_vmm : ℕ
num_ch_per_vmm = 64

-- enum class GlobalRegisters
pub data GlobalRegisters : Type 0 where
  global0 global1 : GlobalRegisters

-- A search for the name among the rows of a table.
unfoldable pub has_register : String → List NameSize → Bool
has_register register_name = any (λ row. str_eq register_name row.0)

-- VMMCodec::globalRegisterExists
unfoldable pub global_register_exists : String → Bool
global_register_exists register_name =
    has_register register_name global_name_size0 || has_register register_name global_name_size1

-- VMMCodec::channelRegisterExists
unfoldable pub channel_register_exists : String → Bool
channel_register_exists register_name = has_register register_name channel_name_size

-- vtemp.at(i) = v
unfoldable pub set_at : List ℕ → ℕ → ℕ → Result (List ℕ)
set_at vtemp i v = do throw_if (not (ltb i (length vtemp))) out_of_range; ok (set vtemp i v)

module _ {Tree : Type 0} ⦃pt : Ptree Tree⦄ where
  -- The loop over an array node: one value for each channel, from index i on.
  unfoldable pub array_loop : String → ℕ → List (String × Tree) → ℕ → List ℕ → Result (ℕ × List ℕ)
  unfolding set_at check_overflow
  array_loop reg_name reg_size [] i vtemp = ok (i, vtemp)
  array_loop reg_name reg_size (child ∷ rest) i vtemp = do
    v ← pt.get_value child.1
    check_overflow reg_size v reg_name
    vtemp' ← set_at vtemp i v
    array_loop reg_name reg_size rest (i + 1) vtemp'

  -- A single value: all channels have it.
  unfoldable pub single_value : Tree → NameSize → Result (List ℕ)
  unfolding check_overflow
  single_value config (reg_name, reg_size) = do
    v ← pt.get_unsigned config reg_name
    check_overflow reg_size v reg_name
    ok (replicate num_ch_per_vmm v)

  -- An array: each channel has its own value.
  unfoldable pub array_values : Tree → NameSize → Result (List ℕ)
  unfolding array_loop
  array_values ptemp (reg_name, reg_size) = do
    (i, vtemp) ← array_loop reg_name reg_size (pt.children ptemp) 0 (replicate num_ch_per_vmm 0)
    throw_if (not (i == num_ch_per_vmm)) (vmm_codec_issue i)
    ok vtemp

  -- The values of one channel register.
  unfoldable pub channel_values : Tree → NameSize → Result (List ℕ)
  channel_values config row = do
    ptemp ← pt.get_child config row.0
    if length (pt.children ptemp) == 0 then single_value config row else array_values ptemp row

  -- The loop of VMMCodec::buildChannelRegisterMap over the table.
  unfoldable pub channel_register_loop :
      Tree → List NameSize → Assoc (List ℕ) → Result (Assoc (List ℕ))
  channel_register_loop config [] result = ok result
  channel_register_loop config ((reg_name, reg_size) ∷ rows) result =
      let unchanged = channel_register_loop config rows result in
      if str_eq reg_name not_used then unchanged else do
        vtemp ← channel_values config (reg_name, reg_size)
        channel_register_loop config rows (insert reg_name vtemp result)

  -- VMMCodec::buildChannelRegisterMap
  unfoldable pub build_channel_register_map : Tree → Result (Assoc (List ℕ))
  unfolding channel_register_loop
  build_channel_register_map config = channel_register_loop config channel_name_size []

-- getValue: the value of a channel register, 0 in the unused bits.
unfoldable pub channel_value : Assoc (List ℕ) → String → ℕ → Result ℕ
channel_value ch_reg_map reg_name channel =
    if str_eq reg_name not_used
    then ok 0
    else do values ← at (lookup reg_name ch_reg_map); at (get_elem? values channel)

module _ ⦃fmt : BinaryFormat⦄ where
  unfoldable pub channel_field : Assoc (List ℕ) → ℕ → NameSize → Result BitString
  channel_field ch_reg_map channel (reg_name, reg_size) = do
    v ← channel_value ch_reg_map reg_name channel
    reversed_bit_string v reg_size

  -- The bits of one channel.
  unfoldable pub channel_bits : Assoc (List ℕ) → ℕ → Result BitString
  channel_bits ch_reg_map channel = do
    tempstr_ch ← stream (channel_field ch_reg_map channel) channel_name_size
    ok (reverse tempstr_ch)

  -- The loop from the last channel down to channel 0; the number is that of channels left.
  unfoldable pub channel_loop : Assoc (List ℕ) → ℕ → Result BitString
  channel_loop ch_reg_map zero = ok []
  channel_loop ch_reg_map (suc channel) = do
    bits ← channel_bits ch_reg_map channel
    rest ← channel_loop ch_reg_map channel
    ok (bits ++ rest)

module _ ⦃fmt : BinaryFormat⦄ where
  -- The bits of a global register, reversed for those of the list.
  unfoldable pub ordered_bits : String → ℕ → ℕ → Result BitString
  ordered_bits reg_name v size =
      if any (str_eq reg_name) bitreversed_registers
      then reversed_bit_string v size
      else bit_string v size

module _ {Tree : Type 0} ⦃pt : Ptree Tree⦄ ⦃fmt : BinaryFormat⦄ where
  -- One row of a table of global registers.
  unfoldable pub global_field : Tree → NameSize → Result BitString
  global_field config (reg_name, size) = if str_eq reg_name not_used then bit_string 0 size else do
    v ← rethrow_bad_path (pt.get_unsigned config reg_name) (missing_vmm_register reg_name)
    check_overflow size v reg_name
    ordered_bits reg_name v size

  -- VMMCodec::buildGlobalConfig
  unfoldable pub build_global_config : Tree → GlobalRegisters → Result BitString
  build_global_config config global0 = stream (global_field config) global_name_size0
  build_global_config config global1 = stream (global_field config) global_name_size1

  -- VMMCodec::buildChannelConfig
  unfoldable pub build_channel_config : Tree → Result BitString
  build_channel_config config = do
    ch_reg_map ← build_channel_register_map config
    channel_loop ch_reg_map num_ch_per_vmm

  -- VMMCodec::buildConfig. C++ leaves the order of the three calls open; it shows only in which
  -- exception comes first.
  unfoldable pub build_config : Tree → Result BitString
  build_config config = do
    first ← build_global_config config global1
    channels ← build_channel_config config
    last ← build_global_config config global0
    ok (first ++ (channels ++ last))
