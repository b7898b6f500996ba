-- ===== src/Vmm/Config.antt =====
-- src/VMMConfig.cpp: a VMM's configuration tree with the bit string built from it. A method returns
-- the object as it leaves it, also when it throws, and its result.
pub mod Consistency
pub mod Updates
use nswconfiguration.Common.{
  ℕ, ltb, String, str_eq, Bool, List, set, get_elem?, replicate, not, if◌then◌else◌, Option, none,
  some,
}
use nswconfiguration.Common.Results.{Issue, Result, ok, err, ◌>>=◌, ◌>>◌, throw_if, at}
use nswconfiguration.Common.Results.{
  no_such_vmm_register, vmm_channel_out_of_range, vmm_config_issue,
}
use nswconfiguration.Common.Results.{and_then}
use nswconfiguration.Common.Assoc.{Assoc, lookup, insert}
use nswconfiguration.Bits.{BitString}
use nswconfiguration.Ptree.{Ptree}
use nswconfiguration.Utility.{string_to_byte_vector, build_ptree_from_vector}
use nswconfiguration.Utility.Fmt.{BinaryFormat}
use nswconfiguration.Vmm.Codec.{
  num_ch_per_vmm, global_register_exists, channel_register_exists, build_channel_register_map,
  build_config,
}

pub record VmmConfig (Tree : Type 0) : Type 0 where
  pub config : Tree
  pub bitstring : BitString

-- m[name] of std::map: a new entry holds zeros.
unfoldable pub entry : Assoc (List ℕ) → String → List ℕ
entry m name = elim (lookup name m) [ none ↦ replicate num_ch_per_vmm 0 | some values ↦ values ]

-- The checks of the channel setters and getters.
unfoldable pub check_channel : String → ℕ → Result (Unit {0})
check_channel register_name channel = do
  throw_if (not (channel_register_exists register_name)) (no_such_vmm_register register_name)
  throw_if (not (ltb channel num_ch_per_vmm)) (vmm_channel_out_of_range channel)

-- The object with its tree replaced, and the bit string too where it could be built.
unfoldable pub rebuilt :
    {Tree : Type 0} → VmmConfig Tree → Tree → Result BitString → VmmConfig Tree × Result (Unit {0})
rebuilt s tree (ok bitstring) = (record { config = tree; bitstring = bitstring }, ok tt)
rebuilt s tree (err e) = (record s { config = tree }, err e)

-- catch (std::exception&) { throw VmmConfigIssue; }
unfoldable pub as_config_issue :
    {Tree : Type 0} → VmmConfig Tree × Result (Unit {0}) → VmmConfig Tree × Result (Unit {0})
as_config_issue (s, ok u) = (s, ok u)
as_config_issue (s, err e) = (s, err vmm_config_issue)

module _ {Tree : Type 0} ⦃pt : Ptree Tree⦄ ⦃fmt : BinaryFormat⦄ where
  -- VMMConfig::VMMConfig
  unfoldable pub vmm_config : Tree → Result (VmmConfig Tree)
  vmm_config tree = do
    bitstring ← build_config tree
    ok (record { config = tree; bitstring = bitstring })

  -- m_bitstring = VMMCodec::buildConfig(m_config), where m_config is `tree` by now.
  unfoldable pub rebuild : VmmConfig Tree → Tree → VmmConfig Tree × Result (Unit {0})
  unfolding rebuilt
  rebuild s tree = rebuilt s tree (build_config tree)

  -- VMMConfig::setGlobalRegister
  unfoldable pub set_global_register :
      VmmConfig Tree → String → ℕ → VmmConfig Tree × Result (Unit {0})
  unfolding rebuild as_config_issue
  set_global_register s register_name v =
      if not (global_register_exists register_name)
      then (s, err (no_such_vmm_register register_name))
      else as_config_issue (rebuild s (pt.put s.config register_name v))

  -- VMMConfig::setChannelRegisterAllChannels
  unfoldable pub set_channel_register_all_channels :
      VmmConfig Tree → String → ℕ → VmmConfig Tree × Result (Unit {0})
  unfolding rebuild
  set_channel_register_all_channels s register_name v =
      rebuild s (pt.put (pt.erase s.config register_name) register_name v)

  -- The part of setChannelRegisterOneChannel before m_config changes: the new values.
  unfoldable pub changed_values : VmmConfig Tree → String → ℕ → ℕ → Result (List ℕ)
  unfolding check_channel entry
  changed_values s register_name v channel = do
    check_channel register_name channel
    channelreg ← build_channel_register_map s.config
    ok (set (entry channelreg register_name) channel v)

  -- The rest of it: the old node gives way to the array of the new values.
  unfoldable pub store_values :
      VmmConfig Tree → String → Result (List ℕ) → VmmConfig Tree × Result (Unit {0})
  unfolding rebuild
  store_values s register_name (err e) = (s, err e)
  store_values s register_name (ok values) = rebuild s (
      pt.add_child (pt.erase s.config register_name) register_name (build_ptree_from_vector values))

  -- VMMConfig::setChannelRegisterOneChannel
  unfoldable pub set_channel_register_one_channel :
      VmmConfig Tree → String → ℕ → ℕ → VmmConfig Tree × Result (Unit {0})
  unfolding store_values changed_values
  set_channel_register_one_channel s register_name v channel =
      store_values s register_name (changed_values s register_name v channel)

  -- VMMConfig::setMonitorOutput: the second call is made if the first does not throw.
  unfoldable pub set_monitor_output : VmmConfig Tree → ℕ → ℕ → VmmConfig Tree × Result (Unit {0})
  unfolding and_then
  set_monitor_output s channel_id param =
      and_then (set_global_register s "scmx" param) (λ t. set_global_register t "sm" channel_id)

  -- VMMConfig::setTestPulseDAC
  unfoldable pub set_test_pulse_dac : VmmConfig Tree → ℕ → VmmConfig Tree × Result (Unit {0})
  set_test_pulse_dac s param = set_global_register s "sdp_dac" param

  -- VMMConfig::setGlobalThreshold
  unfoldable pub set_global_threshold : VmmConfig Tree → ℕ → VmmConfig Tree × Result (Unit {0})
  set_global_threshold s param = set_global_register s "sdt_dac" param

  -- VMMConfig::setChannelMOMode
  unfoldable pub set_channel_mo_mode : VmmConfig Tree → ℕ → ℕ → VmmConfig Tree × Result (Unit {0})
  set_channel_mo_mode s channel_id param =
      set_channel_register_one_channel s "channel_smx" param channel_id

  -- VMMConfig::setChannelTrimmer
  unfoldable pub set_channel_trimmer : VmmConfig Tree → ℕ → ℕ → VmmConfig Tree × Result (Unit {0})
  set_channel_trimmer s channel_id param =
      set_channel_register_one_channel s "channel_sd" param channel_id

module _ {Tree : Type 0} where
  -- VMMConfig::getByteVector
  unfoldable pub get_byte_vector : VmmConfig Tree → List ℕ
  get_byte_vector s = string_to_byte_vector s.bitstring

module _ {Tree : Type 0} ⦃pt : Ptree Tree⦄ where
  -- VMMConfig::getGlobalRegister
  unfoldable pub get_global_register : VmmConfig Tree → String → Result ℕ
  get_global_register s register_name = do
    throw_if (not (global_register_exists register_name)) (no_such_vmm_register register_name)
    pt.get_unsigned s.config register_name

  -- VMMConfig::getGlobalThreshold
  unfoldable pub get_global_threshold : VmmConfig Tree → Result ℕ
  get_global_threshold s = get_global_register s "sdt_dac"

  -- VMMConfig::getChannelRegisterOneChannel
  unfoldable pub get_channel_register_one_channel : VmmConfig Tree → String → ℕ → Result ℕ
  unfolding check_channel
  get_channel_register_one_channel s register_name channel = do
    channelreg ← build_channel_register_map s.config
    check_channel register_name channel
    values ← at (lookup register_name channelreg)
    at (get_elem? values channel)

  -- VMMConfig::getChannelRegisterAllChannels
  unfoldable pub get_channel_register_all_channels : VmmConfig Tree → String → Result (List ℕ)
  get_channel_register_all_channels s register_name = do
    channelreg ← build_channel_register_map s.config
    throw_if (not (channel_register_exists register_name)) (no_such_vmm_register register_name)
    at (lookup register_name channelreg)
