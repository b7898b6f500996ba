-- ===== src/Runs/MasterInstances.antt =====
-- The theorems on src/I2cMasterConfig.cpp and the register maps at a whole configuration.
use nswconfiguration.Common.{
  ℕ, ◌<◌, ◌*◌, ◌/◌, ◌≡◌, ◌≢◌, refl, arith, String, false, [], ◌∷◌, length, none, some, inl, ◌⊎◌,
  ◌↔◌, eq_iff,
}
use nswconfiguration.Common.Results.{ok}
use nswconfiguration.Common.Assoc.{lookup}
use nswconfiguration.Text.{contains}
use nswconfiguration.Stream.{total}
use nswconfiguration.Utility.{string_to_byte_vector, vector_to_bit_string}
use nswconfiguration.I2c.Codec.{size_of, is_readonly}
use nswconfiguration.I2c.Config.{get_register_value, set_register_value}
use nswconfiguration.I2c.Config.RoundTrip.{IsLaidOut}
use nswconfiguration.I2c.Config.Build.{i2c_master_config-IsLaidOut}
use nswconfiguration.I2c.Maps.{registers, art_core}
use nswconfiguration.I2c.Maps.WellFormed.{IsMap-registers, whole_bytes-registers}
use nswconfiguration.I2c.Masters.{
  set_register_value_reads, set_register_value_frame, set_register_value-ok_iff,
  bytes-address_bitstream, i2c_master_config_reads,
}
use nswconfiguration.Runs.Digits.{digits_format}
use nswconfiguration.Runs.Trees.{Tree, trees}
use nswconfiguration.Runs.Masters.{art_core_tree, art_core_object, art_core_text, art_core_facts}

laid : IsLaidOut (registers art_core) art_core_object
laid =
    i2c_master_config-IsLaidOut ⦃pt = trees⦄ art_core_tree (registers art_core)
      (IsMap-registers art_core) art_core_facts.0

address_26 :
    lookup "26" (registers art_core)
    ≡ some (("cfg_pattern_data_phi3[5:0]", 6) ∷ ("cfg_pattern_data_phi2[13:12]", 2) ∷ [])
unfolding registers lookup
address_26 = refl

writable_26 : is_readonly "26" ≡ false
unfolding is_readonly contains
writable_26 = refl

other_address : ◌≢◌ {A = String} "26" "27"
other_address e = cc ((eq_iff "26" "27").1 e)

set_register_value_reads_example :
    ((set_register_value ⦃fmt = digits_format⦄ art_core_object "26" "cfg_pattern_data_phi2[13:12]"
        3).1
      ≡ ok tt)
    × (get_register_value
          (set_register_value ⦃fmt = digits_format⦄ art_core_object "26"
            "cfg_pattern_data_phi2[13:12]" 3).0
          "26"
          "cfg_pattern_data_phi2[13:12]"
        ≡ ok 3)
    × IsLaidOut
        (registers art_core)
        (set_register_value ⦃fmt = digits_format⦄ art_core_object "26"
          "cfg_pattern_data_phi2[13:12]" 3).0
set_register_value_reads_example =
    set_register_value_reads art_core art_core_object laid ⦃fmt = digits_format⦄ "26"
      "cfg_pattern_data_phi2[13:12]" art_core_facts.1 art_core_text art_core_facts.2 3 (omega arith)

set_register_value_frame_example :
    get_register_value
      (set_register_value ⦃fmt = digits_format⦄ art_core_object "26" "cfg_pattern_data_phi2[13:12]"
        3).0
      "27"
      "cfg_pattern_data_phi3[13:6]"
    ≡ get_register_value art_core_object "27" "cfg_pattern_data_phi3[13:6]"
set_register_value_frame_example =
    set_register_value_frame art_core art_core_object laid ⦃fmt = digits_format⦄ "26"
      "cfg_pattern_data_phi2[13:12]" art_core_facts.1 art_core_text art_core_facts.2 3 (omega arith)
      "27" "cfg_pattern_data_phi3[13:6]" (inl other_address)

i2c_master_config_reads_example :
    (child : Tree) × (v : ℕ) × (trees.get_child art_core_tree "26" ≡ ok child)
    × (trees.get_unsigned child "cfg_pattern_data_phi2[13:12]" ≡ ok v)
    × (get_register_value art_core_object "26" "cfg_pattern_data_phi2[13:12]" ≡ ok v)
i2c_master_config_reads_example =
    i2c_master_config_reads ⦃pt = trees⦄ art_core art_core_tree art_core_facts.0 "26"
      "cfg_pattern_data_phi2[13:12]" writable_26 refl art_core_facts.1

bytes-address_bitstream_example :
    (length (string_to_byte_vector art_core_text)
      ≡ total size_of (("cfg_pattern_data_phi3[5:0]", 6) ∷ ("cfg_pattern_data_phi2[13:12]", 2) ∷ [])
        / 8)
    × (vector_to_bit_string ⦃fmt = digits_format⦄ (string_to_byte_vector art_core_text) false
        ≡ art_core_text)
bytes-address_bitstream_example =
    bytes-address_bitstream art_core art_core_object laid ⦃fmt = digits_format⦄ "26"
      (("cfg_pattern_data_phi3[5:0]", 6) ∷ ("cfg_pattern_data_phi2[13:12]", 2) ∷ []) art_core_text
      address_26 art_core_facts.2

set_register_value-ok_iff_example :
    ((set_register_value ⦃fmt = digits_format⦄ art_core_object "26" "cfg_pattern_data_phi2[13:12]"
        4).1
      ≡ ok tt)
    ↔ ((4 < 4) × ((lookup "26" art_core_object.address_bitstream ≢ none) ⊎ ◌≡◌ {A = ℕ} 6 0))
set_register_value-ok_iff_example =
    set_register_value-ok_iff art_core art_core_object laid ⦃fmt = digits_format⦄ "26"
      "cfg_pattern_data_phi2[13:12]" art_core_facts.1 4

whole_bytes-registers_example :
    total size_of (("cfg_pattern_data_phi3[5:0]", 6) ∷ ("cfg_pattern_data_phi2[13:12]", 2) ∷ [])
    ≡ 8
      * (total size_of
            (("cfg_pattern_data_phi3[5:0]", 6) ∷ ("cfg_pattern_data_phi2[13:12]", 2) ∷ [])
          / 8)
whole_bytes-registers_example =
    whole_bytes-registers art_core "26"
      (("cfg_pattern_data_phi3[5:0]", 6) ∷ ("cfg_pattern_data_phi2[13:12]", 2) ∷ []) address_26
