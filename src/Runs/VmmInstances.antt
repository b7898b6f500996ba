-- ===== src/Runs/VmmInstances.antt =====
-- The theorems on src/VMMCodec.cpp and src/VMMConfig.cpp at whole configurations.
use nswconfiguration.Common.{
  ℕ, ◌≡◌, ◌≢◌, refl, arith, String, List, [], ◌∷◌, length, slice, get_elem?, some, All, inl,
}
use nswconfiguration.Common.Results.{
  Result, ok, err, register_overflow, missing_vmm_register, vmm_config_issue,
}
use nswconfiguration.Bits.{BitString, value}
use nswconfiguration.Vmm.Tables.{global_name_size0, global_name_size1}
use nswconfiguration.Vmm.Codec.{build_config, channel_values, global0, global1, build_global_config}
use nswconfiguration.Vmm.RoundTrip.{
  channel_part, global_part, decode_global, decode_global-build_config,
}
use nswconfiguration.Vmm.ChannelRoundTrip.{decode_channel-build_config}
use nswconfiguration.Runs.Digits.{digits_format}
use nswconfiguration.Common.{none, ◌↔◌, eq_iff}
use nswconfiguration.Vmm.Codec.{global_register_exists, has_register}
use nswconfiguration.Vmm.Fields.{IsWritable}
use nswconfiguration.Vmm.Global.{
  build_global_config-ok_iff, build_global_config_missing, build_global_config_overflow,
}
use nswconfiguration.Vmm.Config.{set_global_register, get_byte_vector}
use nswconfiguration.Vmm.Config.Consistency.{updates, get_byte_vector-updates}
use nswconfiguration.Vmm.Config.Updates.{
  decode_global-set_global_register, decode_global-set_global_register_ne,
  set_global_register_overflow,
}
use nswconfiguration.Runs.Trees.{trees, node, nil, find, put_kids, put_tree}
use nswconfiguration.Runs.Vmms.{
  vmm_tree, vmm_bits, vmm_tree_built, vmm_object, vmm_object_made, vmm_updates, vmm_setters_done,
  put_ones, rows_before,
}

offset-window : ◌≢◌ {A = String} "offset" "window"
offset-window e = cc ((eq_iff "offset" "window").1 e)

decode_channel-build_config_example :
    (values : List ℕ) × (channel_values ⦃pt = trees⦄ vmm_tree ("channel_sd", 5) ≡ ok values)
    × (get_elem? values 7 ≡ some (value (slice 13 5 (channel_part 7 vmm_bits))))
decode_channel-build_config_example =
    decode_channel-build_config ⦃pt = trees⦄ ⦃fmt = digits_format⦄ vmm_tree 7
      (("channel_sc", 1)
        ∷ ("channel_sl", 1)
        ∷ ("channel_st", 1)
        ∷ ("channel_sth", 1)
        ∷ ("channel_sm", 1)
        ∷ ("channel_smx", 1)
        ∷ [])
      ("channel_sd", 5)
      (("channel_sz10b", 5) ∷ ("channel_sz8b", 4) ∷ ("channel_sz6b", 3) ∷ ("NOT_USED", 1) ∷ [])
      (omega arith) refl refl vmm_tree_built

decode_global-build_config_example :
    ◌≡◌ {A = Result ℕ}
      (ok 300)
      (ok (decode_global ("sdt_dac", 10) (slice 58 10 (global_part global0 vmm_bits))))
unfolding find put_kids put_ones rows_before
decode_global-build_config_example =
    decode_global-build_config ⦃pt = trees⦄ ⦃fmt = digits_format⦄ vmm_tree global0
      (rows_before 37 global_name_size0) ("sdt_dac", 10) _ refl refl vmm_tree_built

get_byte_vector-updates_example :
    (length (get_byte_vector (updates ⦃pt = trees⦄ ⦃fmt = digits_format⦄ vmm_updates vmm_object).0)
      ≡ 216)
    × (build_config ⦃pt = trees⦄ ⦃fmt = digits_format⦄
          (updates ⦃pt = trees⦄ ⦃fmt = digits_format⦄ vmm_updates vmm_object).0.config
        ≡ ok (updates ⦃pt = trees⦄ ⦃fmt = digits_format⦄ vmm_updates vmm_object).0.bitstring)
get_byte_vector-updates_example =
    get_byte_vector-updates ⦃pt = trees⦄ ⦃fmt = digits_format⦄ vmm_tree vmm_updates vmm_object_made
      vmm_setters_done.2

decode_global-set_global_register_example :
    decode_global
      ("sdt_dac", 10)
      (slice 58 10 (
        global_part global0
          (set_global_register ⦃pt = trees⦄ ⦃fmt = digits_format⦄ vmm_object "sdt_dac"
            777).0.bitstring))
    ≡ 777
unfolding rows_before
decode_global-set_global_register_example =
    decode_global-set_global_register ⦃pt = trees⦄ ⦃fmt = digits_format⦄ vmm_object global0
      (rows_before 37 global_name_size0) ("sdt_dac", 10) _ refl refl 777 vmm_setters_done.0

decode_global-set_global_register_ne_example :
    decode_global
      ("window", 3)
      (slice 44 3 (
        global_part global1
          (set_global_register ⦃pt = trees⦄ ⦃fmt = digits_format⦄ vmm_object "offset"
            5).0.bitstring))
    ≡ decode_global ("window", 3) (slice 44 3 (global_part global1 vmm_bits))
unfolding rows_before global_register_exists has_register
decode_global-set_global_register_ne_example =
    decode_global-set_global_register_ne ⦃pt = trees⦄ ⦃fmt = digits_format⦄ vmm_object "offset" 5
      global1 (rows_before 4 global_name_size1) ("window", 3) _ refl refl refl refl refl
      offset-window vmm_tree_built vmm_setters_done.1

set_global_register_overflow_example :
    (set_global_register ⦃pt = trees⦄ ⦃fmt = digits_format⦄ vmm_object "sdt_dac" 1024
      ≡ (record vmm_object { config = put_tree vmm_tree "sdt_dac" 1024 }, err vmm_config_issue))
    × ((b : BitString)
        → build_config ⦃pt = trees⦄ ⦃fmt = digits_format⦄ (put_tree vmm_tree "sdt_dac" 1024) ≢ ok b)
unfolding rows_before
set_global_register_overflow_example =
    set_global_register_overflow ⦃pt = trees⦄ ⦃fmt = digits_format⦄ vmm_object global0
      (rows_before 37 global_name_size0) ("sdt_dac", 10) _ refl refl 1024 (omega arith)

build_global_config-ok_iff_example :
    ((s : BitString) × (build_global_config ⦃pt = trees⦄ ⦃fmt = digits_format⦄ vmm_tree global1
        ≡ ok s))
    ↔ All (IsWritable ⦃pt = trees⦄ ⦃fmt = digits_format⦄ vmm_tree) global_name_size1
build_global_config-ok_iff_example =
    build_global_config-ok_iff ⦃pt = trees⦄ ⦃fmt = digits_format⦄ vmm_tree global1

build_global_config_missing_example :
    build_global_config ⦃pt = trees⦄ ⦃fmt = digits_format⦄ (node none nil) global1
    ≡ err (missing_vmm_register "offset")
unfolding find
build_global_config_missing_example =
    build_global_config_missing ⦃pt = trees⦄ ⦃fmt = digits_format⦄ (node none nil) global1
      (("NOT_USED", 8) ∷ []) ("offset", 12) _ refl ((omega arith, inl refl), tt) refl refl

build_global_config_overflow_example :
    build_global_config ⦃pt = trees⦄ ⦃fmt = digits_format⦄ (put_tree vmm_tree "offset" 4096) global1
    ≡ err (register_overflow "offset")
unfolding find put_kids put_ones
build_global_config_overflow_example =
    build_global_config_overflow ⦃pt = trees⦄ ⦃fmt = digits_format⦄
      (put_tree vmm_tree "offset" 4096) global1 (("NOT_USED", 8) ∷ []) ("offset", 12) _ refl
      ((omega arith, inl refl), tt) refl 4096 refl (omega arith)
