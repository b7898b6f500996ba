-- ===== src/Runs/Vmms.antt =====
-- A whole VMM configuration, its bit string and setters on it.
use nswconfiguration.Common.{ℕ, zero, suc, ◌≡◌, refl, str_eq, List, [], ◌∷◌, if◌then◌else◌, none}
use nswconfiguration.Common.Results.{Result, ok, err}
use nswconfiguration.Common.Results.{and_then}
use nswconfiguration.Bits.{BitString}
use nswconfiguration.Utility.{not_used}
use nswconfiguration.Vmm.Tables.{NameSize, global_name_size0, global_name_size1, channel_name_size}
use nswconfiguration.Vmm.Codec.{global_register_exists, has_register, channel_register_exists}
use nswconfiguration.Vmm.Config.{
  VmmConfig, vmm_config, set_global_register, rebuild, rebuilt, as_config_issue,
  set_channel_register_one_channel, set_channel_register_all_channels, set_monitor_output,
  changed_values, store_values, check_channel, entry,
}
use nswconfiguration.Vmm.Config.Consistency.{
  Update, global, one_channel, all_channels, monitor_output, update, updates,
}
use nswconfiguration.Runs.Trees.{erase_kids, add_kid}
use nswconfiguration.Utility.{push_values, build_ptree_from_vector}
use nswconfiguration.Vmm.Codec.{
  build_config, build_global_config, global_field, ordered_bits, build_channel_config,
  build_channel_register_map, channel_register_loop, channel_values, single_value, array_loop,
  array_values, channel_loop, channel_bits, channel_field, channel_value, set_at,
}
use nswconfiguration.Stream.{stream}
use nswconfiguration.Utility.{bit_string, reversed_bit_string, check_overflow, substr}
use nswconfiguration.Bits.{bits, test_bit, value}
use nswconfiguration.Runs.Trees.{find, put_kids, kid_list}
use nswconfiguration.Common.Assoc.{lookup, insert}
use nswconfiguration.Runs.Digits.{narrowest}
use nswconfiguration.Runs.Digits.{digits_format}
use nswconfiguration.Runs.Trees.{Tree, node, nil, trees, put_tree}

-- The first rows of a table.
unfoldable pub rows_before : ℕ → List NameSize → List NameSize
rows_before zero rows = []
rows_before (suc n) [] = []
rows_before (suc n) (row ∷ rows) = row ∷ rows_before n rows

-- The named registers of a table, each with the value 1.
unfoldable pub put_ones : List NameSize → Tree → Tree
put_ones [] t = t
put_ones ((name, size) ∷ rows) t =
    put_ones rows (if str_eq name not_used then t else put_tree t name 1)

-- Every register is 1 but sdt_dac and channel_sd, which has an array.
abbrev pub globals_tree : Tree
globals_tree =
    put_tree (put_ones global_name_size1 (put_ones global_name_size0 (node none nil))) "sdt_dac" 300

abbrev pub vmm_tree : Tree
vmm_tree = put_ones channel_name_size globals_tree

abbrev pub bits_of : Result BitString → BitString
bits_of (ok s) = s
bits_of (err e) = []

abbrev pub vmm_bits : BitString
vmm_bits = bits_of (build_config ⦃pt = trees⦄ ⦃fmt = digits_format⦄ vmm_tree)

pub vmm_tree_built : build_config ⦃pt = trees⦄ ⦃fmt = digits_format⦄ vmm_tree ≡ ok vmm_bits
unfolding put_ones build_config build_global_config global_field ordered_bits build_channel_config
    build_channel_register_map channel_register_loop channel_values single_value array_loop
    array_values channel_loop channel_bits channel_field channel_value set_at stream bit_string
    reversed_bit_string check_overflow substr bits test_bit value narrowest find put_kids kid_list
    lookup insert
vmm_tree_built = refl

abbrev pub vmm_object : VmmConfig Tree
vmm_object = record { config = vmm_tree; bitstring = vmm_bits }

pub vmm_object_made : vmm_config ⦃pt = trees⦄ ⦃fmt = digits_format⦄ vmm_tree ≡ ok vmm_object
unfolding vmm_config
vmm_object_made = rw vmm_tree_built refl

-- Setters of every kind one after another.
abbrev pub vmm_updates : List Update
vmm_updates =
    global "sdt_dac" 200
    ∷ one_channel "channel_sd" 3 7
    ∷ monitor_output 5 0
    ∷ all_channels "channel_st" 0
    ∷ []

-- Two setters, and all of them: none throws.
pub vmm_setters_done :
    ((set_global_register ⦃pt = trees⦄ ⦃fmt = digits_format⦄ vmm_object "sdt_dac" 777).1 ≡ ok tt)
    × ((set_global_register ⦃pt = trees⦄ ⦃fmt = digits_format⦄ vmm_object "offset" 5).1 ≡ ok tt)
    × ((updates ⦃pt = trees⦄ ⦃fmt = digits_format⦄ vmm_updates vmm_object).1 ≡ ok tt)
unfolding put_ones build_config build_global_config global_field ordered_bits build_channel_config
    build_channel_register_map channel_register_loop channel_values single_value array_loop
    array_values channel_loop channel_bits channel_field channel_value set_at stream bit_string
    reversed_bit_string check_overflow substr bits test_bit value narrowest find put_kids kid_list
    lookup insert set_global_register global_register_exists has_register rebuild rebuilt
    as_config_issue updates update and_then set_channel_register_one_channel
    set_channel_register_all_channels set_monitor_output changed_values store_values check_channel
    channel_register_exists entry erase_kids add_kid push_values build_ptree_from_vector
vmm_setters_done = (refl, refl, refl)
