-- ===== src/Runs/Gbtxs.antt =====
-- The theorems on src/GBTxConfig.cpp at an object of the type mmg.
use nswconfiguration.Common.{
  arith, ℕ, ◌≡◌, refl, true, List, [], ◌∷◌, length, replicate, get_elem?, if◌then◌else◌, any, ◌==◌,
  some,
}
use nswconfiguration.Common.Results.{ok}
use nswconfiguration.Common.Assoc.{lookup}
use nswconfiguration.Text.{contains}
use nswconfiguration.Gbtx.Map.{RegMap, reg_map}
use nswconfiguration.Gbtx.Maps.{compiled_gbtx_register_map}
use nswconfiguration.Gbtx.Config.{
  GbtxConfig, get_phases_vector, set_setting, reset, trainable, is_type, set_training_registers_on,
  set_training_registers_off,
}
use nswconfiguration.Gbtx.Config.Phases.{get_phases_vector-bytes}
use nswconfiguration.Gbtx.Config.Bytes.{fields}
use nswconfiguration.Gbtx.Config.Settings.{IsGbtx, Changes, set_setting-Changes, reset-Changes}
use nswconfiguration.Gbtx.Config.Training.{
  overwritten, train_writes, set_training_registers_on-Changes, set_training_registers_off-Changes,
}

abbrev mmg : GbtxConfig
mmg = record {
  config = replicate 436 3;
  register_maps = compiled_gbtx_register_map;
  gbtx_type = "mmg1";
  active = true;
}

mmg-IsGbtx : IsGbtx mmg
mmg-IsGbtx = record { maps = refl; long = refl }

mmg-trainable : trainable mmg ≡ true
unfolding trainable is_type contains
mmg-trainable = refl

abbrev mode : RegMap
mode = reg_map "paMode" "Phase-aligner track mode" (0 ∷ 2 ∷ 4 ∷ []) (62 ∷ 62 ∷ 62 ∷ [])

mode_known : lookup "paMode" compiled_gbtx_register_map ≡ some mode
unfolding lookup compiled_gbtx_register_map
mode_known = refl

set_setting-Changes_example :
    Changes mmg (fields 2 (62 ∷ 62 ∷ 62 ∷ []) (0 ∷ 2 ∷ 4 ∷ [])) (set_setting mmg "paMode" 2)
set_setting-Changes_example = set_setting-Changes "paMode" 2 mode mode_known mmg mmg-IsGbtx

reset-Changes_example :
    Changes mmg
      (λ r old.
        fields 2
          (62 ∷ 62 ∷ 62 ∷ [])
          (0 ∷ 2 ∷ 4 ∷ [])
          r
          (if any (λ x. x == r) (62 ∷ 62 ∷ 62 ∷ []) then 0 else old))
      (reset mmg "paMode" 2)
reset-Changes_example = reset-Changes "paMode" 2 mode mode_known mmg mmg-IsGbtx

set_training_registers_off-Changes_example :
    Changes mmg (overwritten (train_writes 0)) (set_training_registers_off mmg)
set_training_registers_off-Changes_example =
    set_training_registers_off-Changes mmg mmg-IsGbtx mmg-trainable

set_training_registers_on-Changes_example :
    Changes mmg
      (λ r old. overwritten (train_writes 255) r (overwritten ((62 ∷ [], 21) ∷ []) r old))
      (set_training_registers_on mmg)
set_training_registers_on-Changes_example =
    set_training_registers_on-Changes mmg mmg-IsGbtx mmg-trainable

get_phases_vector-bytes_example :
    (phases : List ℕ) × (get_phases_vector mmg.config ≡ ok phases)
    × (length phases ≡ 57)
    × (get_elem? phases 10 ≡ some 3)
    × (get_elem? phases 11 ≡ some 0)
    × (get_elem? phases 56 ≡ some 3)
get_phases_vector-bytes_example =
    get_phases_vector-bytes mmg.config 5 3 3 refl (omega arith) refl refl
