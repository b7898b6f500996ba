-- ===== src/I2c/Maps/PadTrigger/From011.antt =====
-- PADTRIGGER_REGISTERS of NSWConfiguration/I2cRegisterMappings.h: a part.
use nswconfiguration.Common.{[], ◌∷◌}
use nswconfiguration.I2c.Codec.{AddressRegisterMap}
use nswconfiguration.Utility.{not_used}

abbrev pub padtrigger_from_011 : AddressRegisterMap
padtrigger_from_011 =
    ("011_gt_tx_reset", (not_used, 8) ∷ ("gt_tx_reset", 24) ∷ [])
    ∷ ("012_pad_bcid_error_READONLY", ("pad_bcid_error_dif", 16) ∷ ("pad_bcid_error", 16) ∷ [])
    ∷ ("013_pt_2_tp_lat_READONLY", (not_used, 24) ∷ ("pt_2_tp_lat", 8) ∷ [])
    ∷ ("014_tp_bcid_error_READONLY", ("tp_bcid_error_dif", 16) ∷ ("tp_bcid_error", 16) ∷ [])
    ∷ ("015_ttc_mon_0_READONLY", ("ttc_test_pulse_rate", 16) ∷ ("ttc_bcr_ocr_rate", 16) ∷ [])
    ∷ ("016_trig_bcid_READONLY", (not_used, 20) ∷ ("trig_bcid", 12) ∷ [])
    ∷ ("017_pfeb_bcid_error_READONLY", (not_used, 8) ∷ ("pfeb_bcid_error", 24) ∷ [])
    ∷ ("018_gt_rx_lol_READONLY", (not_used, 8) ∷ ("gt_rx_lol", 24) ∷ [])
    ∷ ("019_ttc_mon_1_READONLY", ("ttc_l0a_rate", 16) ∷ ("ttc_l1a_rate", 16) ∷ [])
    ∷ ("01A_ttc_mon_2_READONLY", ("ttc_ec0r_rate", 16) ∷ ("ttc_ecr_rate", 16) ∷ [])
    ∷ ("01B_ttc_mon_3_READONLY", ("ttc_sca_reset_rate", 16) ∷ ("ttc_soft_reset_rate", 16) ∷ [])
    ∷ ("01C_control_reg4", (not_used, 20) ∷ ("trig_bcid_select", 12) ∷ [])
    ∷ ("030_pfeb_00_mask_to_0_A", (not_used, 24) ∷ ("pads[103:96]", 8) ∷ [])
    ∷ ("031_pfeb_00_mask_to_0_B", ("pads[95:64]", 32) ∷ [])
    ∷ ("032_pfeb_00_mask_to_0_C", ("pads[63:32]", 32) ∷ [])
    ∷ ("033_pfeb_00_mask_to_0_D", ("pads[31:0]", 32) ∷ [])
    ∷ ("034_pfeb_01_mask_to_0_A", (not_used, 24) ∷ ("pads[103:96]", 8) ∷ [])
    ∷ ("035_pfeb_01_mask_to_0_B", ("pads[95:64]", 32) ∷ [])
    ∷ ("036_pfeb_01_mask_to_0_C", ("pads[63:32]", 32) ∷ [])
    ∷ ("037_pfeb_01_mask_to_0_D", ("pads[31:0]", 32) ∷ [])
    ∷ ("038_pfeb_02_mask_to_0_A", (not_used, 24) ∷ ("pads[103:96]", 8) ∷ [])
    ∷ ("039_pfeb_02_mask_to_0_B", ("pads[95:64]", 32) ∷ [])
    ∷ ("03A_pfeb_02_mask_to_0_C", ("pads[63:32]", 32) ∷ [])
    ∷ ("03B_pfeb_02_mask_to_0_D", ("pads[31:0]", 32) ∷ [])
    ∷ ("03C_pfeb_03_mask_to_0_A", (not_used, 24) ∷ ("pads[103:96]", 8) ∷ [])
    ∷ ("03D_pfeb_03_mask_to_0_B", ("pads[95:64]", 32) ∷ [])
    ∷ ("03E_pfeb_03_mask_to_0_C", ("pads[63:32]", 32) ∷ [])
    ∷ ("03F_pfeb_03_mask_to_0_D", ("pads[31:0]", 32) ∷ [])
    ∷ ("040_pfeb_04_mask_to_0_A", (not_used, 24) ∷ ("pads[103:96]", 8) ∷ [])
    ∷ ("041_pfeb_04_mask_to_0_B", ("pads[95:64]", 32) ∷ [])
    ∷ ("042_pfeb_04_mask_to_0_C", ("pads[63:32]", 32) ∷ [])
    ∷ ("043_pfeb_04_mask_to_0_D", ("pads[31:0]", 32) ∷ [])
    ∷ ("044_pfeb_05_mask_to_0_A", (not_used, 24) ∷ ("pads[103:96]", 8) ∷ [])
    ∷ ("045_pfeb_05_mask_to_0_B", ("pads[95:64]", 32) ∷ [])
    ∷ ("046_pfeb_05_mask_to_0_C", ("pads[63:32]", 32) ∷ [])
    ∷ ("047_pfeb_05_mask_to_0_D", ("pads[31:0]", 32) ∷ [])
    ∷ ("048_pfeb_06_mask_to_0_A", (not_used, 24) ∷ ("pads[103:96]", 8) ∷ [])
    ∷ ("049_pfeb_06_mask_to_0_B", ("pads[95:64]", 32) ∷ [])
    ∷ ("04A_pfeb_06_mask_to_0_C", ("pads[63:32]", 32) ∷ [])
    ∷ ("04B_pfeb_06_mask_to_0_D", ("pads[31:0]", 32) ∷ [])
    ∷ ("04C_pfeb_07_mask_to_0_A", (not_used, 24) ∷ ("pads[103:96]", 8) ∷ [])
    ∷ ("04D_pfeb_07_mask_to_0_B", ("pads[95:64]", 32) ∷ [])
    ∷ []
