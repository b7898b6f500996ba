-- ===== src/I2c/Maps/PadTrigger/From0a8.antt =====
-- PADTRIGGER_REGISTERS of NSWConfiguration/I2cRegisterMappings.h: a part.
use nswconfiguration.Common.{[], ◌∷◌}
use nswconfiguration.I2c.Codec.{AddressRegisterMap}
use nswconfiguration.Utility.{not_used}

abbrev pub padtrigger_from_0a8 : AddressRegisterMap
padtrigger_from_0a8 =
    ("0A8_pfeb_06_mask_to_1_A", (not_used, 24) ∷ ("pads[103:96]", 8) ∷ [])
    ∷ ("0A9_pfeb_06_mask_to_1_B", ("pads[95:64]", 32) ∷ [])
    ∷ ("0AA_pfeb_06_mask_to_1_C", ("pads[63:32]", 32) ∷ [])
    ∷ ("0AB_pfeb_06_mask_to_1_D", ("pads[31:0]", 32) ∷ [])
    ∷ ("0AC_pfeb_07_mask_to_1_A", (not_used, 24) ∷ ("pads[103:96]", 8) ∷ [])
    ∷ ("0AD_pfeb_07_mask_to_1_B", ("pads[95:64]", 32) ∷ [])
    ∷ ("0AE_pfeb_07_mask_to_1_C", ("pads[63:32]", 32) ∷ [])
    ∷ ("0AF_pfeb_07_mask_to_1_D", ("pads[31:0]", 32) ∷ [])
    ∷ ("0B0_pfeb_08_mask_to_1_A", (not_used, 24) ∷ ("pads[103:96]", 8) ∷ [])
    ∷ ("0B1_pfeb_08_mask_to_1_B", ("pads[95:64]", 32) ∷ [])
    ∷ ("0B2_pfeb_08_mask_to_1_C", ("pads[63:32]", 32) ∷ [])
    ∷ ("0B3_pfeb_08_mask_to_1_D", ("pads[31:0]", 32) ∷ [])
    ∷ ("0B4_pfeb_09_mask_to_1_A", (not_used, 24) ∷ ("pads[103:96]", 8) ∷ [])
    ∷ ("0B5_pfeb_09_mask_to_1_B", ("pads[95:64]", 32) ∷ [])
    ∷ ("0B6_pfeb_09_mask_to_1_C", ("pads[63:32]", 32) ∷ [])
    ∷ ("0B7_pfeb_09_mask_to_1_D", ("pads[31:0]", 32) ∷ [])
    ∷ ("0B8_pfeb_10_mask_to_1_A", (not_used, 24) ∷ ("pads[103:96]", 8) ∷ [])
    ∷ ("0B9_pfeb_10_mask_to_1_B", ("pads[95:64]", 32) ∷ [])
    ∷ ("0BA_pfeb_10_mask_to_1_C", ("pads[63:32]", 32) ∷ [])
    ∷ ("0BB_pfeb_10_mask_to_1_D", ("pads[31:0]", 32) ∷ [])
    ∷ ("0BC_pfeb_11_mask_to_1_A", (not_used, 24) ∷ ("pads[103:96]", 8) ∷ [])
    ∷ ("0BD_pfeb_11_mask_to_1_B", ("pads[95:64]", 32) ∷ [])
    ∷ ("0BE_pfeb_11_mask_to_1_C", ("pads[63:32]", 32) ∷ [])
    ∷ ("0BF_pfeb_11_mask_to_1_D", ("pads[31:0]", 32) ∷ [])
    ∷ ("0C0_pfeb_12_mask_to_1_A", (not_used, 24) ∷ ("pads[103:96]", 8) ∷ [])
    ∷ ("0C1_pfeb_12_mask_to_1_B", ("pads[95:64]", 32) ∷ [])
    ∷ ("0C2_pfeb_12_mask_to_1_C", ("pads[63:32]", 32) ∷ [])
    ∷ ("0C3_pfeb_12_mask_to_1_D", ("pads[31:0]", 32) ∷ [])
    ∷ ("0C4_pfeb_13_mask_to_1_A", (not_used, 24) ∷ ("pads[103:96]", 8) ∷ [])
    ∷ ("0C5_pfeb_13_mask_to_1_B", ("pads[95:64]", 32) ∷ [])
    ∷ ("0C6_pfeb_13_mask_to_1_C", ("pads[63:32]", 32) ∷ [])
    ∷ ("0C7_pfeb_13_mask_to_1_D", ("pads[31:0]", 32) ∷ [])
    ∷ ("0C8_pfeb_14_mask_to_1_A", (not_used, 24) ∷ ("pads[103:96]", 8) ∷ [])
    ∷ ("0C9_pfeb_14_mask_to_1_B", ("pads[95:64]", 32) ∷ [])
    ∷ ("0CA_pfeb_14_mask_to_1_C", ("pads[63:32]", 32) ∷ [])
    ∷ ("0CB_pfeb_14_mask_to_1_D", ("pads[31:0]", 32) ∷ [])
    ∷ ("0CC_pfeb_15_mask_to_1_A", (not_used, 24) ∷ ("pads[103:96]", 8) ∷ [])
    ∷ ("0CD_pfeb_15_mask_to_1_B", ("pads[95:64]", 32) ∷ [])
    ∷ ("0CE_pfeb_15_mask_to_1_C", ("pads[63:32]", 32) ∷ [])
    ∷ ("0CF_pfeb_15_mask_to_1_D", ("pads[31:0]", 32) ∷ [])
    ∷ ("0D0_pfeb_16_mask_to_1_A", (not_used, 24) ∷ ("pads[103:96]", 8) ∷ [])
    ∷ ("0D1_pfeb_16_mask_to_1_B", ("pads[95:64]", 32) ∷ [])
    ∷ ("0D2_pfeb_16_mask_to_1_C", ("pads[63:32]", 32) ∷ [])
    ∷ ("0D3_pfeb_16_mask_to_1_D", ("pads[31:0]", 32) ∷ [])
    ∷ ("0D4_pfeb_17_mask_to_1_A", (not_used, 24) ∷ ("pads[103:96]", 8) ∷ [])
    ∷ []
