-- ===== src/I2c/Maps/PadTrigger/From0d5.antt =====
-- PADTRIGGER_REGISTERS of NSWConfiguration/I2cRegisterMappings.h: a part.
use nswconfiguration.Common.{[], ◌∷◌}
use nswconfiguration.I2c.Codec.{AddressRegisterMap}
use nswconfiguration.Utility.{not_used}

abbrev pub padtrigger_from_0d5 : AddressRegisterMap
padtrigger_from_0d5 =
    ("0D5_pfeb_17_mask_to_1_B", ("pads[95:64]", 32) ∷ [])
    ∷ ("0D6_pfeb_17_mask_to_1_C", ("pads[63:32]", 32) ∷ [])
    ∷ ("0D7_pfeb_17_mask_to_1_D", ("pads[31:0]", 32) ∷ [])
    ∷ ("0D8_pfeb_18_mask_to_1_A", (not_used, 24) ∷ ("pads[103:96]", 8) ∷ [])
    ∷ ("0D9_pfeb_18_mask_to_1_B", ("pads[95:64]", 32) ∷ [])
    ∷ ("0DA_pfeb_18_mask_to_1_C", ("pads[63:32]", 32) ∷ [])
    ∷ ("0DB_pfeb_18_mask_to_1_D", ("pads[31:0]", 32) ∷ [])
    ∷ ("0DC_pfeb_19_mask_to_1_A", (not_used, 24) ∷ ("pads[103:96]", 8) ∷ [])
    ∷ ("0DD_pfeb_19_mask_to_1_B", ("pads[95:64]", 32) ∷ [])
    ∷ ("0DE_pfeb_19_mask_to_1_C", ("pads[63:32]", 32) ∷ [])
    ∷ ("0DF_pfeb_19_mask_to_1_D", ("pads[31:0]", 32) ∷ [])
    ∷ ("0E0_pfeb_20_mask_to_1_A", (not_used, 24) ∷ ("pads[103:96]", 8) ∷ [])
    ∷ ("0E1_pfeb_20_mask_to_1_B", ("pads[95:64]", 32) ∷ [])
    ∷ ("0E2_pfeb_20_mask_to_1_C", ("pads[63:32]", 32) ∷ [])
    ∷ ("0E3_pfeb_20_mask_to_1_D", ("pads[31:0]", 32) ∷ [])
    ∷ ("0E4_pfeb_21_mask_to_1_A", (not_used, 24) ∷ ("pads[103:96]", 8) ∷ [])
    ∷ ("0E5_pfeb_21_mask_to_1_B", ("pads[95:64]", 32) ∷ [])
    ∷ ("0E6_pfeb_21_mask_to_1_C", ("pads[63:32]", 32) ∷ [])
    ∷ ("0E7_pfeb_21_mask_to_1_D", ("pads[31:0]", 32) ∷ [])
    ∷ ("0E8_pfeb_22_mask_to_1_A", (not_used, 24) ∷ ("pads[103:96]", 8) ∷ [])
    ∷ ("0E9_pfeb_22_mask_to_1_B", ("pads[95:64]", 32) ∷ [])
    ∷ ("0EA_pfeb_22_mask_to_1_C", ("pads[63:32]", 32) ∷ [])
    ∷ ("0EB_pfeb_22_mask_to_1_D", ("pads[31:0]", 32) ∷ [])
    ∷ ("0EC_pfeb_23_mask_to_1_A", (not_used, 24) ∷ ("pads[103:96]", 8) ∷ [])
    ∷ ("0ED_pfeb_23_mask_to_1_B", ("pads[95:64]", 32) ∷ [])
    ∷ ("0EE_pfeb_23_mask_to_1_C", ("pads[63:32]", 32) ∷ [])
    ∷ ("0EF_pfeb_23_mask_to_1_D", ("pads[31:0]", 32) ∷ [])
    ∷ ("0F0_pfeb_mask_enable", (not_used, 8) ∷ ("pfeb_mask_enable", 24) ∷ [])
    ∷ []
