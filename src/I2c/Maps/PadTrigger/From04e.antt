-- ===== src/I2c/Maps/PadTrigger/From04e.antt =====
-- PADTRIGGER_REGISTERS of NSWConfiguration/I2cRegisterMappings.h: a part.
use nswconfiguration.Common.{[], ◌∷◌}
use nswconfiguration.I2c.Codec.{AddressRegisterMap}
use nswconfiguration.Utility.{not_used}

abbrev pub padtrigger_from_04e : AddressRegisterMap
padtrigger_from_04e =
    ("04E_pfeb_07_mask_to_0_C", ("pads[63:32]", 32) ∷ [])
    ∷ ("04F_pfeb_07_mask_to_0_D", ("pads[31:0]", 32) ∷ [])
    ∷ ("050_pfeb_08_mask_to_0_A", (not_used, 24) ∷ ("pads[103:96]", 8) ∷ [])
    ∷ ("051_pfeb_08_mask_to_0_B", ("pads[95:64]", 32) ∷ [])
    ∷ ("052_pfeb_08_mask_to_0_C", ("pads[63:32]", 32) ∷ [])
    ∷ ("053_pfeb_08_mask_to_0_D", ("pads[31:0]", 32) ∷ [])
    ∷ ("054_pfeb_09_mask_to_0_A", (not_used, 24) ∷ ("pads[103:96]", 8) ∷ [])
    ∷ ("055_pfeb_09_mask_to_0_B", ("pads[95:64]", 32) ∷ [])
    ∷ ("056_pfeb_09_mask_to_0_C", ("pads[63:32]", 32) ∷ [])
    ∷ ("057_pfeb_09_mask_to_0_D", ("pads[31:0]", 32) ∷ [])
    ∷ ("058_pfeb_10_mask_to_0_A", (not_used, 24) ∷ ("pads[103:96]", 8) ∷ [])
    ∷ ("059_pfeb_10_mask_to_0_B", ("pads[95:64]", 32) ∷ [])
    ∷ ("05A_pfeb_10_mask_to_0_C", ("pads[63:32]", 32) ∷ [])
    ∷ ("05B_pfeb_10_mask_to_0_D", ("pads[31:0]", 32) ∷ [])
    ∷ ("05C_pfeb_11_mask_to_0_A", (not_used, 24) ∷ ("pads[103:96]", 8) ∷ [])
    ∷ ("05D_pfeb_11_mask_to_0_B", ("pads[95:64]", 32) ∷ [])
    ∷ ("05E_pfeb_11_mask_to_0_C", ("pads[63:32]", 32) ∷ [])
    ∷ ("05F_pfeb_11_mask_to_0_D", ("pads[31:0]", 32) ∷ [])
    ∷ ("060_pfeb_12_mask_to_0_A", (not_used, 24) ∷ ("pads[103:96]", 8) ∷ [])
    ∷ ("061_pfeb_12_mask_to_0_B", ("pads[95:64]", 32) ∷ [])
    ∷ ("062_pfeb_12_mask_to_0_C", ("pads[63:32]", 32) ∷ [])
    ∷ ("063_pfeb_12_mask_to_0_D", ("pads[31:0]", 32) ∷ [])
    ∷ ("064_pfeb_13_mask_to_0_A", (not_used, 24) ∷ ("pads[103:96]", 8) ∷ [])
    ∷ ("065_pfeb_13_mask_to_0_B", ("pads[95:64]", 32) ∷ [])
    ∷ ("066_pfeb_13_mask_to_0_C", ("pads[63:32]", 32) ∷ [])
    ∷ ("067_pfeb_13_mask_to_0_D", ("pads[31:0]", 32) ∷ [])
    ∷ ("068_pfeb_14_mask_to_0_A", (not_used, 24) ∷ ("pads[103:96]", 8) ∷ [])
    ∷ ("069_pfeb_14_mask_to_0_B", ("pads[95:64]", 32) ∷ [])
    ∷ ("06A_pfeb_14_mask_to_0_C", ("pads[63:32]", 32) ∷ [])
    ∷ ("06B_pfeb_14_mask_to_0_D", ("pads[31:0]", 32) ∷ [])
    ∷ ("06C_pfeb_15_mask_to_0_A", (not_used, 24) ∷ ("pads[103:96]", 8) ∷ [])
    ∷ ("06D_pfeb_15_mask_to_0_B", ("pads[95:64]", 32) ∷ [])
    ∷ ("06E_pfeb_15_mask_to_0_C", ("pads[63:32]", 32) ∷ [])
    ∷ ("06F_pfeb_15_mask_to_0_D", ("pads[31:0]", 32) ∷ [])
    ∷ ("070_pfeb_16_mask_to_0_A", (not_used, 24) ∷ ("pads[103:96]", 8) ∷ [])
    ∷ ("071_pfeb_16_mask_to_0_B", ("pads[95:64]", 32) ∷ [])
    ∷ ("072_pfeb_16_mask_to_0_C", ("pads[63:32]", 32) ∷ [])
    ∷ ("073_pfeb_16_mask_to_0_D", ("pads[31:0]", 32) ∷ [])
    ∷ ("074_pfeb_17_mask_to_0_A", (not_used, 24) ∷ ("pads[103:96]", 8) ∷ [])
    ∷ ("075_pfeb_17_mask_to_0_B", ("pads[95:64]", 32) ∷ [])
    ∷ ("076_pfeb_17_mask_to_0_C", ("pads[63:32]", 32) ∷ [])
    ∷ ("077_pfeb_17_mask_to_0_D", ("pads[31:0]", 32) ∷ [])
    ∷ ("078_pfeb_18_mask_to_0_A", (not_used, 24) ∷ ("pads[103:96]", 8) ∷ [])
    ∷ ("079_pfeb_18_mask_to_0_B", ("pads[95:64]", 32) ∷ [])
    ∷ ("07A_pfeb_18_mask_to_0_C", ("pads[63:32]", 32) ∷ [])
    ∷ []
