-- ===== src/I2c/Maps/PadTrigger/From07b.antt =====
-- PADTRIGGER_REGISTERS of NSWConfiguration/I2cRegisterMappings.h: a part.
use nswconfiguration.Common.{[], ◌∷◌}
use nswconfiguration.I2c.Codec.{AddressRegisterMap}
use nswconfiguration.Utility.{not_used}

abbrev pub padtrigger_from_07b : AddressRegisterMap
padtrigger_from_07b =
    ("07B_pfeb_18_mask_to_0_D", ("pads[31:0]", 32) ∷ [])
    ∷ ("07C_pfeb_19_mask_to_0_A", (not_used, 24) ∷ ("pads[103:96]", 8) ∷ [])
    ∷ ("07D_pfeb_19_mask_to_0_B", ("pads[95:64]", 32) ∷ [])
    ∷ ("07E_pfeb_19_mask_to_0_C", ("pads[63:32]", 32) ∷ [])
    ∷ ("07F_pfeb_19_mask_to_0_D", ("pads[31:0]", 32) ∷ [])
    ∷ ("080_pfeb_20_mask_to_0_A", (not_used, 24) ∷ ("pads[103:96]", 8) ∷ [])
    ∷ ("081_pfeb_20_mask_to_0_B", ("pads[95:64]", 32) ∷ [])
    ∷ ("082_pfeb_20_mask_to_0_C", ("pads[63:32]", 32) ∷ [])
    ∷ ("083_pfeb_20_mask_to_0_D", ("pads[31:0]", 32) ∷ [])
    ∷ ("084_pfeb_21_mask_to_0_A", (not_used, 24) ∷ ("pads[103:96]", 8) ∷ [])
    ∷ ("085_pfeb_21_mask_to_0_B", ("pads[95:64]", 32) ∷ [])
    ∷ ("086_pfeb_21_mask_to_0_C", ("pads[63:32]", 32) ∷ [])
    ∷ ("087_pfeb_21_mask_to_0_D", ("pads[31:0]", 32) ∷ [])
    ∷ ("088_pfeb_22_mask_to_0_A", (not_used, 24) ∷ ("pads[103:96]", 8) ∷ [])
    ∷ ("089_pfeb_22_mask_to_0_B", ("pads[95:64]", 32) ∷ [])
    ∷ ("08A_pfeb_22_mask_to_0_C", ("pads[63:32]", 32) ∷ [])
    ∷ ("08B_pfeb_22_mask_to_0_D", ("pads[31:0]", 32) ∷ [])
    ∷ ("08C_pfeb_23_mask_to_0_A", (not_used, 24) ∷ ("pads[103:96]", 8) ∷ [])
    ∷ ("08D_pfeb_23_mask_to_0_B", ("pads[95:64]", 32) ∷ [])
    ∷ ("08E_pfeb_23_mask_to_0_C", ("pads[63:32]", 32) ∷ [])
    ∷ ("08F_pfeb_23_mask_to_0_D", ("pads[31:0]", 32) ∷ [])
    ∷ ("090_pfeb_00_mask_to_1_A", (not_used, 24) ∷ ("pads[103:96]", 8) ∷ [])
    ∷ ("091_pfeb_00_mask_to_1_B", ("pads[95:64]", 32) ∷ [])
    ∷ ("092_pfeb_00_mask_to_1_C", ("pads[63:32]", 32) ∷ [])
    ∷ ("093_pfeb_00_mask_to_1_D", ("pads[31:0]", 32) ∷ [])
    ∷ ("094_pfeb_01_mask_to_1_A", (not_used, 24) ∷ ("pads[103:96]", 8) ∷ [])
    ∷ ("095_pfeb_01_mask_to_1_B", ("pads[95:64]", 32) ∷ [])
    ∷ ("096_pfeb_01_mask_to_1_C", ("pads[63:32]", 32) ∷ [])
    ∷ ("097_pfeb_01_mask_to_1_D", ("pads[31:0]", 32) ∷ [])
    ∷ ("098_pfeb_02_mask_to_1_A", (not_used, 24) ∷ ("pads[103:96]", 8) ∷ [])
    ∷ ("099_pfeb_02_mask_to_1_B", ("pads[95:64]", 32) ∷ [])
    ∷ ("09A_pfeb_02_mask_to_1_C", ("pads[63:32]", 32) ∷ [])
    ∷ ("09B_pfeb_02_mask_to_1_D", ("pads[31:0]", 32) ∷ [])
    ∷ ("09C_pfeb_03_mask_to_1_A", (not_used, 24) ∷ ("pads[103:96]", 8) ∷ [])
    ∷ ("09D_pfeb_03_mask_to_1_B", ("pads[95:64]", 32) ∷ [])
    ∷ ("09E_pfeb_03_mask_to_1_C", ("pads[63:32]", 32) ∷ [])
    ∷ ("09F_pfeb_03_mask_to_1_D", ("pads[31:0]", 32) ∷ [])
    ∷ ("0A0_pfeb_04_mask_to_1_A", (not_used, 24) ∷ ("pads[103:96]", 8) ∷ [])
    ∷ ("0A1_pfeb_04_mask_to_1_B", ("pads[95:64]", 32) ∷ [])
    ∷ ("0A2_pfeb_04_mask_to_1_C", ("pads[63:32]", 32) ∷ [])
    ∷ ("0A3_pfeb_04_mask_to_1_D", ("pads[31:0]", 32) ∷ [])
    ∷ ("0A4_pfeb_05_mask_to_1_A", (not_used, 24) ∷ ("pads[103:96]", 8) ∷ [])
    ∷ ("0A5_pfeb_05_mask_to_1_B", ("pads[95:64]", 32) ∷ [])
    ∷ ("0A6_pfeb_05_mask_to_1_C", ("pads[63:32]", 32) ∷ [])
    ∷ ("0A7_pfeb_05_mask_to_1_D", ("pads[31:0]", 32) ∷ [])
    ∷ []
