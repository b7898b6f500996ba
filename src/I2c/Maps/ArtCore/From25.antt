-- ===== src/I2c/Maps/ArtCore/From25.antt =====
-- ART_CORE_REGISTERS of NSWConfiguration/I2cRegisterMappings.h: a part.
use nswconfiguration.Common.{[], ◌∷◌}
use nswconfiguration.I2c.Codec.{AddressRegisterMap}

abbrev pub art_core_from_25 : AddressRegisterMap
art_core_from_25 =
    ("25", ("cfg_pattern_data_phi2[11:4]", 8) ∷ [])
    ∷ ("26", ("cfg_pattern_data_phi3[5:0]", 6) ∷ ("cfg_pattern_data_phi2[13:12]", 2) ∷ [])
    ∷ ("27", ("cfg_pattern_data_phi3[13:6]", 8) ∷ [])
    ∷ ("28", ("cfg_pattern_data_phi4[7:0]", 8) ∷ [])
    ∷ ("29", ("cfg_pattern_data_phi5[1:0]", 2) ∷ ("cfg_pattern_data_phi4[13:8]", 6) ∷ [])
    ∷ ("30", ("cfg_pattern_data_phi5[9:2]", 8) ∷ [])
    ∷ ("31", ("cfg_pattern_data_phi6[3:0]", 4) ∷ ("cfg_pattern_data_phi5[13:10]", 4) ∷ [])
    ∷ ("32", ("cfg_pattern_data_phi6[11:4]", 8) ∷ [])
    ∷ ("33", ("cfg_pattern_data_phi7[5:0]", 6) ∷ ("cfg_pattern_data_phi6[13:12]", 2) ∷ [])
    ∷ ("34", ("cfg_pattern_data_phi7[13:6]", 8) ∷ [])
    ∷ []
