-- ===== src/I2c/Maps/ArtCore/From00.antt =====
-- ART_CORE_REGISTERS of NSWConfiguration/I2cRegisterMappings.h: a part.
use nswconfiguration.Common.{[], ◌∷◌}
use nswconfiguration.I2c.Codec.{AddressRegisterMap}

abbrev pub art_core_from_00 : AddressRegisterMap
art_core_from_00 =
    ("00", ("c_disable_arthist", 1) ∷ ("c_bypass_pa", 1) ∷ ("rxterm", 2) ∷ ("txcset", 4) ∷ [])
    ∷ (
      "01",
      ("cfg_dout_time2", 1)
          ∷ ("cfg_bcr_sel", 1)
          ∷ ("cfg_bcrout_sel", 1)
          ∷ ("cfg_art_revall", 1)
          ∷ ("cfg_art_revbank", 4)
          ∷ [],
    )
    ∷ (
      "02",
      ("cfg_dout_pattern", 1)
          ∷ ("cfg_dout_artbypass", 1)
          ∷ ("cfg_dout_hitlist", 1)
          ∷ ("cfg_dout_artflags", 1)
          ∷ ("cfg_dout_time", 1)
          ∷ ("cfg_artmask", 3)
          ∷ [],
    )
    ∷ ("03", ("cfg_deser_flagmask", 8) ∷ [])
    ∷ ("04", ("cfg_deser_flagpatt", 8) ∷ [])
    ∷ ("05", ("cfg_din_invert[7:0]", 8) ∷ [])
    ∷ ("06", ("cfg_din_invert[15:8]", 8) ∷ [])
    ∷ ("07", ("cfg_din_invert[23:16]", 8) ∷ [])
    ∷ ("08", ("cfg_din_invert[31:24]", 8) ∷ [])
    ∷ ("09", ("cfg_din_mask[7:0]", 8) ∷ [])
    ∷ ("10", ("cfg_din_mask[15:8]", 8) ∷ [])
    ∷ ("11", ("cfg_din_mask[23:16]", 8) ∷ [])
    ∷ ("12", ("cfg_din_mask[31:24]", 8) ∷ [])
    ∷ ("13", ("cfg_bcid0[7:0]", 8) ∷ [])
    ∷ ("14", ("cfg_bcid1[3:0]", 4) ∷ ("cfg_bcid0[11:8]", 4) ∷ [])
    ∷ ("15", ("cfg_bcid1[11:4]", 8) ∷ [])
    ∷ ("16", ("cfg_artbypass_sel_ch1[2:0]", 3) ∷ ("cfg_artbypass_sel_ch0[4:0]", 5) ∷ [])
    ∷ (
      "17",
      ("cfg_artbypass_sel_ch3[0]", 1)
          ∷ ("cfg_artbypass_sel_ch2[4:0]", 5)
          ∷ ("cfg_artbypass_sel_ch1[4:3]", 2)
          ∷ [],
    )
    ∷ ("18", ("cfg_artbypass_sel_ch4[3:0]", 4) ∷ ("cfg_artbypass_sel_ch3[4:1]", 4) ∷ [])
    ∷ (
      "19",
      ("cfg_artbypass_sel_ch6[1:0]", 2)
          ∷ ("cfg_artbypass_sel_ch5[4:0]", 5)
          ∷ ("cfg_artbypass_sel_ch4[4]", 1)
          ∷ [],
    )
    ∷ ("20", ("cfg_artbypass_sel_ch7[4:0]", 5) ∷ ("cfg_artbypass_sel_ch6[4:2]", 3) ∷ [])
    ∷ ("21", ("cfg_pattern_data_phi0[7:0]", 8) ∷ [])
    ∷ ("22", ("cfg_pattern_data_phi1[1:0]", 2) ∷ ("cfg_pattern_data_phi0[13:8]", 6) ∷ [])
    ∷ ("23", ("cfg_pattern_data_phi1[9:2]", 8) ∷ [])
    ∷ ("24", ("cfg_pattern_data_phi2[3:0]", 4) ∷ ("cfg_pattern_data_phi1[13:10]", 4) ∷ [])
    ∷ []
