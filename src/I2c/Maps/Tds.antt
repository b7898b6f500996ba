-- ===== src/I2c/Maps/Tds.antt =====
-- TDS_REGISTERS of NSWConfiguration/I2cRegisterMappings.h, in the order of the keys.
use nswconfiguration.Common.{[], ◌∷◌}
use nswconfiguration.I2c.Codec.{AddressRegisterMap}
use nswconfiguration.Utility.{not_used}

abbrev pub tds_registers : AddressRegisterMap
tds_registers =
    (
      "register0",
      ("BCID_Offset", 12)
          ∷ ("BCID_Rollover_Value", 12)
          ∷ ("CKBC_Clock_Phase", 4)
          ∷ ("Strip_Match_Window", 4)
          ∷ [],
    )
    ∷ (
      "register1",
      ("Ck160_1_Phase", 5) ∷ ("Ck160_0_Phase", 5) ∷ ("SER_PLL_I", 4) ∷ ("SER_PLL_R", 2) ∷ [],
    )
    ∷ (
      "register10",
      (not_used, 3)
          ∷ ("Chan095", 5)
          ∷ (not_used, 3)
          ∷ ("Chan094", 5)
          ∷ (not_used, 3)
          ∷ ("Chan093", 5)
          ∷ (not_used, 3)
          ∷ ("Chan092", 5)
          ∷ (not_used, 3)
          ∷ ("Chan091", 5)
          ∷ (not_used, 3)
          ∷ ("Chan090", 5)
          ∷ (not_used, 3)
          ∷ ("Chan089", 5)
          ∷ (not_used, 3)
          ∷ ("Chan088", 5)
          ∷ (not_used, 3)
          ∷ ("Chan087", 5)
          ∷ (not_used, 3)
          ∷ ("Chan086", 5)
          ∷ (not_used, 3)
          ∷ ("Chan085", 5)
          ∷ (not_used, 3)
          ∷ ("Chan084", 5)
          ∷ (not_used, 3)
          ∷ ("Chan083", 5)
          ∷ (not_used, 3)
          ∷ ("Chan082", 5)
          ∷ (not_used, 3)
          ∷ ("Chan081", 5)
          ∷ (not_used, 3)
          ∷ ("Chan080", 5)
          ∷ [],
    )
    ∷ (
      "register11",
      (not_used, 3)
          ∷ ("Chan103", 5)
          ∷ (not_used, 3)
          ∷ ("Chan102", 5)
          ∷ (not_used, 3)
          ∷ ("Chan101", 5)
          ∷ (not_used, 3)
          ∷ ("Chan100", 5)
          ∷ (not_used, 3)
          ∷ ("Chan099", 5)
          ∷ (not_used, 3)
          ∷ ("Chan098", 5)
          ∷ (not_used, 3)
          ∷ ("Chan097", 5)
          ∷ (not_used, 3)
          ∷ ("Chan096", 5)
          ∷ [],
    )
    ∷ (
      "register12",
      ("timer", 8)
          ∷ ("bypass", 4)
          ∷ ("prompt_circuit", 4)
          ∷ (not_used, 3)
          ∷ ("bypass_trigger", 1)
          ∷ ("bypass_scrambler", 1)
          ∷ ("test_frame2Router_enable", 1)
          ∷ ("stripTDS_globaltest", 1)
          ∷ ("PRBS_e", 1)
          ∷ ("resets", 8)
          ∷ [],
    )
    ∷ (
      "register13_READONLY",
      ("CRC[1295:1215]", 8)
          ∷ ("CRC[1214:1134]", 8)
          ∷ ("CRC[1133:1053]", 8)
          ∷ ("CRC[1052:972]", 8)
          ∷ ("CRC[971:891]", 8)
          ∷ ("CRC[890:810]", 8)
          ∷ ("CRC[809:729]", 8)
          ∷ ("CRC[728:648]", 8)
          ∷ ("CRC[647:567]", 8)
          ∷ ("CRC[566:486]", 8)
          ∷ ("CRC[485:405]", 8)
          ∷ ("CRC[404:324]", 8)
          ∷ ("CRC[323:243]", 8)
          ∷ ("CRC[242:162]", 8)
          ∷ ("CRC[161:81]", 8)
          ∷ ("CRC[80:0]", 8)
          ∷ [],
    )
    ∷ (
      "register14_READONLY",
      (not_used, 1)
          ∷ ("Monitor_Strip64", 19)
          ∷ (not_used, 1)
          ∷ ("Monitor_Strip0", 19)
          ∷ (not_used, 6)
          ∷ ("SER_lock", 1)
          ∷ ("Pll_lock", 1)
          ∷ [],
    )
    ∷ (
      "register15_READONLY",
      (not_used, 4)
          ∷ ("strip_trigger_bcid", 12)
          ∷ (not_used, 3)
          ∷ ("strip_trigger_band_phid", 13)
          ∷ [],
    )
    ∷ (
      "register2",
      ("Chan127", 1)
          ∷ ("Chan126", 1)
          ∷ ("Chan125", 1)
          ∷ ("Chan124", 1)
          ∷ ("Chan123", 1)
          ∷ ("Chan122", 1)
          ∷ ("Chan121", 1)
          ∷ ("Chan120", 1)
          ∷ ("Chan119", 1)
          ∷ ("Chan118", 1)
          ∷ ("Chan117", 1)
          ∷ ("Chan116", 1)
          ∷ ("Chan115", 1)
          ∷ ("Chan114", 1)
          ∷ ("Chan113", 1)
          ∷ ("Chan112", 1)
          ∷ ("Chan111", 1)
          ∷ ("Chan110", 1)
          ∷ ("Chan109", 1)
          ∷ ("Chan108", 1)
          ∷ ("Chan107", 1)
          ∷ ("Chan106", 1)
          ∷ ("Chan105", 1)
          ∷ ("Chan104", 1)
          ∷ ("Chan103", 1)
          ∷ ("Chan102", 1)
          ∷ ("Chan101", 1)
          ∷ ("Chan100", 1)
          ∷ ("Chan099", 1)
          ∷ ("Chan098", 1)
          ∷ ("Chan097", 1)
          ∷ ("Chan096", 1)
          ∷ ("Chan095", 1)
          ∷ ("Chan094", 1)
          ∷ ("Chan093", 1)
          ∷ ("Chan092", 1)
          ∷ ("Chan091", 1)
          ∷ ("Chan090", 1)
          ∷ ("Chan089", 1)
          ∷ ("Chan088", 1)
          ∷ ("Chan087", 1)
          ∷ ("Chan086", 1)
          ∷ ("Chan085", 1)
          ∷ ("Chan084", 1)
          ∷ ("Chan083", 1)
          ∷ ("Chan082", 1)
          ∷ ("Chan081", 1)
          ∷ ("Chan080", 1)
          ∷ ("Chan079", 1)
          ∷ ("Chan078", 1)
          ∷ ("Chan077", 1)
          ∷ ("Chan076", 1)
          ∷ ("Chan075", 1)
          ∷ ("Chan074", 1)
          ∷ ("Chan073", 1)
          ∷ ("Chan072", 1)
          ∷ ("Chan071", 1)
          ∷ ("Chan070", 1)
          ∷ ("Chan069", 1)
          ∷ ("Chan068", 1)
          ∷ ("Chan067", 1)
          ∷ ("Chan066", 1)
          ∷ ("Chan065", 1)
          ∷ ("Chan064", 1)
          ∷ ("Chan063", 1)
          ∷ ("Chan062", 1)
          ∷ ("Chan061", 1)
          ∷ ("Chan060", 1)
          ∷ ("Chan059", 1)
          ∷ ("Chan058", 1)
          ∷ ("Chan057", 1)
          ∷ ("Chan056", 1)
          ∷ ("Chan055", 1)
          ∷ ("Chan054", 1)
          ∷ ("Chan053", 1)
          ∷ ("Chan052", 1)
          ∷ ("Chan051", 1)
          ∷ ("Chan050", 1)
          ∷ ("Chan049", 1)
          ∷ ("Chan048", 1)
          ∷ ("Chan047", 1)
          ∷ ("Chan046", 1)
          ∷ ("Chan045", 1)
          ∷ ("Chan044", 1)
          ∷ ("Chan043", 1)
          ∷ ("Chan042", 1)
          ∷ ("Chan041", 1)
          ∷ ("Chan040", 1)
          ∷ ("Chan039", 1)
          ∷ ("Chan038", 1)
          ∷ ("Chan037", 1)
          ∷ ("Chan036", 1)
          ∷ ("Chan035", 1)
          ∷ ("Chan034", 1)
          ∷ ("Chan033", 1)
          ∷ ("Chan032", 1)
          ∷ ("Chan031", 1)
          ∷ ("Chan030", 1)
          ∷ ("Chan029", 1)
          ∷ ("Chan028", 1)
          ∷ ("Chan027", 1)
          ∷ ("Chan026", 1)
          ∷ ("Chan025", 1)
          ∷ ("Chan024", 1)
          ∷ ("Chan023", 1)
          ∷ ("Chan022", 1)
          ∷ ("Chan021", 1)
          ∷ ("Chan020", 1)
          ∷ ("Chan019", 1)
          ∷ ("Chan018", 1)
          ∷ ("Chan017", 1)
          ∷ ("Chan016", 1)
          ∷ ("Chan015", 1)
          ∷ ("Chan014", 1)
          ∷ ("Chan013", 1)
          ∷ ("Chan012", 1)
          ∷ ("Chan011", 1)
          ∷ ("Chan010", 1)
          ∷ ("Chan009", 1)
          ∷ ("Chan008", 1)
          ∷ ("Chan007", 1)
          ∷ ("Chan006", 1)
          ∷ ("Chan005", 1)
          ∷ ("Chan004", 1)
          ∷ ("Chan003", 1)
          ∷ ("Chan002", 1)
          ∷ ("Chan001", 1)
          ∷ ("Chan000", 1)
          ∷ [],
    )
    ∷ (
      "register3",
      (not_used, 1)
          ∷ ("trig_lut7", 15)
          ∷ (not_used, 1)
          ∷ ("trig_lut6", 15)
          ∷ (not_used, 1)
          ∷ ("trig_lut5", 15)
          ∷ (not_used, 1)
          ∷ ("trig_lut4", 15)
          ∷ (not_used, 1)
          ∷ ("trig_lut3", 15)
          ∷ (not_used, 1)
          ∷ ("trig_lut2", 15)
          ∷ (not_used, 1)
          ∷ ("trig_lut1", 15)
          ∷ (not_used, 1)
          ∷ ("trig_lut0", 15)
          ∷ [],
    )
    ∷ (
      "register4",
      (not_used, 1)
          ∷ ("trig_lutf", 15)
          ∷ (not_used, 1)
          ∷ ("trig_lute", 15)
          ∷ (not_used, 1)
          ∷ ("trig_lutd", 15)
          ∷ (not_used, 1)
          ∷ ("trig_lutc", 15)
          ∷ (not_used, 1)
          ∷ ("trig_lutb", 15)
          ∷ (not_used, 1)
          ∷ ("trig_luta", 15)
          ∷ (not_used, 1)
          ∷ ("trig_lut9", 15)
          ∷ (not_used, 1)
          ∷ ("trig_lut8", 15)
          ∷ [],
    )
    ∷ (
      "register5",
      (not_used, 3)
          ∷ ("Chan015", 5)
          ∷ (not_used, 3)
          ∷ ("Chan014", 5)
          ∷ (not_used, 3)
          ∷ ("Chan013", 5)
          ∷ (not_used, 3)
          ∷ ("Chan012", 5)
          ∷ (not_used, 3)
          ∷ ("Chan011", 5)
          ∷ (not_used, 3)
          ∷ ("Chan010", 5)
          ∷ (not_used, 3)
          ∷ ("Chan009", 5)
          ∷ (not_used, 3)
          ∷ ("Chan008", 5)
          ∷ (not_used, 3)
          ∷ ("Chan007", 5)
          ∷ (not_used, 3)
          ∷ ("Chan006", 5)
          ∷ (not_used, 3)
          ∷ ("Chan005", 5)
          ∷ (not_used, 3)
          ∷ ("Chan004", 5)
          ∷ (not_used, 3)
          ∷ ("Chan003", 5)
          ∷ (not_used, 3)
          ∷ ("Chan002", 5)
          ∷ (not_used, 3)
          ∷ ("Chan001", 5)
          ∷ (not_used, 3)
          ∷ ("Chan000", 5)
          ∷ [],
    )
    ∷ (
      "register6",
      (not_used, 3)
          ∷ ("Chan031", 5)
          ∷ (not_used, 3)
          ∷ ("Chan030", 5)
          ∷ (not_used, 3)
          ∷ ("Chan029", 5)
          ∷ (not_used, 3)
          ∷ ("Chan028", 5)
          ∷ (not_used, 3)
          ∷ ("Chan027", 5)
          ∷ (not_used, 3)
          ∷ ("Chan026", 5)
          ∷ (not_used, 3)
          ∷ ("Chan025", 5)
          ∷ (not_used, 3)
          ∷ ("Chan024", 5)
          ∷ (not_used, 3)
          ∷ ("Chan023", 5)
          ∷ (not_used, 3)
          ∷ ("Chan022", 5)
          ∷ (not_used, 3)
          ∷ ("Chan021", 5)
          ∷ (not_used, 3)
          ∷ ("Chan020", 5)
          ∷ (not_used, 3)
          ∷ ("Chan019", 5)
          ∷ (not_used, 3)
          ∷ ("Chan018", 5)
          ∷ (not_used, 3)
          ∷ ("Chan017", 5)
          ∷ (not_used, 3)
          ∷ ("Chan016", 5)
          ∷ [],
    )
    ∷ (
      "register7",
      (not_used, 3)
          ∷ ("Chan047", 5)
          ∷ (not_used, 3)
          ∷ ("Chan046", 5)
          ∷ (not_used, 3)
          ∷ ("Chan045", 5)
          ∷ (not_used, 3)
          ∷ ("Chan044", 5)
          ∷ (not_used, 3)
          ∷ ("Chan043", 5)
          ∷ (not_used, 3)
          ∷ ("Chan042", 5)
          ∷ (not_used, 3)
          ∷ ("Chan041", 5)
          ∷ (not_used, 3)
          ∷ ("Chan040", 5)
          ∷ (not_used, 3)
          ∷ ("Chan039", 5)
          ∷ (not_used, 3)
          ∷ ("Chan038", 5)
          ∷ (not_used, 3)
          ∷ ("Chan037", 5)
          ∷ (not_used, 3)
          ∷ ("Chan036", 5)
          ∷ (not_used, 3)
          ∷ ("Chan035", 5)
          ∷ (not_used, 3)
          ∷ ("Chan034", 5)
          ∷ (not_used, 3)
          ∷ ("Chan033", 5)
          ∷ (not_used, 3)
          ∷ ("Chan032", 5)
          ∷ [],
    )
    ∷ (
      "register8",
      (not_used, 3)
          ∷ ("Chan063", 5)
          ∷ (not_used, 3)
          ∷ ("Chan062", 5)
          ∷ (not_used, 3)
          ∷ ("Chan061", 5)
          ∷ (not_used, 3)
          ∷ ("Chan060", 5)
          ∷ (not_used, 3)
          ∷ ("Chan059", 5)
          ∷ (not_used, 3)
          ∷ ("Chan058", 5)
          ∷ (not_used, 3)
          ∷ ("Chan057", 5)
          ∷ (not_used, 3)
          ∷ ("Chan056", 5)
          ∷ (not_used, 3)
          ∷ ("Chan055", 5)
          ∷ (not_used, 3)
          ∷ ("Chan054", 5)
          ∷ (not_used, 3)
          ∷ ("Chan053", 5)
          ∷ (not_used, 3)
          ∷ ("Chan052", 5)
          ∷ (not_used, 3)
          ∷ ("Chan051", 5)
          ∷ (not_used, 3)
          ∷ ("Chan050", 5)
          ∷ (not_used, 3)
          ∷ ("Chan049", 5)
          ∷ (not_used, 3)
          ∷ ("Chan048", 5)
          ∷ [],
    )
    ∷ (
      "register9",
      (not_used, 3)
          ∷ ("Chan079", 5)
          ∷ (not_used, 3)
          ∷ ("Chan078", 5)
          ∷ (not_used, 3)
          ∷ ("Chan077", 5)
          ∷ (not_used, 3)
          ∷ ("Chan076", 5)
          ∷ (not_used, 3)
          ∷ ("Chan075", 5)
          ∷ (not_used, 3)
          ∷ ("Chan074", 5)
          ∷ (not_used, 3)
          ∷ ("Chan073", 5)
          ∷ (not_used, 3)
          ∷ ("Chan072", 5)
          ∷ (not_used, 3)
          ∷ ("Chan071", 5)
          ∷ (not_used, 3)
          ∷ ("Chan070", 5)
          ∷ (not_used, 3)
          ∷ ("Chan069", 5)
          ∷ (not_used, 3)
          ∷ ("Chan068", 5)
          ∷ (not_used, 3)
          ∷ ("Chan067", 5)
          ∷ (not_used, 3)
          ∷ ("Chan066", 5)
          ∷ (not_used, 3)
          ∷ ("Chan065", 5)
          ∷ (not_used, 3)
          ∷ ("Chan064", 5)
          ∷ [],
    )
    ∷ []
