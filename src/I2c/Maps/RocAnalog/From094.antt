-- ===== src/I2c/Maps/RocAnalog/From094.antt =====
-- ROC_ANALOG_REGISTERS of NSWConfiguration/I2cRegisterMappings.h: a part.
use nswconfiguration.Common.{[], ◌∷◌}
use nswconfiguration.I2c.Codec.{AddressRegisterMap}

abbrev pub roc_analog_from_094 : AddressRegisterMap
roc_analog_from_094 =
    (
      "reg094ePllVmm1",
      ("ctrl_05delay_3", 1) ∷ ("ctrl_delay_3", 3) ∷ ("ctrl_bypass_3", 1) ∷ ("ctrl_phase_3", 3) ∷ [],
    )
    ∷ ("reg095ePllVmm1", ("tx_enable", 4) ∷ ("tx_csel", 4) ∷ [])
    ∷ ("reg096ePllTdc", ("ePllPhase160MHz_0[4]", 1) ∷ ("ePllPhase40MHz_0", 7) ∷ [])
    ∷ ("reg097ePllTdc", ("ePllPhase160MHz_1[4]", 1) ∷ ("ePllPhase40MHz_1", 7) ∷ [])
    ∷ ("reg098ePllTdc", ("ePllPhase160MHz_2[4]", 1) ∷ ("ePllPhase40MHz_2", 7) ∷ [])
    ∷ ("reg099ePllTdc", ("ePllPhase160MHz_3[4]", 1) ∷ ("ePllPhase40MHz_3", 7) ∷ [])
    ∷ ("reg100ePllTdc", ("ePllPhase160MHz_1[3:0]", 4) ∷ ("ePllPhase160MHz_0[3:0]", 4) ∷ [])
    ∷ ("reg101ePllTdc", ("ePllPhase160MHz_3[3:0]", 4) ∷ ("ePllPhase160MHz_2[3:0]", 4) ∷ [])
    ∷ (
      "reg102ePllTdc",
      ("ePllInstantLock", 1)
          ∷ ("ePllReset", 1)
          ∷ ("bypassPLL", 1)
          ∷ ("ePllLockEn", 1)
          ∷ ("ePllReferenceFrequency", 2)
          ∷ ("ePllCap", 2)
          ∷ [],
    )
    ∷ ("reg103ePllTdc", ("ePllRes", 4) ∷ ("ePllIcp", 4) ∷ [])
    ∷ ("reg104ePllTdc", ("ePllEnablePhase", 8) ∷ [])
    ∷ ("reg105ePllTdc", ("enable160MHzOnBCR", 4) ∷ ("enable160MHzOn40MHz", 4) ∷ [])
    ∷ ("reg106ePllTdc", ("tx_enable_bcr", 4) ∷ ("tx_csel_bcr", 4) ∷ [])
    ∷ (
      "reg107ePllTdc",
      ("ctrl_05delay_0", 1) ∷ ("ctrl_delay_0", 3) ∷ ("ctrl_bypass_0", 1) ∷ ("ctrl_phase_0", 3) ∷ [],
    )
    ∷ (
      "reg108ePllTdc",
      ("ctrl_05delay_1", 1) ∷ ("ctrl_delay_1", 3) ∷ ("ctrl_bypass_1", 1) ∷ ("ctrl_phase_1", 3) ∷ [],
    )
    ∷ (
      "reg109ePllTdc",
      ("ctrl_05delay_2", 1) ∷ ("ctrl_delay_2", 3) ∷ ("ctrl_bypass_2", 1) ∷ ("ctrl_phase_2", 3) ∷ [],
    )
    ∷ (
      "reg110ePllTdc",
      ("ctrl_05delay_3", 1) ∷ ("ctrl_delay_3", 3) ∷ ("ctrl_bypass_3", 1) ∷ ("ctrl_phase_3", 3) ∷ [],
    )
    ∷ ("reg111ePllTdc", ("tx_enable", 4) ∷ ("tx_csel", 4) ∷ [])
    ∷ (
      "reg112",
      ("ePllInstantLock", 1)
          ∷ ("ePllReset", 1)
          ∷ ("bypassPLL", 1)
          ∷ ("ePllLockEn", 1)
          ∷ ("ePllReferenceFrequency", 2)
          ∷ ("ePllCap", 2)
          ∷ [],
    )
    ∷ ("reg113", ("ePllRes", 4) ∷ ("ePllIcp", 4) ∷ [])
    ∷ ("reg114", ("ePllEnablePhase", 8) ∷ [])
    ∷ ("reg115", ("ePllPhase160MHz_0[4]", 1) ∷ ("ePllPhase40MHz_0", 7) ∷ [])
    ∷ ("reg116", ("ePllPhase160MHz_1[4]", 1) ∷ ("ePllPhase40MHz_1", 7) ∷ [])
    ∷ ("reg117", ("ePllPhase160MHz_2[4]", 1) ∷ ("ePllPhase40MHz_2", 7) ∷ [])
    ∷ ("reg118", ("ePllPhase160MHz_0[3:0]", 4) ∷ ("ePllPhase160MHz_1[3:0]", 4) ∷ [])
    ∷ (
      "reg119",
      ("tp_bypass_global", 1) ∷ ("tp_phase_global", 3) ∷ ("ePllPhase160MHz_2[3:0]", 4) ∷ [],
    )
    ∷ ("reg120", ("TDS_BCR_INV", 4) ∷ ("LockOutInv", 1) ∷ ("testOutEn", 1) ∷ ("testOutMux", 2) ∷ [])
    ∷ ("reg121vmmBcrInv", ("vmmBcrInv", 8) ∷ [])
    ∷ ("reg122vmmEnaInv", ("vmmEnaInv", 8) ∷ [])
    ∷ ("reg123vmmL0Inv", ("vmmL0Inv", 8) ∷ [])
    ∷ ("reg124vmmTpInv", ("vmmTpInv", 8) ∷ [])
    ∷ []
