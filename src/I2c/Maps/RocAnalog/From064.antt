-- ===== src/I2c/Maps/RocAnalog/From064.antt =====
-- ROC_ANALOG_REGISTERS of NSWConfiguration/I2cRegisterMappings.h: a part.
use nswconfiguration.Common.{[], ◌∷◌}
use nswconfiguration.I2c.Codec.{AddressRegisterMap}

abbrev pub roc_analog_from_064 : AddressRegisterMap
roc_analog_from_064 =
    ("reg064ePllVmm0", ("ePllPhase160MHz_0[4]", 1) ∷ ("ePllPhase40MHz_0", 7) ∷ [])
    ∷ ("reg065ePllVmm0", ("ePllPhase160MHz_1[4]", 1) ∷ ("ePllPhase40MHz_1", 7) ∷ [])
    ∷ ("reg066ePllVmm0", ("ePllPhase160MHz_2[4]", 1) ∷ ("ePllPhase40MHz_2", 7) ∷ [])
    ∷ ("reg067ePllVmm0", ("ePllPhase160MHz_3[4]", 1) ∷ ("ePllPhase40MHz_3", 7) ∷ [])
    ∷ ("reg068ePllVmm0", ("ePllPhase160MHz_1[3:0]", 4) ∷ ("ePllPhase160MHz_0[3:0]", 4) ∷ [])
    ∷ ("reg069ePllVmm0", ("ePllPhase160MHz_3[3:0]", 4) ∷ ("ePllPhase160MHz_2[3:0]", 4) ∷ [])
    ∷ (
      "reg070ePllVmm0",
      ("ePllInstantLock", 1)
          ∷ ("ePllReset", 1)
          ∷ ("bypassPLL", 1)
          ∷ ("ePllLockEn", 1)
          ∷ ("ePllReferenceFrequency", 2)
          ∷ ("ePllCap", 2)
          ∷ [],
    )
    ∷ ("reg071ePllVmm0", ("ePllRes", 4) ∷ ("ePllIcp", 4) ∷ [])
    ∷ ("reg072ePllVmm0", ("ePllEnablePhase", 8) ∷ [])
    ∷ (
      "reg073ePllVmm0",
      ("tp_bypass_1", 1) ∷ ("tp_phase_1", 3) ∷ ("tp_bypass_0", 1) ∷ ("tp_phase_0", 3) ∷ [],
    )
    ∷ (
      "reg074ePllVmm0",
      ("tp_bypass_3", 1) ∷ ("tp_phase_3", 3) ∷ ("tp_bypass_2", 1) ∷ ("tp_phase_2", 3) ∷ [],
    )
    ∷ (
      "reg075ePllVmm0",
      ("ctrl_05delay_0", 1) ∷ ("ctrl_delay_0", 3) ∷ ("ctrl_bypass_0", 1) ∷ ("ctrl_phase_0", 3) ∷ [],
    )
    ∷ (
      "reg076ePllVmm0",
      ("ctrl_05delay_1", 1) ∷ ("ctrl_delay_1", 3) ∷ ("ctrl_bypass_1", 1) ∷ ("ctrl_phase_1", 3) ∷ [],
    )
    ∷ (
      "reg077ePllVmm0",
      ("ctrl_05delay_2", 1) ∷ ("ctrl_delay_2", 3) ∷ ("ctrl_bypass_2", 1) ∷ ("ctrl_phase_2", 3) ∷ [],
    )
    ∷ (
      "reg078ePllVmm0",
      ("ctrl_05delay_3", 1) ∷ ("ctrl_delay_3", 3) ∷ ("ctrl_bypass_3", 1) ∷ ("ctrl_phase_3", 3) ∷ [],
    )
    ∷ ("reg079ePllVmm0", ("tx_enable", 4) ∷ ("tx_csel", 4) ∷ [])
    ∷ ("reg080ePllVmm1", ("ePllPhase160MHz_0[4]", 1) ∷ ("ePllPhase40MHz_0", 7) ∷ [])
    ∷ ("reg081ePllVmm1", ("ePllPhase160MHz_1[4]", 1) ∷ ("ePllPhase40MHz_1", 7) ∷ [])
    ∷ ("reg082ePllVmm1", ("ePllPhase160MHz_2[4]", 1) ∷ ("ePllPhase40MHz_2", 7) ∷ [])
    ∷ ("reg083ePllVmm1", ("ePllPhase160MHz_3[4]", 1) ∷ ("ePllPhase40MHz_3", 7) ∷ [])
    ∷ ("reg084ePllVmm1", ("ePllPhase160MHz_1[3:0]", 4) ∷ ("ePllPhase160MHz_0[3:0]", 4) ∷ [])
    ∷ ("reg085ePllVmm1", ("ePllPhase160MHz_3[3:0]", 4) ∷ ("ePllPhase160MHz_2[3:0]", 4) ∷ [])
    ∷ (
      "reg086ePllVmm1",
      ("ePllInstantLock", 1)
          ∷ ("ePllReset", 1)
          ∷ ("bypassPLL", 1)
          ∷ ("ePllLockEn", 1)
          ∷ ("ePllReferenceFrequency", 2)
          ∷ ("ePllCap", 2)
          ∷ [],
    )
    ∷ ("reg087ePllVmm1", ("ePllRes", 4) ∷ ("ePllIcp", 4) ∷ [])
    ∷ ("reg088ePllVmm1", ("ePllEnablePhase", 8) ∷ [])
    ∷ (
      "reg089ePllVmm1",
      ("tp_bypass_1", 1) ∷ ("tp_phase_1", 3) ∷ ("tp_bypass_0", 1) ∷ ("tp_phase_0", 3) ∷ [],
    )
    ∷ (
      "reg090ePllVmm1",
      ("tp_bypass_3", 1) ∷ ("tp_phase_3", 3) ∷ ("tp_bypass_2", 1) ∷ ("tp_phase_2", 3) ∷ [],
    )
    ∷ (
      "reg091ePllVmm1",
      ("ctrl_05delay_0", 1) ∷ ("ctrl_delay_0", 3) ∷ ("ctrl_bypass_0", 1) ∷ ("ctrl_phase_0", 3) ∷ [],
    )
    ∷ (
      "reg092ePllVmm1",
      ("ctrl_05delay_1", 1) ∷ ("ctrl_delay_1", 3) ∷ ("ctrl_bypass_1", 1) ∷ ("ctrl_phase_1", 3) ∷ [],
    )
    ∷ (
      "reg093ePllVmm1",
      ("ctrl_05delay_2", 1) ∷ ("ctrl_delay_2", 3) ∷ ("ctrl_bypass_2", 1) ∷ ("ctrl_phase_2", 3) ∷ [],
    )
    ∷ []
