-- ===== src/I2c/Maps/ArtPs/From45.antt =====
-- ART_PS_REGISTERS of NSWConfiguration/I2cRegisterMappings.h: a part.
use nswconfiguration.Common.{[], ◌∷◌}
use nswconfiguration.I2c.Codec.{AddressRegisterMap}

abbrev pub art_ps_from_45 : AddressRegisterMap
art_ps_from_45 =
    (
      "45",
      ("dllLockedV", 1)
          ∷ ("reserved", 1)
          ∷ ("dllLockCfg", 2)
          ∷ ("muxEn2to8", 1)
          ∷ ("muxEn1to8", 1)
          ∷ ("dllCoarseLockDetection", 1)
          ∷ ("dllResetFromCfg", 1)
          ∷ [],
    )
    ∷ ("46", ("dataRateDll", 2) ∷ ("dllConfirmCountSelect", 2) ∷ ("dllChargePumpCurrent", 4) ∷ [])
    ∷ (
      "47",
      ("enableGroup", 1)
          ∷ ("outRegEn", 1)
          ∷ ("dataRate", 2)
          ∷ ("sampleClockSel", 2)
          ∷ ("trackMode", 2)
          ∷ [],
    )
    ∷ ("48", ("enableChannel", 8) ∷ [])
    ∷ ("49", ("resetChannel", 8) ∷ [])
    ∷ ("50", ("trainChannel", 8) ∷ [])
    ∷ ("51", ("phaseSelectChannel1input", 4) ∷ ("phaseSelectChannel0input", 4) ∷ [])
    ∷ ("52", ("phaseSelectChannel3input", 4) ∷ ("phaseSelectChannel2input", 4) ∷ [])
    ∷ ("53", ("phaseSelectChannel5input", 4) ∷ ("phaseSelectChannel4input", 4) ∷ [])
    ∷ ("54", ("phaseSelectChannel7input", 4) ∷ ("phaseSelectChannel6input", 4) ∷ [])
    ∷ ("55", ("phaseSelectChannel1output", 4) ∷ ("phaseSelectChannel0output", 4) ∷ [])
    ∷ ("56", ("phaseSelectChannel3output", 4) ∷ ("phaseSelectChannel2output", 4) ∷ [])
    ∷ ("57", ("phaseSelectChannel5output", 4) ∷ ("phaseSelectChannel4output", 4) ∷ [])
    ∷ ("58", ("phaseSelectChannel7output", 4) ∷ ("phaseSelectChannel6output", 4) ∷ [])
    ∷ ("60", ("dllLockedMask", 4) ∷ ("txcset", 4) ∷ [])
    ∷ (
      "61",
      ("unused", 2)
          ∷ ("resetAll", 1)
          ∷ ("test_mux", 1)
          ∷ ("rxOffSclk", 1)
          ∷ ("rxTermSclk", 1)
          ∷ ("rxTermClk_i", 2)
          ∷ [],
    )
    ∷ ("62", ("rxOff", 8) ∷ [])
    ∷ ("63", ("rxOff", 8) ∷ [])
    ∷ ("64", ("rxOff", 8) ∷ [])
    ∷ ("65", ("rxOff", 8) ∷ [])
    ∷ ("66", ("rxTermEnable", 8) ∷ [])
    ∷ ("67", ("rxTermEnable", 8) ∷ [])
    ∷ ("68", ("rxTermEnable", 8) ∷ [])
    ∷ []
