-- ===== src/I2c/Maps/ArtPs/From22.antt =====
-- ART_PS_REGISTERS of NSWConfiguration/I2cRegisterMappings.h: a part.
use nswconfiguration.Common.{[], ◌∷◌}
use nswconfiguration.I2c.Codec.{AddressRegisterMap}

abbrev pub art_ps_from_22 : AddressRegisterMap
art_ps_from_22 =
    ("22", ("phaseSelectChannel3input", 4) ∷ ("phaseSelectChannel2input", 4) ∷ [])
    ∷ ("23", ("phaseSelectChannel5input", 4) ∷ ("phaseSelectChannel4input", 4) ∷ [])
    ∷ ("24", ("phaseSelectChannel7input", 4) ∷ ("phaseSelectChannel6input", 4) ∷ [])
    ∷ ("25", ("phaseSelectChannel1output", 4) ∷ ("phaseSelectChannel0output", 4) ∷ [])
    ∷ ("26", ("phaseSelectChannel3output", 4) ∷ ("phaseSelectChannel2output", 4) ∷ [])
    ∷ ("27", ("phaseSelectChannel5output", 4) ∷ ("phaseSelectChannel4output", 4) ∷ [])
    ∷ ("28", ("phaseSelectChannel7output", 4) ∷ ("phaseSelectChannel6output", 4) ∷ [])
    ∷ (
      "30",
      ("dllLockedV", 1)
          ∷ ("reserved", 1)
          ∷ ("dllLockCfg", 2)
          ∷ ("muxEn2to8", 1)
          ∷ ("muxEn1to8", 1)
          ∷ ("dllCoarseLockDetection", 1)
          ∷ ("dllResetFromCfg", 1)
          ∷ [],
    )
    ∷ ("31", ("dataRateDll", 2) ∷ ("dllConfirmCountSelect", 2) ∷ ("dllChargePumpCurrent", 4) ∷ [])
    ∷ (
      "32",
      ("enableGroup", 1)
          ∷ ("outRegEn", 1)
          ∷ ("dataRate", 2)
          ∷ ("sampleClockSel", 2)
          ∷ ("trackMode", 2)
          ∷ [],
    )
    ∷ ("33", ("enableChannel", 8) ∷ [])
    ∷ ("34", ("resetChannel", 8) ∷ [])
    ∷ ("35", ("trainChannel", 8) ∷ [])
    ∷ ("36", ("phaseSelectChannel1input", 4) ∷ ("phaseSelectChannel0input", 4) ∷ [])
    ∷ ("37", ("phaseSelectChannel3input", 4) ∷ ("phaseSelectChannel2input", 4) ∷ [])
    ∷ ("38", ("phaseSelectChannel5input", 4) ∷ ("phaseSelectChannel4input", 4) ∷ [])
    ∷ ("39", ("phaseSelectChannel7input", 4) ∷ ("phaseSelectChannel6input", 4) ∷ [])
    ∷ ("40", ("phaseSelectChannel1output", 4) ∷ ("phaseSelectChannel0output", 4) ∷ [])
    ∷ ("41", ("phaseSelectChannel3output", 4) ∷ ("phaseSelectChannel2output", 4) ∷ [])
    ∷ ("42", ("phaseSelectChannel5output", 4) ∷ ("phaseSelectChannel4output", 4) ∷ [])
    ∷ ("43", ("phaseSelectChannel7output", 4) ∷ ("phaseSelectChannel6output", 4) ∷ [])
    ∷ []
