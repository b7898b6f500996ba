-- ===== src/I2c/Maps/ArtPs/From00.antt =====
-- ART_PS_REGISTERS of NSWConfiguration/I2cRegisterMappings.h: a part.
use nswconfiguration.Common.{[], ◌∷◌}
use nswconfiguration.I2c.Codec.{AddressRegisterMap}

abbrev pub art_ps_from_00 : AddressRegisterMap
art_ps_from_00 =
    (
      "00",
      ("dllLockedV", 1)
          ∷ ("reserved", 1)
          ∷ ("dllLockCfg", 2)
          ∷ ("muxEn2to8", 1)
          ∷ ("muxEn1to8", 1)
          ∷ ("dllCoarseLockDetection", 1)
          ∷ ("dllResetFromCfg", 1)
          ∷ [],
    )
    ∷ ("01", ("dataRateDll", 2) ∷ ("dllConfirmCountSelect", 2) ∷ ("dllChargePumpCurrent", 4) ∷ [])
    ∷ (
      "02",
      ("enableGroup", 1)
          ∷ ("outRegEn", 1)
          ∷ ("dataRate", 2)
          ∷ ("sampleClockSel", 2)
          ∷ ("trackMode", 2)
          ∷ [],
    )
    ∷ ("03", ("enableChannel", 8) ∷ [])
    ∷ ("04", ("resetChannel", 8) ∷ [])
    ∷ ("05", ("trainChannel", 8) ∷ [])
    ∷ ("06", ("phaseSelectChannel1input", 4) ∷ ("phaseSelectChannel0input", 4) ∷ [])
    ∷ ("07", ("phaseSelectChannel3input", 4) ∷ ("phaseSelectChannel2input", 4) ∷ [])
    ∷ ("08", ("phaseSelectChannel5input", 4) ∷ ("phaseSelectChannel4input", 4) ∷ [])
    ∷ ("09", ("phaseSelectChannel7input", 4) ∷ ("phaseSelectChannel6input", 4) ∷ [])
    ∷ ("10", ("phaseSelectChannel1output", 4) ∷ ("phaseSelectChannel0output", 4) ∷ [])
    ∷ ("11", ("phaseSelectChannel3output", 4) ∷ ("phaseSelectChannel2output", 4) ∷ [])
    ∷ ("12", ("phaseSelectChannel5output", 4) ∷ ("phaseSelectChannel4output", 4) ∷ [])
    ∷ ("13", ("phaseSelectChannel7output", 4) ∷ ("phaseSelectChannel6output", 4) ∷ [])
    ∷ (
      "15",
      ("dllLockedV", 1)
          ∷ ("reserved", 1)
          ∷ ("dllLockCfg", 2)
          ∷ ("muxEn2to8", 1)
          ∷ ("muxEn1to8", 1)
          ∷ ("dllCoarseLockDetection", 1)
          ∷ ("dllResetFromCfg", 1)
          ∷ [],
    )
    ∷ ("16", ("dataRateDll", 2) ∷ ("dllConfirmCountSelect", 2) ∷ ("dllChargePumpCurrent", 4) ∷ [])
    ∷ (
      "17",
      ("enableGroup", 1)
          ∷ ("outRegEn", 1)
          ∷ ("dataRate", 2)
          ∷ ("sampleClockSel", 2)
          ∷ ("trackMode", 2)
          ∷ [],
    )
    ∷ ("18", ("enableChannel", 8) ∷ [])
    ∷ ("19", ("resetChannel", 8) ∷ [])
    ∷ ("20", ("trainChannel", 8) ∷ [])
    ∷ ("21", ("phaseSelectChannel1input", 4) ∷ ("phaseSelectChannel0input", 4) ∷ [])
    ∷ []
