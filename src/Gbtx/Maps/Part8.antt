-- ===== src/Gbtx/Maps/Part8.antt =====
-- compiledGbtxRegisterMap of NSWConfiguration/GBTxRegisterMap.h: a part.
use nswconfiguration.Common.{[], ◌∷◌}
use nswconfiguration.Common.Assoc.{Assoc}
use nswconfiguration.Gbtx.Map.{RegMap, reg_map}

abbrev pub gbtx_maps_8 : Assoc RegMap
gbtx_maps_8 =
    ("extEarly3", reg_map "extEarly3" " " (7 ∷ []) (11 ∷ []))
    ∷ ("extEarly2", reg_map "extEarly2" " " (7 ∷ []) (10 ∷ []))
    ∷ ("extEarly1", reg_map "extEarly1" " " (7 ∷ []) (9 ∷ []))
    ∷ ("extEarly0", reg_map "extEarly0" " " (7 ∷ []) (8 ∷ []))
    ∷ ("extEarly7", reg_map "extEarly7" " " (7 ∷ []) (15 ∷ []))
    ∷ ("extEarly6", reg_map "extEarly6" " " (7 ∷ []) (14 ∷ []))
    ∷ ("extEarly5", reg_map "extEarly5" " " (7 ∷ []) (13 ∷ []))
    ∷ ("extEarly4", reg_map "extEarly4" " " (7 ∷ []) (12 ∷ []))
    ∷ (
      "selHiByteTX2",
      reg_map "selHiByteTX2" "select HiByte in bypassed Eport TX group2" (6 ∷ 7 ∷ 0 ∷ [])
          (249 ∷ 249 ∷ 250 ∷ []),
    )
    ∷ (
      "bypssEportTX0",
      reg_map "bypssEportTX0" "bypass Eport TX group0" (0 ∷ 1 ∷ 2 ∷ []) (246 ∷ 246 ∷ 246 ∷ []),
    )
    ∷ (
      "clockBusFrequency0",
      reg_map "clockBusFrequency0" "clock frequency group0" (2 ∷ 2 ∷ 2 ∷ []) (254 ∷ 332 ∷ 347 ∷ []),
    )
    ∷ (
      "selHiByteTX4",
      reg_map "selHiByteTX4" "select HiByte in bypassed Eport TX group4" (4 ∷ 5 ∷ 6 ∷ [])
          (250 ∷ 250 ∷ 250 ∷ []),
    )
    ∷ ("driveStrength4", reg_map "driveStrength4" "set drive strength group 4" (0 ∷ []) (329 ∷ []))
    ∷ ("rxValidHeaders", reg_map "rxValidHeaders" " " (0 ∷ []) (37 ∷ []))
    ∷ ("driveStrength2", reg_map "driveStrength2" "set drive strength group 2" (0 ∷ []) (328 ∷ []))
    ∷ ("driveStrength1", reg_map "driveStrength1" "set drive strength group 1" (4 ∷ []) (327 ∷ []))
    ∷ ("driveStrength0", reg_map "driveStrength0" "set drive strength group 0" (0 ∷ []) (327 ∷ []))
    ∷ (
      "txSwitchesControl",
      reg_map "txSwitchesControl" "Select data path through TX logic" (0 ∷ 0 ∷ 0 ∷ [])
          (29 ∷ 30 ∷ 31 ∷ []),
    )
    ∷ (
      "testOutputSelect",
      reg_map "testOutputSelect" "Selects the signal to drive testOutput" (0 ∷ []) (280 ∷ []),
    )
    ∷ (
      "txForceLockState",
      reg_map "txForceLockState" "Force serialiser control to locked state" (4 ∷ []) (32 ∷ []),
    )
    ∷ ("txLossOfLockTime", reg_map "txLossOfLockTime" "Set time limit on unlock" (5 ∷ []) (32 ∷ []))
    ∷ (
      "scEnableTermination",
      reg_map "scEnableTermination" "Enable termination for SC-EC Eport" (5 ∷ []) (273 ∷ []),
    )
    ∷ (
      "txDisableEncoderTMR",
      reg_map "txDisableEncoderTMR" "Disable TMR in FEC encoder" (6 ∷ []) (28 ∷ []),
    )
    ∷ (
      "bypassEportRX",
      reg_map "bypassEportRX" "bypass EportRX" (0 ∷ 1 ∷ 2 ∷ []) (252 ∷ 252 ∷ 252 ∷ []),
    )
    ∷ ("gbld_ID", reg_map "gbld_ID" "i2c address of GBLD" (0 ∷ []) (253 ∷ []))
    ∷ (
      "i2cRxReset",
      reg_map "i2cRxReset" "(Conditional) reset of the CDR PLL" (0 ∷ 2 ∷ 4 ∷ [])
          (53 ∷ 53 ∷ 53 ∷ []),
    )
    ∷ []
