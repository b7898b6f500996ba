-- ===== src/Gbtx/Maps/Part5.antt =====
-- compiledGbtxRegisterMap of NSWConfiguration/GBTxRegisterMap.h: a part.
use nswconfiguration.Common.{[], ◌∷◌}
use nswconfiguration.Common.Assoc.{Assoc}
use nswconfiguration.Gbtx.Map.{RegMap, reg_map}

abbrev pub gbtx_maps_5 : Assoc RegMap
gbtx_maps_5 =
    ("gbld_w4", reg_map "gbld_w4" "Value to write to GBLD" (0 ∷ []) (59 ∷ []))
    ∷ (
      "rxTestMode",
      reg_map "rxTestMode" "Select RX data source" (5 ∷ 6 ∷ 7 ∷ []) (49 ∷ 49 ∷ 49 ∷ []),
    )
    ∷ ("gbld_w6", reg_map "gbld_w6" "Value to write to GBLD" (0 ∷ []) (61 ∷ []))
    ∷ ("modeGroup3", reg_map "modeGroup3" "mode group3" (0 ∷ 0 ∷ 0 ∷ []) (263 ∷ 341 ∷ 356 ∷ []))
    ∷ ("gbld_w0", reg_map "gbld_w0" "Value to write to GBLD" (0 ∷ []) (55 ∷ []))
    ∷ (
      "cmTxReferenceTestMuxSelect",
      reg_map "cmTxReferenceTestMuxSelect" "Selects reference clock C for TX in Test mode"
          (0 ∷ 2 ∷ 4 ∷ []) (3 ∷ 3 ∷ 3 ∷ []),
    )
    ∷ ("gbld_w2", reg_map "gbld_w2" "Value to write to GBLD" (0 ∷ []) (57 ∷ []))
    ∷ ("gbld_w3", reg_map "gbld_w3" "Value to write to GBLD" (0 ∷ []) (58 ∷ []))
    ∷ (
      "clockPortEnableGroup0",
      reg_map "clockPortEnableGroup0" "enable clock group0 channel 7" (0 ∷ 0 ∷ 0 ∷ [])
          (255 ∷ 333 ∷ 348 ∷ []),
    )
    ∷ ("i2cRxSelectI2Phase", reg_map "i2cRxSelectI2Phase" " phase detector" (4 ∷ []) (35 ∷ []))
    ∷ (
      "clockPortEnableGroup2",
      reg_map "clockPortEnableGroup2" "enable clock group2 channel 7" (0 ∷ 0 ∷ 0 ∷ [])
          (261 ∷ 339 ∷ 354 ∷ []),
    )
    ∷ ("stateForced", reg_map "stateForced" "select state of power-up sequence" (0 ∷ []) (51 ∷ []))
    ∷ (
      "clockPortEnableGroup4",
      reg_map "clockPortEnableGroup4" "enable clock group4 channel 7" (0 ∷ 0 ∷ 0 ∷ [])
          (267 ∷ 345 ∷ 360 ∷ []),
    )
    ∷ (
      "dataPortEnableGroup3",
      reg_map "dataPortEnableGroup3" "enable data group3 channel 7" (0 ∷ 0 ∷ 0 ∷ [])
          (265 ∷ 343 ∷ 358 ∷ []),
    )
    ∷ ("extS5", reg_map "extS5" " " (5 ∷ []) (13 ∷ []))
    ∷ ("extS4", reg_map "extS4" " " (5 ∷ []) (12 ∷ []))
    ∷ ("extS7", reg_map "extS7" " " (5 ∷ []) (15 ∷ []))
    ∷ ("txTestMode", reg_map "txTestMode" "Select TX data source" (0 ∷ []) (28 ∷ []))
    ∷ (
      "txEnableSoftLossOfLock",
      reg_map "txEnableSoftLossOfLock" "Enable soft loss of lock" (6 ∷ []) (33 ∷ []),
    )
    ∷ ("extS0", reg_map "extS0" " " (5 ∷ []) (8 ∷ []))
    ∷ ("extS3", reg_map "extS3" " " (5 ∷ []) (11 ∷ []))
    ∷ ("extS2", reg_map "extS2" " " (5 ∷ []) (10 ∷ []))
    ∷ (
      "bypssEportTX2",
      reg_map "bypssEportTX2" "bypass Eport TX group2" (6 ∷ 7 ∷ 0 ∷ []) (246 ∷ 246 ∷ 247 ∷ []),
    )
    ∷ (
      "dllCoarseLockDetection",
      reg_map "dllCoarseLockDetection" "dll coarse lock detection" (4 ∷ 5 ∷ 6 ∷ [])
          (233 ∷ 233 ∷ 233 ∷ []),
    )
    ∷ (
      "bypssEportTX1",
      reg_map "bypssEportTX1" "bypass Eport TX group1" (3 ∷ 4 ∷ 5 ∷ []) (246 ∷ 246 ∷ 246 ∷ []),
    )
    ∷ (
      "dataPortEnableGroup1",
      reg_map "dataPortEnableGroup1" "enable data group1 channel 7" (0 ∷ 0 ∷ 0 ∷ [])
          (259 ∷ 337 ∷ 352 ∷ []),
    )
    ∷ (
      "bypssEportTX4",
      reg_map "bypssEportTX4" "bypass Eport TX group4" (4 ∷ 5 ∷ 6 ∷ []) (247 ∷ 247 ∷ 247 ∷ []),
    )
    ∷ ("iSel4", reg_map "iSel4" " " (0 ∷ []) (20 ∷ []))
    ∷ ("iSel5", reg_map "iSel5" " " (0 ∷ []) (21 ∷ []))
    ∷ ("iSel6", reg_map "iSel6" " " (0 ∷ []) (22 ∷ []))
    ∷ ("iSel7", reg_map "iSel7" " " (0 ∷ []) (23 ∷ []))
    ∷ ("iSel0", reg_map "iSel0" " " (0 ∷ []) (16 ∷ []))
    ∷ ("iSel1", reg_map "iSel1" " " (0 ∷ []) (17 ∷ []))
    ∷ ("iSel2", reg_map "iSel2" " " (0 ∷ []) (18 ∷ []))
    ∷ ("iSel3", reg_map "iSel3" " " (0 ∷ []) (19 ∷ []))
    ∷ (
      "cmRxPhase80MHz",
      reg_map "cmRxPhase80MHz" "Fine phase delay of RX 80MHz clock" (4 ∷ 0 ∷ 4 ∷ [])
          (275 ∷ 276 ∷ 276 ∷ []),
    )
    ∷ ("loopbackF", reg_map "loopbackF" "enable loopbackF" (3 ∷ 4 ∷ 5 ∷ []) (234 ∷ 234 ∷ 234 ∷ []))
    ∷ (
      "clkDriveStrength4",
      reg_map "clkDriveStrength4" "set clock drive strength group 4" (4 ∷ []) (331 ∷ []),
    )
    ∷ ("i2cRxDac2", reg_map "i2cRxDac2" " " (0 ∷ []) (44 ∷ []))
    ∷ ("i2cRxDac1", reg_map "i2cRxDac1" " " (0 ∷ []) (43 ∷ []))
    ∷ ("scCset", reg_map "scCset" "Drive current control for SC-EC Eport" (0 ∷ []) (273 ∷ []))
    ∷ ("FDL6", reg_map "FDL6" " " (0 ∷ []) (7 ∷ []))
    ∷ ("FDL7", reg_map "FDL7" " " (4 ∷ []) (7 ∷ []))
    ∷ ("FDL4", reg_map "FDL4" " " (0 ∷ []) (6 ∷ []))
    ∷ ("FDL5", reg_map "FDL5" " " (4 ∷ []) (6 ∷ []))
    ∷ []
