-- ===== src/Gbtx/Maps/Part4.antt =====
-- compiledGbtxRegisterMap of NSWConfiguration/GBTxRegisterMap.h: a part.
use nswconfiguration.Common.{[], ◌∷◌}
use nswconfiguration.Common.Assoc.{Assoc}
use nswconfiguration.Gbtx.Map.{RegMap, reg_map}

abbrev pub gbtx_maps_4 : Assoc RegMap
gbtx_maps_4 =
    ("cset3", reg_map "cset3" " " (4 ∷ []) (270 ∷ []))
    ∷ (
      "paEnableGroup1",
      reg_map "paEnableGroup1" "Enable channel 7" (0 ∷ 0 ∷ 0 ∷ []) (105 ∷ 106 ∷ 107 ∷ []),
    )
    ∷ (
      "paEnableGroup0",
      reg_map "paEnableGroup0" "Enable channel 7" (0 ∷ 0 ∷ 0 ∷ []) (81 ∷ 82 ∷ 83 ∷ []),
    )
    ∷ (
      "paEnableGroup3",
      reg_map "paEnableGroup3" "Enable channel 7" (0 ∷ 0 ∷ 0 ∷ []) (153 ∷ 154 ∷ 155 ∷ []),
    )
    ∷ (
      "paEnableGroup2",
      reg_map "paEnableGroup2" "Enable channel 7" (0 ∷ 0 ∷ 0 ∷ []) (129 ∷ 130 ∷ 131 ∷ []),
    )
    ∷ (
      "paEnableGroup5",
      reg_map "paEnableGroup5" "Enable channel 7" (0 ∷ 0 ∷ 0 ∷ []) (201 ∷ 202 ∷ 203 ∷ []),
    )
    ∷ (
      "paEnableGroup4",
      reg_map "paEnableGroup4" "Enable channel 7" (0 ∷ 0 ∷ 0 ∷ []) (177 ∷ 178 ∷ 179 ∷ []),
    )
    ∷ ("i2cStartRace", reg_map "i2cStartRace" "" (0 ∷ 1 ∷ 2 ∷ []) (42 ∷ 42 ∷ 42 ∷ []))
    ∷ ("cset6", reg_map "cset6" " " (0 ∷ []) (272 ∷ []))
    ∷ (
      "paDllConfigGroup6",
      reg_map "paDllConfigGroup6" "Set Phase-aligner dll" (0 ∷ 4 ∷ 0 ∷ []) (208 ∷ 208 ∷ 209 ∷ []),
    )
    ∷ ("cset7", reg_map "cset7" " " (4 ∷ []) (272 ∷ []))
    ∷ (
      "enableWatchdogFSM",
      reg_map "enableWatchdogFSM" "enable watchdog" (0 ∷ 1 ∷ 2 ∷ []) (50 ∷ 50 ∷ 50 ∷ []),
    )
    ∷ ("modeGroup2", reg_map "modeGroup2" "mode group2" (0 ∷ 0 ∷ 0 ∷ []) (260 ∷ 338 ∷ 353 ∷ []))
    ∷ (
      "cmRxPhase40MHz",
      reg_map "cmRxPhase40MHz" "Fine phase delay of RX 40MHz clock" (0 ∷ 4 ∷ 0 ∷ [])
          (274 ∷ 274 ∷ 275 ∷ []),
    )
    ∷ ("PLLcp", reg_map "PLLcp" " " (0 ∷ []) (26 ∷ []))
    ∷ ("cset4", reg_map "cset4" " " (0 ∷ []) (271 ∷ []))
    ∷ ("i2cRxSelectI2Freq", reg_map "i2cRxSelectI2Freq" " freq detector" (0 ∷ []) (35 ∷ []))
    ∷ (
      "ePllTxEnablePhase",
      reg_map "ePllTxEnablePhase" "Enable EPLL-TX phase" (0 ∷ 0 ∷ 0 ∷ []) (293 ∷ 294 ∷ 295 ∷ []),
    )
    ∷ (
      "cmTxTestMuxSelect80",
      reg_map "cmTxTestMuxSelect80" "Selects TX 80MHz clock C in Test mode" (2 ∷ 2 ∷ 2 ∷ [])
          (287 ∷ 288 ∷ 289 ∷ []),
    )
    ∷ (
      "clkDriveStrength1",
      reg_map "clkDriveStrength1" "set clock drive strength group 1" (0 ∷ []) (330 ∷ []),
    )
    ∷ (
      "cmTxPhase40MHz",
      reg_map "cmTxPhase40MHz" "Fine phase delay of TX 40MHz clock" (0 ∷ 4 ∷ 0 ∷ [])
          (284 ∷ 284 ∷ 285 ∷ []),
    )
    ∷ ("fuseBlowData", reg_map "fuseBlowData" "data to blow fuse" (0 ∷ []) (240 ∷ []))
    ∷ (
      "ePllTxIcp",
      reg_map "ePllTxIcp" "Sets EPLL-TX charge pump current" (0 ∷ 0 ∷ 0 ∷ [])
          (299 ∷ 300 ∷ 301 ∷ []),
    )
    ∷ (
      "xPllChargePumpCurrent",
      reg_map "xPllChargePumpCurrent" "xPll Charge Pump Current" (0 ∷ 4 ∷ 0 ∷ [])
          (235 ∷ 235 ∷ 236 ∷ []),
    )
    ∷ (
      "dataPortEnableGroup2",
      reg_map "dataPortEnableGroup2" "enable data group2 channel 7" (0 ∷ 0 ∷ 0 ∷ [])
          (262 ∷ 340 ∷ 355 ∷ []),
    )
    ∷ ("PLLres", reg_map "PLLres" " " (4 ∷ []) (26 ∷ []))
    ∷ ("i2cRxFilterBypass", reg_map "i2cRxFilterBypass" "" (1 ∷ 2 ∷ 3 ∷ []) (44 ∷ 44 ∷ 44 ∷ []))
    ∷ (
      "i2cRxControlOverride",
      reg_map "i2cRxControlOverride" "" (0 ∷ 1 ∷ 2 ∷ []) (36 ∷ 36 ∷ 36 ∷ []),
    )
    ∷ (
      "clockBusFrequencyEc",
      reg_map "clockBusFrequencyEc" "clock frequency EC channel" (4 ∷ 5 ∷ 6 ∷ [])
          (257 ∷ 257 ∷ 257 ∷ []),
    )
    ∷ (
      "ePllRxIcp",
      reg_map "ePllRxIcp" "Sets EPLL-RX charge pump current" (0 ∷ 0 ∷ 0 ∷ [])
          (310 ∷ 311 ∷ 312 ∷ []),
    )
    ∷ (
      "paEnableGroup6",
      reg_map "paEnableGroup6" "Enable channel 7" (0 ∷ 0 ∷ 0 ∷ []) (225 ∷ 226 ∷ 227 ∷ []),
    )
    ∷ (
      "paDllResetGroup3",
      reg_map "paDllResetGroup3" "Reset Phase-aligner dll" (4 ∷ 5 ∷ 6 ∷ []) (137 ∷ 137 ∷ 137 ∷ []),
    )
    ∷ (
      "paDllResetGroup2",
      reg_map "paDllResetGroup2" "Reset Phase-aligner dll" (4 ∷ 5 ∷ 6 ∷ []) (113 ∷ 113 ∷ 113 ∷ []),
    )
    ∷ (
      "paDllResetGroup1",
      reg_map "paDllResetGroup1" "Reset Phase-aligner dll" (4 ∷ 5 ∷ 6 ∷ []) (89 ∷ 89 ∷ 89 ∷ []),
    )
    ∷ (
      "paDllResetGroup0",
      reg_map "paDllResetGroup0" "Reset Phase-aligner dll" (4 ∷ 5 ∷ 6 ∷ []) (65 ∷ 65 ∷ 65 ∷ []),
    )
    ∷ (
      "paDllResetGroup6",
      reg_map "paDllResetGroup6" "Reset Phase-aligner dll" (4 ∷ 5 ∷ 6 ∷ []) (209 ∷ 209 ∷ 209 ∷ []),
    )
    ∷ (
      "paDllResetGroup5",
      reg_map "paDllResetGroup5" "Reset Phase-aligner dll" (4 ∷ 5 ∷ 6 ∷ []) (185 ∷ 185 ∷ 185 ∷ []),
    )
    ∷ (
      "paDllResetGroup4",
      reg_map "paDllResetGroup4" "Reset Phase-aligner dll" (4 ∷ 5 ∷ 6 ∷ []) (161 ∷ 161 ∷ 161 ∷ []),
    )
    ∷ (
      "paDllConfigEC",
      reg_map "paDllConfigEC" "Set EC Phase-aligner dll" (0 ∷ 4 ∷ 0 ∷ []) (231 ∷ 231 ∷ 232 ∷ []),
    )
    ∷ ("rxSelectR", reg_map "rxSelectR" " " (0 ∷ []) (34 ∷ []))
    ∷ ("gbld_w1", reg_map "gbld_w1" "Value to write to GBLD" (0 ∷ []) (56 ∷ []))
    ∷ (
      "cmEpllRxReferenceSelect",
      reg_map "cmEpllRxReferenceSelect" "Selects reference clock C for EPLL-RX" (0 ∷ 2 ∷ 4 ∷ [])
          (0 ∷ 0 ∷ 0 ∷ []),
    )
    ∷ (
      "xPllEnableAutoRestart",
      reg_map "xPllEnableAutoRestart" "Enable XPLL Auto restart" (3 ∷ 4 ∷ 5 ∷ [])
          (318 ∷ 318 ∷ 318 ∷ []),
    )
    ∷ ("modeGroup0", reg_map "modeGroup0" "mode group0" (0 ∷ 0 ∷ 0 ∷ []) (254 ∷ 332 ∷ 347 ∷ []))
    ∷ (
      "ePllRxPhase320MHz",
      reg_map "ePllRxPhase320MHz" "Sets EPLL-RX 320MHz phase" (0 ∷ 4 ∷ 4 ∷ [])
          (302 ∷ 302 ∷ 292 ∷ []),
    )
    ∷ []
