-- ===== src/Gbtx/Maps/Part3.antt =====
-- compiledGbtxRegisterMap of NSWConfiguration/GBTxRegisterMap.h: a part.
use nswconfiguration.Common.{[], ◌∷◌}
use nswconfiguration.Common.Assoc.{Assoc}
use nswconfiguration.Gbtx.Map.{RegMap, reg_map}

abbrev pub gbtx_maps_3 : Assoc RegMap
gbtx_maps_3 =
    ("modeEc", reg_map "modeEc" "mode EC channel" (4 ∷ 5 ∷ 6 ∷ []) (254 ∷ 254 ∷ 254 ∷ []))
    ∷ (
      "xPllControlOverride",
      reg_map "xPllControlOverride" "Override XPLL control" (0 ∷ 1 ∷ 2 ∷ []) (318 ∷ 318 ∷ 318 ∷ []),
    )
    ∷ (
      "paDllConfigGroup5",
      reg_map "paDllConfigGroup5" "Set Phase-aligner dll" (0 ∷ 4 ∷ 0 ∷ []) (184 ∷ 184 ∷ 185 ∷ []),
    )
    ∷ (
      "cmRxTestMuxSelect80",
      reg_map "cmRxTestMuxSelect80" "Selects RX 80MHz clock C in Test mode" (2 ∷ 2 ∷ 2 ∷ [])
          (277 ∷ 278 ∷ 279 ∷ []),
    )
    ∷ (
      "paDllConfigGroup4",
      reg_map "paDllConfigGroup4" "Set Phase-aligner dll" (0 ∷ 4 ∷ 0 ∷ []) (160 ∷ 160 ∷ 161 ∷ []),
    )
    ∷ (
      "ePllRxCap",
      reg_map "ePllRxCap" "Sets EPLL-RX Cap C in filter" (5 ∷ 5 ∷ 5 ∷ []) (307 ∷ 308 ∷ 309 ∷ []),
    )
    ∷ (
      "ePllTxReset",
      reg_map "ePllTxReset" "Reset of EPLL-TX filter" (0 ∷ 1 ∷ 2 ∷ []) (303 ∷ 303 ∷ 303 ∷ []),
    )
    ∷ ("i2cResetRx", reg_map "i2cResetRx" "reset RX logic" (3 ∷ 4 ∷ 5 ∷ []) (50 ∷ 50 ∷ 50 ∷ []))
    ∷ (
      "i2cRxSkipCycle",
      reg_map "i2cRxSkipCycle" "i2cRxSkipCycle" (0 ∷ 1 ∷ 2 ∷ []) (40 ∷ 40 ∷ 40 ∷ []),
    )
    ∷ (
      "TXselectPosEdge",
      reg_map "TXselectPosEdge" "select +ve clock edge in TX synchroniser" (3 ∷ 4 ∷ 5 ∷ [])
          (244 ∷ 244 ∷ 244 ∷ []),
    )
    ∷ (
      "xPllEnablePhaseDetector",
      reg_map "xPllEnablePhaseDetector" "Enable XPLL Phase Detector" (4 ∷ 5 ∷ 6 ∷ [])
          (317 ∷ 317 ∷ 317 ∷ []),
    )
    ∷ (
      "ePllRxEnablePhase",
      reg_map "ePllRxEnablePhase" "Enable EPLL-RX phase" (0 ∷ 0 ∷ 0 ∷ []) (304 ∷ 305 ∷ 306 ∷ []),
    )
    ∷ (
      "paDllConfigGroup1",
      reg_map "paDllConfigGroup1" "Set Phase-aligner dll" (0 ∷ 4 ∷ 0 ∷ []) (88 ∷ 88 ∷ 89 ∷ []),
    )
    ∷ (
      "ePllTxPhase160MHz",
      reg_map "ePllTxPhase160MHz" "Sets EPLL-TX 160MHz phase" (0 ∷ 0 ∷ 0 ∷ [])
          (296 ∷ 297 ∷ 298 ∷ []),
    )
    ∷ (
      "enableTermination5",
      reg_map "enableTermination5" "enable Termination group5 channel 7" (0 ∷ []) (325 ∷ []),
    )
    ∷ (
      "enableTermination4",
      reg_map "enableTermination4" "enable Termination group4 channel 7" (0 ∷ []) (324 ∷ []),
    )
    ∷ (
      "i2cTxReset",
      reg_map "i2cTxReset" "Reset TX control and serialiser" (0 ∷ 1 ∷ 2 ∷ []) (33 ∷ 33 ∷ 33 ∷ []),
    )
    ∷ (
      "enableTermination1",
      reg_map "enableTermination1" "enable Termination group1 channel 7" (0 ∷ []) (321 ∷ []),
    )
    ∷ (
      "enableTermination0",
      reg_map "enableTermination0" "enable Termination group0 channel 7" (0 ∷ []) (320 ∷ []),
    )
    ∷ ("i2cRxSwap", reg_map "i2cRxSwap" "" (3 ∷ 4 ∷ 5 ∷ []) (40 ∷ 40 ∷ 40 ∷ []))
    ∷ (
      "enableTermination2",
      reg_map "enableTermination2" "enable Termination group2 channel 7" (0 ∷ []) (322 ∷ []),
    )
    ∷ (
      "cmRxTestMuxSelect160",
      reg_map "cmRxTestMuxSelect160" "Selects RX 160MHz clock C in Test mode" (4 ∷ 4 ∷ 4 ∷ [])
          (277 ∷ 278 ∷ 279 ∷ []),
    )
    ∷ (
      "cmRxTestMuxSelect40",
      reg_map "cmRxTestMuxSelect40" "Selects RX 40MHz clock C in Test mode" (0 ∷ 0 ∷ 0 ∷ [])
          (277 ∷ 278 ∷ 279 ∷ []),
    )
    ∷ (
      "xPllGmSelect",
      reg_map "xPllGmSelect" "Select XPLL Gm" (0 ∷ 4 ∷ 0 ∷ []) (316 ∷ 316 ∷ 317 ∷ []),
    )
    ∷ (
      "paEnableEC",
      reg_map "paEnableEC" "Enable EC channel" (0 ∷ 1 ∷ 2 ∷ []) (248 ∷ 248 ∷ 248 ∷ []),
    )
    ∷ ("cset1", reg_map "cset1" " " (4 ∷ []) (269 ∷ []))
    ∷ ("rxMaxInvalidHeaders", reg_map "rxMaxInvalidHeaders" " " (0 ∷ []) (38 ∷ []))
    ∷ (
      "paDllConfigGroup3",
      reg_map "paDllConfigGroup3" "Set Phase-aligner dll" (0 ∷ 4 ∷ 0 ∷ []) (136 ∷ 136 ∷ 137 ∷ []),
    )
    ∷ (
      "paDllConfigGroup2",
      reg_map "paDllConfigGroup2" "Set Phase-aligner dll" (0 ∷ 4 ∷ 0 ∷ []) (112 ∷ 112 ∷ 113 ∷ []),
    )
    ∷ (
      "i2cRxSelectDataInPhase",
      reg_map "i2cRxSelectDataInPhase" "" (3 ∷ 4 ∷ 5 ∷ []) (36 ∷ 36 ∷ 36 ∷ []),
    )
    ∷ (
      "paDllConfigGroup0",
      reg_map "paDllConfigGroup0" "Set Phase-aligner dll" (0 ∷ 4 ∷ 0 ∷ []) (64 ∷ 64 ∷ 65 ∷ []),
    )
    ∷ (
      "clockBusFrequency4",
      reg_map "clockBusFrequency4" "clock frequency group4" (2 ∷ 2 ∷ 2 ∷ []) (266 ∷ 344 ∷ 359 ∷ []),
    )
    ∷ (
      "ePllTxReferenceFreq",
      reg_map "ePllTxReferenceFreq" "Select EPLL-TX reference frequency" (0 ∷ 2 ∷ 4 ∷ [])
          (243 ∷ 243 ∷ 243 ∷ []),
    )
    ∷ (
      "clockBusFrequency1",
      reg_map "clockBusFrequency1" "clock frequency group1" (2 ∷ 2 ∷ 2 ∷ []) (257 ∷ 335 ∷ 350 ∷ []),
    )
    ∷ (
      "clockBusFrequency2",
      reg_map "clockBusFrequency2" "clock frequency group2" (2 ∷ 2 ∷ 2 ∷ []) (260 ∷ 338 ∷ 353 ∷ []),
    )
    ∷ (
      "PSpllEnable",
      reg_map "PSpllEnable" "enable phase-shifter PLL" (0 ∷ 1 ∷ 2 ∷ []) (52 ∷ 52 ∷ 52 ∷ []),
    )
    ∷ (
      "paDataRateGroup0",
      reg_map "paDataRateGroup0" "Set Phase-aligner speed" (0 ∷ 2 ∷ 4 ∷ []) (63 ∷ 63 ∷ 63 ∷ []),
    )
    ∷ (
      "paDataRateGroup1",
      reg_map "paDataRateGroup1" "Set Phase-aligner speed" (0 ∷ 2 ∷ 4 ∷ []) (87 ∷ 87 ∷ 87 ∷ []),
    )
    ∷ (
      "paDataRateGroup2",
      reg_map "paDataRateGroup2" "Set Phase-aligner speed" (0 ∷ 2 ∷ 4 ∷ []) (111 ∷ 111 ∷ 111 ∷ []),
    )
    ∷ (
      "paDataRateGroup3",
      reg_map "paDataRateGroup3" "Set Phase-aligner speed" (0 ∷ 2 ∷ 4 ∷ []) (135 ∷ 135 ∷ 135 ∷ []),
    )
    ∷ (
      "paDataRateGroup4",
      reg_map "paDataRateGroup4" "Set Phase-aligner speed" (0 ∷ 2 ∷ 4 ∷ []) (159 ∷ 159 ∷ 159 ∷ []),
    )
    ∷ (
      "paDataRateGroup5",
      reg_map "paDataRateGroup5" "Set Phase-aligner speed" (0 ∷ 2 ∷ 4 ∷ []) (183 ∷ 183 ∷ 183 ∷ []),
    )
    ∷ (
      "paDataRateGroup6",
      reg_map "paDataRateGroup6" "Set Phase-aligner speed" (0 ∷ 2 ∷ 4 ∷ []) (207 ∷ 207 ∷ 207 ∷ []),
    )
    ∷ ("cset5", reg_map "cset5" " " (4 ∷ []) (271 ∷ []))
    ∷ ("cset2", reg_map "cset2" " " (0 ∷ []) (270 ∷ []))
    ∷ []
