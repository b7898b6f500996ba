-- ===== src/Gbtx/Maps/Part7.antt =====
-- compiledGbtxRegisterMap of NSWConfiguration/GBTxRegisterMap.h: a part.
use nswconfiguration.Common.{[], ◌∷◌}
use nswconfiguration.Common.Assoc.{Assoc}
use nswconfiguration.Gbtx.Map.{RegMap, reg_map}

abbrev pub gbtx_maps_7 : Assoc RegMap
gbtx_maps_7 =
    (
      "cmTxPhase80MHz",
      reg_map "cmTxPhase80MHz" "Fine phase delay of TX 80MHz clock" (4 ∷ 0 ∷ 4 ∷ [])
          (285 ∷ 286 ∷ 286 ∷ []),
    )
    ∷ (
      "clockPortEnableGroup1",
      reg_map "clockPortEnableGroup1" "enable clock group1 channel 7" (0 ∷ 0 ∷ 0 ∷ [])
          (258 ∷ 336 ∷ 351 ∷ []),
    )
    ∷ (
      "selHiByteTX1",
      reg_map "selHiByteTX1" "select HiByte in bypassed Eport TX group1" (3 ∷ 4 ∷ 5 ∷ [])
          (249 ∷ 249 ∷ 249 ∷ []),
    )
    ∷ ("loopbackE", reg_map "loopbackE" "enable loopbackE" (0 ∷ 1 ∷ 2 ∷ []) (234 ∷ 234 ∷ 234 ∷ []))
    ∷ (
      "enableBERT",
      reg_map "enableBERT" "Enable BERT in RX logic" (2 ∷ 3 ∷ 4 ∷ []) (49 ∷ 49 ∷ 49 ∷ []),
    )
    ∷ (
      "clockPortEnableGroup3",
      reg_map "clockPortEnableGroup3" "enable clock group3 channel 7" (0 ∷ 0 ∷ 0 ∷ [])
          (264 ∷ 342 ∷ 357 ∷ []),
    )
    ∷ ("i2cRxDacEnable", reg_map "i2cRxDacEnable" "" (3 ∷ 4 ∷ 5 ∷ []) (42 ∷ 42 ∷ 42 ∷ []))
    ∷ ("cset0", reg_map "cset0" " " (0 ∷ []) (269 ∷ []))
    ∷ (
      "clkDriveStrength0",
      reg_map "clkDriveStrength0" "set clock drive strength group 0" (4 ∷ []) (329 ∷ []),
    )
    ∷ (
      "rxDisableDecoderTMR",
      reg_map "rxDisableDecoderTMR" "Disable TMR in FEC decoder" (1 ∷ []) (49 ∷ []),
    )
    ∷ ("driveStrength3", reg_map "driveStrength3" "set drive strength group 3" (4 ∷ []) (328 ∷ []))
    ∷ ("paMode", reg_map "paMode" "Phase-aligner track mode" (0 ∷ 2 ∷ 4 ∷ []) (62 ∷ 62 ∷ 62 ∷ []))
    ∷ (
      "cmPsReferenceSelect",
      reg_map "cmPsReferenceSelect" "Selects Phase-Shifter reference clock" (0 ∷ 2 ∷ 4 ∷ [])
          (282 ∷ 282 ∷ 282 ∷ []),
    )
    ∷ (
      "selHiByteTX0",
      reg_map "selHiByteTX0" "select HiByte in bypassed Eport TX group0" (0 ∷ 1 ∷ 2 ∷ [])
          (249 ∷ 249 ∷ 249 ∷ []),
    )
    ∷ (
      "clkDriveStrength2",
      reg_map "clkDriveStrength2" "set clock drive strength group 2" (4 ∷ []) (330 ∷ []),
    )
    ∷ (
      "clkDriveStrength3",
      reg_map "clkDriveStrength3" "set clock drive strength group 3" (0 ∷ []) (331 ∷ []),
    )
    ∷ (
      "cmRxReferenceTestMuxSelect",
      reg_map "cmRxReferenceTestMuxSelect" "Selects reference clock C for RX in Test mode"
          (0 ∷ 2 ∷ 4 ∷ []) (2 ∷ 2 ∷ 2 ∷ []),
    )
    ∷ (
      "cmTxTestMuxSelect160",
      reg_map "cmTxTestMuxSelect160" "Selects TX 160MHz clock C in Test mode" (4 ∷ 4 ∷ 4 ∷ [])
          (287 ∷ 288 ∷ 289 ∷ []),
    )
    ∷ (
      "ePllRxReset",
      reg_map "ePllRxReset" "Reset of EPLL-RX filter" (4 ∷ 5 ∷ 6 ∷ []) (303 ∷ 303 ∷ 303 ∷ []),
    )
    ∷ ("FREQ7", reg_map "FREQ7" " " (4 ∷ []) (23 ∷ []))
    ∷ ("FREQ6", reg_map "FREQ6" " " (4 ∷ []) (22 ∷ []))
    ∷ ("FREQ5", reg_map "FREQ5" " " (4 ∷ []) (21 ∷ []))
    ∷ ("FREQ4", reg_map "FREQ4" " " (4 ∷ []) (20 ∷ []))
    ∷ ("FREQ3", reg_map "FREQ3" " " (4 ∷ []) (19 ∷ []))
    ∷ ("FREQ2", reg_map "FREQ2" " " (4 ∷ []) (18 ∷ []))
    ∷ ("FREQ1", reg_map "FREQ1" " " (4 ∷ []) (17 ∷ []))
    ∷ ("FREQ0", reg_map "FREQ0" " " (4 ∷ []) (16 ∷ []))
    ∷ (
      "RXselectPosEdge",
      reg_map "RXselectPosEdge" "select +ve clock edge in RX synchroniser" (0 ∷ 1 ∷ 2 ∷ [])
          (244 ∷ 244 ∷ 244 ∷ []),
    )
    ∷ ("extS6", reg_map "extS6" " " (5 ∷ []) (14 ∷ []))
    ∷ (
      "ePllTxCap",
      reg_map "ePllTxCap" "Sets EPLL-TX Cap C in filter" (5 ∷ 5 ∷ 5 ∷ []) (296 ∷ 297 ∷ 298 ∷ []),
    )
    ∷ (
      "i2cldReset",
      reg_map "i2cldReset" "Controls state of ldReset pin" (3 ∷ 4 ∷ 5 ∷ []) (54 ∷ 54 ∷ 54 ∷ []),
    )
    ∷ ("extS1", reg_map "extS1" " " (5 ∷ []) (9 ∷ []))
    ∷ (
      "selHiByteTX3",
      reg_map "selHiByteTX3" "select HiByte in bypassed Eport TX group3" (1 ∷ 2 ∷ 3 ∷ [])
          (250 ∷ 250 ∷ 250 ∷ []),
    )
    ∷ (
      "ePllTxRes",
      reg_map "ePllTxRes" "Sets EPLL-TX Res C in filter" (4 ∷ 4 ∷ 4 ∷ []) (299 ∷ 300 ∷ 301 ∷ []),
    )
    ∷ (
      "ePllRxRes",
      reg_map "ePllRxRes" "Sets EPLL-RX Res C in filter" (4 ∷ 4 ∷ 4 ∷ []) (310 ∷ 311 ∷ 312 ∷ []),
    )
    ∷ (
      "dataPortEnableGroup4",
      reg_map "dataPortEnableGroup4" "enable data group4 channel 7" (0 ∷ 0 ∷ 0 ∷ [])
          (268 ∷ 346 ∷ 361 ∷ []),
    )
    ∷ (
      "cmTxTestMuxSelect320",
      reg_map "cmTxTestMuxSelect320" "Selects TX 320MHz clock C in Test mode" (6 ∷ 6 ∷ 6 ∷ [])
          (287 ∷ 288 ∷ 289 ∷ []),
    )
    ∷ (
      "ePllRxPhase160MHz",
      reg_map "ePllRxPhase160MHz" "Sets EPLL-RX 160MHz phase" (0 ∷ 0 ∷ 0 ∷ [])
          (307 ∷ 308 ∷ 309 ∷ []),
    )
    ∷ (
      "cmRxTestMuxSelect320",
      reg_map "cmRxTestMuxSelect320" "Selects RX 320MHz clock C in Test mode" (6 ∷ 6 ∷ 6 ∷ [])
          (277 ∷ 278 ∷ 279 ∷ []),
    )
    ∷ ("rxDacGain", reg_map "rxDacGain" "" (4 ∷ 5 ∷ 6 ∷ []) (34 ∷ 34 ∷ 34 ∷ []))
    ∷ ("resetPLLBar", reg_map "resetPLLBar" "PLL reset" (0 ∷ []) (25 ∷ []))
    ∷ (
      "SLVSoutTestSel",
      reg_map "SLVSoutTestSel" "Selects signal to drive SLVS output test (dOut32)" (6 ∷ [])
          (0 ∷ []),
    )
    ∷ ("txSelectI", reg_map "txSelectI" " " (0 ∷ []) (27 ∷ []))
    ∷ ("txSelectR", reg_map "txSelectR" " " (4 ∷ []) (27 ∷ []))
    ∷ ("txEnableTest", reg_map "txEnableTest" " " (6 ∷ []) (27 ∷ []))
    ∷ []
