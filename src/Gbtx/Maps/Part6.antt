-- ===== src/Gbtx/Maps/Part6.antt =====
-- compiledGbtxRegisterMap of NSWConfiguration/GBTxRegisterMap.h: a part.
use nswconfiguration.Common.{[], ◌∷◌}
use nswconfiguration.Common.Assoc.{Assoc}
use nswconfiguration.Gbtx.Map.{RegMap, reg_map}

abbrev pub gbtx_maps_6 : Assoc RegMap
gbtx_maps_6 =
    ("FDL2", reg_map "FDL2" " " (0 ∷ []) (5 ∷ []))
    ∷ ("FDL3", reg_map "FDL3" " " (4 ∷ []) (5 ∷ []))
    ∷ ("FDL0", reg_map "FDL0" " " (0 ∷ []) (4 ∷ []))
    ∷ ("FDL1", reg_map "FDL1" " " (4 ∷ []) (4 ∷ []))
    ∷ ("i2cRxForceVfEqVc", reg_map "i2cRxForceVfEqVc" "" (3 ∷ 4 ∷ 5 ∷ []) (45 ∷ 45 ∷ 45 ∷ []))
    ∷ ("enableTestBar", reg_map "enableTestBar" " " (1 ∷ []) (25 ∷ []))
    ∷ ("CDL5", reg_map "CDL5" " " (0 ∷ []) (13 ∷ []))
    ∷ ("CDL4", reg_map "CDL4" " " (0 ∷ []) (12 ∷ []))
    ∷ ("CDL7", reg_map "CDL7" " " (0 ∷ []) (15 ∷ []))
    ∷ ("CDL6", reg_map "CDL6" " " (0 ∷ []) (14 ∷ []))
    ∷ ("CDL1", reg_map "CDL1" " " (0 ∷ []) (9 ∷ []))
    ∷ ("CDL0", reg_map "CDL0" " " (0 ∷ []) (8 ∷ []))
    ∷ ("CDL3", reg_map "CDL3" " " (0 ∷ []) (11 ∷ []))
    ∷ ("CDL2", reg_map "CDL2" " " (0 ∷ []) (10 ∷ []))
    ∷ ("resetBar1", reg_map "resetBar1" "Channel 1 reset" (1 ∷ []) (24 ∷ []))
    ∷ ("resetBar0", reg_map "resetBar0" "Channel 0 reset" (0 ∷ []) (24 ∷ []))
    ∷ ("resetBar3", reg_map "resetBar3" "Channel 3 reset" (3 ∷ []) (24 ∷ []))
    ∷ ("resetBar2", reg_map "resetBar2" "Channel 2 reset" (2 ∷ []) (24 ∷ []))
    ∷ ("resetBar5", reg_map "resetBar5" "Channel 5 reset" (5 ∷ []) (24 ∷ []))
    ∷ ("resetBar4", reg_map "resetBar4" "Channel 4 reset" (4 ∷ []) (24 ∷ []))
    ∷ ("resetBar7", reg_map "resetBar7" "Channel 7 reset" (7 ∷ []) (24 ∷ []))
    ∷ ("resetBar6", reg_map "resetBar6" "Channel 6 reset" (6 ∷ []) (24 ∷ []))
    ∷ ("gbld_w5", reg_map "gbld_w5" "Value to write to GBLD" (0 ∷ []) (60 ∷ []))
    ∷ (
      "dataPortEnableGroup0",
      reg_map "dataPortEnableGroup0" "enable data group0 channel 7" (0 ∷ 0 ∷ 0 ∷ [])
          (256 ∷ 334 ∷ 349 ∷ []),
    )
    ∷ (
      "rxSwitchesControl",
      reg_map "rxSwitchesControl" "Select data path through RX logic" (0 ∷ 0 ∷ 0 ∷ [])
          (46 ∷ 47 ∷ 48 ∷ []),
    )
    ∷ ("fuseBlowAddress2", reg_map "fuseBlowAddress2" "address of fuse to blow" (0 ∷ []) (239 ∷ []))
    ∷ ("fuseBlowAddress1", reg_map "fuseBlowAddress1" "address of fuse to blow" (0 ∷ []) (238 ∷ []))
    ∷ (
      "configDone",
      reg_map "configDone" "re-starts power-up sequence if set to AA hex" (0 ∷ []) (365 ∷ []),
    )
    ∷ (
      "i2cRxControlReset",
      reg_map "i2cRxControlReset" "FASM and LCSM reset" (0 ∷ 1 ∷ 2 ∷ []) (41 ∷ 41 ∷ 41 ∷ []),
    )
    ∷ ("modeGroup4", reg_map "modeGroup4" "mode group4" (0 ∷ 0 ∷ 0 ∷ []) (266 ∷ 344 ∷ 359 ∷ []))
    ∷ (
      "ePllTxPhase320MHz",
      reg_map "ePllTxPhase320MHz" "Sets EPLL-TX 320MHz phase" (0 ∷ 4 ∷ 0 ∷ [])
          (291 ∷ 291 ∷ 292 ∷ []),
    )
    ∷ (
      "xPllFrequencyTrim",
      reg_map "xPllFrequencyTrim" "Sets XPLL frequency trim" (0 ∷ 0 ∷ 0 ∷ [])
          (313 ∷ 314 ∷ 315 ∷ []),
    )
    ∷ (
      "clockBusFrequency3",
      reg_map "clockBusFrequency3" "clock frequency group3" (2 ∷ 2 ∷ 2 ∷ []) (263 ∷ 341 ∷ 356 ∷ []),
    )
    ∷ ("xPllEnable", reg_map "xPllEnable" "Enables XPLL" (7 ∷ 7 ∷ 7 ∷ []) (313 ∷ 314 ∷ 315 ∷ []))
    ∷ ("i2cRxSelectI1", reg_map "i2cRxSelectI1" " " (4 ∷ []) (41 ∷ []))
    ∷ (
      "paDllResetEC",
      reg_map "paDllResetEC" "Reset EC Phase-aligner dll" (4 ∷ 5 ∷ 6 ∷ []) (232 ∷ 232 ∷ 232 ∷ []),
    )
    ∷ (
      "enableTermination6",
      reg_map "enableTermination6" "enable Termination group6 channel 7" (0 ∷ []) (326 ∷ []),
    )
    ∷ (
      "cmTestOutSelect",
      reg_map "cmTestOutSelect" "Selects which signal to send to testClockOut from first subset"
          (0 ∷ []) (283 ∷ []),
    )
    ∷ ("rxMinValidHeaders", reg_map "rxMinValidHeaders" " " (0 ∷ []) (39 ∷ []))
    ∷ (
      "timeOutEnable",
      reg_map "timeOutEnable" "enable timeOuts" (3 ∷ 4 ∷ 5 ∷ []) (52 ∷ 52 ∷ 52 ∷ []),
    )
    ∷ (
      "bypssEportTX3",
      reg_map "bypssEportTX3" "bypass Eport TX group3" (1 ∷ 2 ∷ 3 ∷ []) (247 ∷ 247 ∷ 247 ∷ []),
    )
    ∷ (
      "cmTestMuxSelect",
      reg_map "cmTestMuxSelect" "Selects which signal to send to testClockOut from second subset"
          (0 ∷ []) (319 ∷ []),
    )
    ∷ (
      "cmEpllTxReferenceSelect",
      reg_map "cmEpllTxReferenceSelect" "Selects reference clock C for EPLL-TX" (0 ∷ 2 ∷ 4 ∷ [])
          (1 ∷ 1 ∷ 1 ∷ []),
    )
    ∷ (
      "txPLLLockTime",
      reg_map "txPLLLockTime" "Set wait time for serialiser PLL to lock" (0 ∷ []) (32 ∷ []),
    )
    ∷ ("modeGroup1", reg_map "modeGroup1" "mode group1" (0 ∷ 0 ∷ 0 ∷ []) (257 ∷ 335 ∷ 350 ∷ []))
    ∷ []
