-- ===== src/Gbtx/Maps/Part2.antt =====
-- compiledGbtxRegisterMap of NSWConfiguration/GBTxRegisterMap.h: a part.
use nswconfiguration.Common.{[], ◌∷◌}
use nswconfiguration.Common.Assoc.{Assoc}
use nswconfiguration.Gbtx.Map.{RegMap, reg_map}

abbrev pub gbtx_maps_2 : Assoc RegMap
gbtx_maps_2 =
    (
      "paPhaseSelectGroup6Channel3",
      reg_map "paPhaseSelectGroup6Channel3" "Select sample phase channel 3" (4 ∷ 4 ∷ 4 ∷ [])
          (212 ∷ 216 ∷ 220 ∷ []),
    )
    ∷ (
      "paPhaseSelectGroup6Channel2",
      reg_map "paPhaseSelectGroup6Channel2" "Select sample phase channel 2" (0 ∷ 0 ∷ 0 ∷ [])
          (212 ∷ 216 ∷ 220 ∷ []),
    )
    ∷ (
      "paPhaseSelectGroup6Channel1",
      reg_map "paPhaseSelectGroup6Channel1" "Select sample phase channel 1" (4 ∷ 4 ∷ 4 ∷ [])
          (213 ∷ 217 ∷ 221 ∷ []),
    )
    ∷ (
      "paPhaseSelectGroup6Channel0",
      reg_map "paPhaseSelectGroup6Channel0" "Select sample phase channel 0" (0 ∷ 0 ∷ 0 ∷ [])
          (213 ∷ 217 ∷ 221 ∷ []),
    )
    ∷ (
      "paPhaseSelectGroup5Channel1",
      reg_map "paPhaseSelectGroup5Channel1" "Select sample phase channel 1" (4 ∷ 4 ∷ 4 ∷ [])
          (189 ∷ 193 ∷ 197 ∷ []),
    )
    ∷ (
      "paPhaseSelectGroup1Channel0",
      reg_map "paPhaseSelectGroup1Channel0" "Select sample phase channel 0" (0 ∷ 0 ∷ 0 ∷ [])
          (93 ∷ 97 ∷ 101 ∷ []),
    )
    ∷ (
      "paPhaseSelectGroup1Channel1",
      reg_map "paPhaseSelectGroup1Channel1" "Select sample phase channel 1" (4 ∷ 4 ∷ 4 ∷ [])
          (93 ∷ 97 ∷ 101 ∷ []),
    )
    ∷ (
      "paPhaseSelectGroup1Channel2",
      reg_map "paPhaseSelectGroup1Channel2" "Select sample phase channel 2" (0 ∷ 0 ∷ 0 ∷ [])
          (92 ∷ 96 ∷ 100 ∷ []),
    )
    ∷ (
      "paPhaseSelectGroup1Channel3",
      reg_map "paPhaseSelectGroup1Channel3" "Select sample phase channel 3" (4 ∷ 4 ∷ 4 ∷ [])
          (92 ∷ 96 ∷ 100 ∷ []),
    )
    ∷ (
      "paPhaseSelectGroup1Channel4",
      reg_map "paPhaseSelectGroup1Channel4" "Select sample phase channel 4" (0 ∷ 0 ∷ 0 ∷ [])
          (91 ∷ 95 ∷ 99 ∷ []),
    )
    ∷ (
      "paPhaseSelectGroup1Channel5",
      reg_map "paPhaseSelectGroup1Channel5" "Select sample phase channel 5" (4 ∷ 4 ∷ 4 ∷ [])
          (91 ∷ 95 ∷ 99 ∷ []),
    )
    ∷ (
      "paPhaseSelectGroup1Channel6",
      reg_map "paPhaseSelectGroup1Channel6" "Select sample phase channel 6" (0 ∷ 0 ∷ 0 ∷ [])
          (90 ∷ 94 ∷ 98 ∷ []),
    )
    ∷ (
      "paPhaseSelectGroup1Channel7",
      reg_map "paPhaseSelectGroup1Channel7" "Select sample phase channel 7" (4 ∷ 4 ∷ 4 ∷ [])
          (90 ∷ 94 ∷ 98 ∷ []),
    )
    ∷ (
      "paPhaseSelectGroup6Channel4",
      reg_map "paPhaseSelectGroup6Channel4" "Select sample phase channel 4" (0 ∷ 0 ∷ 0 ∷ [])
          (211 ∷ 215 ∷ 219 ∷ []),
    )
    ∷ (
      "paPhaseSelectGroup3Channel0",
      reg_map "paPhaseSelectGroup3Channel0" "Select sample phase channel 0" (0 ∷ 0 ∷ 0 ∷ [])
          (141 ∷ 145 ∷ 149 ∷ []),
    )
    ∷ (
      "paPhaseSelectGroup5Channel2",
      reg_map "paPhaseSelectGroup5Channel2" "Select sample phase channel 2" (0 ∷ 0 ∷ 0 ∷ [])
          (188 ∷ 192 ∷ 196 ∷ []),
    )
    ∷ (
      "paPhaseSelectGroup3Channel2",
      reg_map "paPhaseSelectGroup3Channel2" "Select sample phase channel 2" (0 ∷ 0 ∷ 0 ∷ [])
          (140 ∷ 144 ∷ 148 ∷ []),
    )
    ∷ (
      "paPhaseSelectGroup3Channel3",
      reg_map "paPhaseSelectGroup3Channel3" "Select sample phase channel 3" (4 ∷ 4 ∷ 4 ∷ [])
          (140 ∷ 144 ∷ 148 ∷ []),
    )
    ∷ (
      "paPhaseSelectGroup3Channel1",
      reg_map "paPhaseSelectGroup3Channel1" "Select sample phase channel 1" (4 ∷ 4 ∷ 4 ∷ [])
          (141 ∷ 145 ∷ 149 ∷ []),
    )
    ∷ (
      "paPhaseSelectGroup3Channel6",
      reg_map "paPhaseSelectGroup3Channel6" "Select sample phase channel 6" (0 ∷ 0 ∷ 0 ∷ [])
          (138 ∷ 142 ∷ 146 ∷ []),
    )
    ∷ (
      "paPhaseSelectGroup3Channel7",
      reg_map "paPhaseSelectGroup3Channel7" "Select sample phase channel 7" (4 ∷ 4 ∷ 4 ∷ [])
          (138 ∷ 142 ∷ 146 ∷ []),
    )
    ∷ (
      "paPhaseSelectGroup3Channel4",
      reg_map "paPhaseSelectGroup3Channel4" "Select sample phase channel 4" (0 ∷ 0 ∷ 0 ∷ [])
          (139 ∷ 143 ∷ 147 ∷ []),
    )
    ∷ (
      "paPhaseSelectGroup3Channel5",
      reg_map "paPhaseSelectGroup3Channel5" "Select sample phase channel 5" (4 ∷ 4 ∷ 4 ∷ [])
          (139 ∷ 143 ∷ 147 ∷ []),
    )
    ∷ (
      "paPhaseSelectGroup0Channel1",
      reg_map "paPhaseSelectGroup0Channel1" "Select sample phase channel 1" (4 ∷ 4 ∷ 4 ∷ [])
          (69 ∷ 73 ∷ 77 ∷ []),
    )
    ∷ (
      "paPhaseSelectGroup0Channel0",
      reg_map "paPhaseSelectGroup0Channel0" "Select sample phase channel 0" (0 ∷ 0 ∷ 0 ∷ [])
          (69 ∷ 73 ∷ 77 ∷ []),
    )
    ∷ (
      "paPhaseSelectGroup0Channel3",
      reg_map "paPhaseSelectGroup0Channel3" "Select sample phase channel 3" (4 ∷ 4 ∷ 4 ∷ [])
          (68 ∷ 72 ∷ 76 ∷ []),
    )
    ∷ (
      "paPhaseSelectGroup0Channel2",
      reg_map "paPhaseSelectGroup0Channel2" "Select sample phase channel 2" (0 ∷ 0 ∷ 0 ∷ [])
          (68 ∷ 72 ∷ 76 ∷ []),
    )
    ∷ (
      "paPhaseSelectGroup0Channel5",
      reg_map "paPhaseSelectGroup0Channel5" "Select sample phase channel 5" (4 ∷ 4 ∷ 4 ∷ [])
          (67 ∷ 71 ∷ 75 ∷ []),
    )
    ∷ (
      "paPhaseSelectGroup0Channel7",
      reg_map "paPhaseSelectGroup0Channel7" "Select sample phase channel 7" (4 ∷ 4 ∷ 4 ∷ [])
          (66 ∷ 70 ∷ 74 ∷ []),
    )
    ∷ (
      "paPhaseSelectGroup0Channel6",
      reg_map "paPhaseSelectGroup0Channel6" "Select sample phase channel 6" (0 ∷ 0 ∷ 0 ∷ [])
          (66 ∷ 70 ∷ 74 ∷ []),
    )
    ∷ ("i2cResetTx", reg_map "i2cResetTx" "reset TX logic" (0 ∷ 1 ∷ 2 ∷ []) (54 ∷ 54 ∷ 54 ∷ []))
    ∷ (
      "cmReferenceClockSelect",
      reg_map "cmReferenceClockSelect" "Selects global reference clock" (0 ∷ 2 ∷ 4 ∷ [])
          (281 ∷ 281 ∷ 281 ∷ []),
    )
    ∷ (
      "cmXpllReferenceSelect",
      reg_map "cmXpllReferenceSelect" "Selects Xpll reference clock" (0 ∷ 2 ∷ 4 ∷ [])
          (290 ∷ 290 ∷ 290 ∷ []),
    )
    ∷ (
      "ePllRxReferenceFreq",
      reg_map "ePllRxReferenceFreq" "Select EPLL-RX reference frequency" (0 ∷ 2 ∷ 4 ∷ [])
          (242 ∷ 242 ∷ 242 ∷ []),
    )
    ∷ (
      "enableTermination3",
      reg_map "enableTermination3" "enable Termination group3 channel 7" (0 ∷ []) (323 ∷ []),
    )
    ∷ (
      "cmTxTestMuxSelect40",
      reg_map "cmTxTestMuxSelect40" "Selects TX 40MHz clock C in Test mode" (0 ∷ 0 ∷ 0 ∷ [])
          (287 ∷ 288 ∷ 289 ∷ []),
    )
    ∷ ("extLate7", reg_map "extLate7" " " (6 ∷ []) (23 ∷ []))
    ∷ ("extLate6", reg_map "extLate6" " " (6 ∷ []) (22 ∷ []))
    ∷ ("extLate5", reg_map "extLate5" " " (6 ∷ []) (21 ∷ []))
    ∷ ("extLate4", reg_map "extLate4" " " (6 ∷ []) (20 ∷ []))
    ∷ ("extLate3", reg_map "extLate3" " " (6 ∷ []) (19 ∷ []))
    ∷ ("extLate2", reg_map "extLate2" " " (6 ∷ []) (18 ∷ []))
    ∷ ("extLate1", reg_map "extLate1" " " (6 ∷ []) (17 ∷ []))
    ∷ ("extLate0", reg_map "extLate0" " " (6 ∷ []) (16 ∷ []))
    ∷ (
      "i2cRxFilterEnable",
      reg_map "i2cRxFilterEnable" "i2cRxFilterEnable" (0 ∷ 1 ∷ 2 ∷ []) (45 ∷ 45 ∷ 45 ∷ []),
    )
    ∷ []
