-- ===== src/Gbtx/Maps/Part1.antt =====
-- compiledGbtxRegisterMap of NSWConfiguration/GBTxRegisterMap.h: a part.
use nswconfiguration.Common.{[], ◌∷◌}
use nswconfiguration.Common.Assoc.{Assoc}
use nswconfiguration.Gbtx.Map.{RegMap, reg_map}

abbrev pub gbtx_maps_1 : Assoc RegMap
gbtx_maps_1 =
    ("paTrainEC", reg_map "paTrainEC" "Train EC channel" (0 ∷ 1 ∷ 2 ∷ []) (245 ∷ 245 ∷ 245 ∷ []))
    ∷ (
      "paTrainGroup6",
      reg_map "paTrainGroup6" "Train channels (0-7)" (0 ∷ 0 ∷ 0 ∷ []) (222 ∷ 223 ∷ 224 ∷ []),
    )
    ∷ (
      "paTrainGroup5",
      reg_map "paTrainGroup5" "Train channels (0-7)" (0 ∷ 0 ∷ 0 ∷ []) (198 ∷ 199 ∷ 200 ∷ []),
    )
    ∷ (
      "paTrainGroup4",
      reg_map "paTrainGroup4" "Train channels (0-7)" (0 ∷ 0 ∷ 0 ∷ []) (174 ∷ 175 ∷ 176 ∷ []),
    )
    ∷ (
      "paTrainGroup3",
      reg_map "paTrainGroup3" "Train channels (0-7)" (0 ∷ 0 ∷ 0 ∷ []) (150 ∷ 151 ∷ 152 ∷ []),
    )
    ∷ (
      "paTrainGroup2",
      reg_map "paTrainGroup2" "Train channels (0-7)" (0 ∷ 0 ∷ 0 ∷ []) (126 ∷ 127 ∷ 128 ∷ []),
    )
    ∷ (
      "paTrainGroup1",
      reg_map "paTrainGroup1" "Train channels (0-7)" (0 ∷ 0 ∷ 0 ∷ []) (102 ∷ 103 ∷ 104 ∷ []),
    )
    ∷ (
      "paTrainGroup0",
      reg_map "paTrainGroup0" "Train channels (0-7)" (0 ∷ 0 ∷ 0 ∷ []) (78 ∷ 79 ∷ 80 ∷ []),
    )
    ∷ ("paResetEC", reg_map "paResetEC" "Reset EC channel" (0 ∷ 1 ∷ 2 ∷ []) (251 ∷ 251 ∷ 251 ∷ []))
    ∷ (
      "paResetGroup0",
      reg_map "paResetGroup0" "Reset channels (0-7)" (0 ∷ 0 ∷ 0 ∷ []) (84 ∷ 85 ∷ 86 ∷ []),
    )
    ∷ (
      "paResetGroup1",
      reg_map "paResetGroup1" "Reset channels (0-7)" (0 ∷ 0 ∷ 0 ∷ []) (108 ∷ 109 ∷ 110 ∷ []),
    )
    ∷ (
      "paResetGroup2",
      reg_map "paResetGroup2" "Reset channels (0-7)" (0 ∷ 0 ∷ 0 ∷ []) (132 ∷ 133 ∷ 134 ∷ []),
    )
    ∷ (
      "paResetGroup3",
      reg_map "paResetGroup3" "Reset channels (0-7)" (0 ∷ 0 ∷ 0 ∷ []) (156 ∷ 157 ∷ 158 ∷ []),
    )
    ∷ (
      "paResetGroup4",
      reg_map "paResetGroup4" "Reset channels (0-7)" (0 ∷ 0 ∷ 0 ∷ []) (180 ∷ 181 ∷ 182 ∷ []),
    )
    ∷ (
      "paResetGroup5",
      reg_map "paResetGroup5" "Reset channels (0-7)" (0 ∷ 0 ∷ 0 ∷ []) (204 ∷ 205 ∷ 206 ∷ []),
    )
    ∷ (
      "paResetGroup6",
      reg_map "paResetGroup6" "Reset channels (0-7)" (0 ∷ 0 ∷ 0 ∷ []) (228 ∷ 229 ∷ 230 ∷ []),
    )
    ∷ (
      "paPhaseSelectGroup0Channel4",
      reg_map "paPhaseSelectGroup0Channel4" "Select sample phase channel 4" (0 ∷ 0 ∷ 0 ∷ [])
          (67 ∷ 71 ∷ 75 ∷ []),
    )
    ∷ (
      "paPhaseSelectGroup5Channel4",
      reg_map "paPhaseSelectGroup5Channel4" "Select sample phase channel 4" (0 ∷ 0 ∷ 0 ∷ [])
          (187 ∷ 191 ∷ 195 ∷ []),
    )
    ∷ (
      "paPhaseSelectGroup5Channel6",
      reg_map "paPhaseSelectGroup5Channel6" "Select sample phase channel 6" (0 ∷ 0 ∷ 0 ∷ [])
          (186 ∷ 190 ∷ 194 ∷ []),
    )
    ∷ (
      "paPhaseSelectGroup5Channel7",
      reg_map "paPhaseSelectGroup5Channel7" "Select sample phase channel 7" (4 ∷ 4 ∷ 4 ∷ [])
          (186 ∷ 190 ∷ 194 ∷ []),
    )
    ∷ (
      "paPhaseSelectGroup5Channel0",
      reg_map "paPhaseSelectGroup5Channel0" "Select sample phase channel 0" (0 ∷ 0 ∷ 0 ∷ [])
          (189 ∷ 193 ∷ 197 ∷ []),
    )
    ∷ (
      "paPhaseSelectGroup5Channel5",
      reg_map "paPhaseSelectGroup5Channel5" "Select sample phase channel 5" (4 ∷ 4 ∷ 4 ∷ [])
          (187 ∷ 191 ∷ 195 ∷ []),
    )
    ∷ (
      "paPhaseSelectGroup5Channel3",
      reg_map "paPhaseSelectGroup5Channel3" "Select sample phase channel 3" (4 ∷ 4 ∷ 4 ∷ [])
          (188 ∷ 192 ∷ 196 ∷ []),
    )
    ∷ (
      "paPhaseSelectGroup2Channel3",
      reg_map "paPhaseSelectGroup2Channel3" "Select sample phase channel 3" (4 ∷ 4 ∷ 4 ∷ [])
          (116 ∷ 120 ∷ 124 ∷ []),
    )
    ∷ (
      "paPhaseSelectGroup2Channel2",
      reg_map "paPhaseSelectGroup2Channel2" "Select sample phase channel 2" (0 ∷ 0 ∷ 0 ∷ [])
          (116 ∷ 120 ∷ 124 ∷ []),
    )
    ∷ (
      "paPhaseSelectGroup2Channel1",
      reg_map "paPhaseSelectGroup2Channel1" "Select sample phase channel 1" (4 ∷ 4 ∷ 4 ∷ [])
          (117 ∷ 121 ∷ 125 ∷ []),
    )
    ∷ (
      "paPhaseSelectGroup2Channel0",
      reg_map "paPhaseSelectGroup2Channel0" "Select sample phase channel 0" (0 ∷ 0 ∷ 0 ∷ [])
          (117 ∷ 121 ∷ 125 ∷ []),
    )
    ∷ (
      "paPhaseSelectGroup2Channel7",
      reg_map "paPhaseSelectGroup2Channel7" "Select sample phase channel 7" (4 ∷ 4 ∷ 4 ∷ [])
          (114 ∷ 118 ∷ 122 ∷ []),
    )
    ∷ (
      "paPhaseSelectGroup2Channel6",
      reg_map "paPhaseSelectGroup2Channel6" "Select sample phase channel 6" (0 ∷ 0 ∷ 0 ∷ [])
          (114 ∷ 118 ∷ 122 ∷ []),
    )
    ∷ (
      "paPhaseSelectGroup2Channel5",
      reg_map "paPhaseSelectGroup2Channel5" "Select sample phase channel 5" (4 ∷ 4 ∷ 4 ∷ [])
          (115 ∷ 119 ∷ 123 ∷ []),
    )
    ∷ (
      "paPhaseSelectGroup2Channel4",
      reg_map "paPhaseSelectGroup2Channel4" "Select sample phase channel 4" (0 ∷ 0 ∷ 0 ∷ [])
          (115 ∷ 119 ∷ 123 ∷ []),
    )
    ∷ (
      "paPhaseSelectEC",
      reg_map "paPhaseSelectEC" "Select sample phase EC channel" (0 ∷ 0 ∷ 0 ∷ [])
          (233 ∷ 237 ∷ 241 ∷ []),
    )
    ∷ (
      "paPhaseSelectGroup4Channel5",
      reg_map "paPhaseSelectGroup4Channel5" "Select sample phase channel 5" (4 ∷ 4 ∷ 4 ∷ [])
          (163 ∷ 167 ∷ 171 ∷ []),
    )
    ∷ (
      "paPhaseSelectGroup4Channel4",
      reg_map "paPhaseSelectGroup4Channel4" "Select sample phase channel 4" (0 ∷ 0 ∷ 0 ∷ [])
          (163 ∷ 167 ∷ 171 ∷ []),
    )
    ∷ (
      "paPhaseSelectGroup4Channel7",
      reg_map "paPhaseSelectGroup4Channel7" "Select sample phase channel 7" (4 ∷ 4 ∷ 4 ∷ [])
          (162 ∷ 166 ∷ 170 ∷ []),
    )
    ∷ (
      "paPhaseSelectGroup4Channel6",
      reg_map "paPhaseSelectGroup4Channel6" "Select sample phase channel 6" (0 ∷ 0 ∷ 0 ∷ [])
          (162 ∷ 166 ∷ 170 ∷ []),
    )
    ∷ (
      "paPhaseSelectGroup4Channel1",
      reg_map "paPhaseSelectGroup4Channel1" "Select sample phase channel 1" (4 ∷ 4 ∷ 4 ∷ [])
          (165 ∷ 169 ∷ 173 ∷ []),
    )
    ∷ (
      "paPhaseSelectGroup4Channel0",
      reg_map "paPhaseSelectGroup4Channel0" "Select sample phase channel 0" (0 ∷ 0 ∷ 0 ∷ [])
          (165 ∷ 169 ∷ 173 ∷ []),
    )
    ∷ (
      "paPhaseSelectGroup4Channel3",
      reg_map "paPhaseSelectGroup4Channel3" "Select sample phase channel 3" (4 ∷ 4 ∷ 4 ∷ [])
          (164 ∷ 168 ∷ 172 ∷ []),
    )
    ∷ (
      "paPhaseSelectGroup4Channel2",
      reg_map "paPhaseSelectGroup4Channel2" "Select sample phase channel 2" (0 ∷ 0 ∷ 0 ∷ [])
          (164 ∷ 168 ∷ 172 ∷ []),
    )
    ∷ (
      "paPhaseSelectGroup6Channel7",
      reg_map "paPhaseSelectGroup6Channel7" "Select sample phase channel 7" (4 ∷ 4 ∷ 4 ∷ [])
          (210 ∷ 214 ∷ 218 ∷ []),
    )
    ∷ (
      "paPhaseSelectGroup6Channel6",
      reg_map "paPhaseSelectGroup6Channel6" "Select sample phase channel 6" (0 ∷ 0 ∷ 0 ∷ [])
          (210 ∷ 214 ∷ 218 ∷ []),
    )
    ∷ (
      "paPhaseSelectGroup6Channel5",
      reg_map "paPhaseSelectGroup6Channel5" "Select sample phase channel 5" (4 ∷ 4 ∷ 4 ∷ [])
          (211 ∷ 215 ∷ 219 ∷ []),
    )
    ∷ []
