-- ===== src/Gbtx/Maps.antt =====
-- compiledGbtxRegisterMap of NSWConfiguration/GBTxRegisterMap.h.
pub mod Part1
pub mod Part2
pub mod Part3
pub mod Part4
pub mod Part5
pub mod Part6
pub mod Part7
pub mod Part8
use nswconfiguration.Common.{◌++◌}
use nswconfiguration.Common.Assoc.{Assoc}
use nswconfiguration.Gbtx.Map.{RegMap}
use Part1.{gbtx_maps_1}
use Part2.{gbtx_maps_2}
use Part3.{gbtx_maps_3}
use Part4.{gbtx_maps_4}
use Part5.{gbtx_maps_5}
use Part6.{gbtx_maps_6}
use Part7.{gbtx_maps_7}
use Part8.{gbtx_maps_8}

unfoldable pub compiled_gbtx_register_map : Assoc RegMap
compiled_gbtx_register_map =
    gbtx_maps_1
    ++ (gbtx_maps_2
        ++ (gbtx_maps_3
            ++ (gbtx_maps_4 ++ (gbtx_maps_5 ++ (gbtx_maps_6 ++ (gbtx_maps_7 ++ gbtx_maps_8))))))
