-- ===== src/I2c/Maps.antt =====
-- The register maps of NSWConfiguration/I2cRegisterMappings.h, and the masters that have them.
pub mod RocAnalog
pub mod RocDigital
pub mod Tds
pub mod ArtPs
pub mod ArtCore
pub mod PadTrigger
pub mod WellFormed
use nswconfiguration.I2c.Codec.{AddressRegisterMap}
use RocAnalog.{roc_analog_registers}
use RocDigital.{roc_digital_registers}
use Tds.{tds_registers}
use ArtPs.{art_ps_registers}
use ArtCore.{art_core_registers}
use PadTrigger.{padtrigger_registers}

-- One constructor for each map.
pub data Master : Type 0 where
  roc_analog roc_digital tds art_ps art_core padtrigger : Master

unfoldable pub registers : Master → AddressRegisterMap
registers roc_analog = roc_analog_registers
registers roc_digital = roc_digital_registers
registers tds = tds_registers
registers art_ps = art_ps_registers
registers art_core = art_core_registers
registers padtrigger = padtrigger_registers
