-- ===== src/I2c/Maps/RocDigital.antt =====
-- ROC_DIGITAL_REGISTERS of NSWConfiguration/I2cRegisterMappings.h, from its parts.
mod From000
mod From040
use nswconfiguration.Common.{◌++◌}
use nswconfiguration.I2c.Codec.{AddressRegisterMap}
use From000.{roc_digital_from_000}
use From040.{roc_digital_from_040}

abbrev pub roc_digital_registers : AddressRegisterMap
roc_digital_registers = roc_digital_from_000 ++ roc_digital_from_040
