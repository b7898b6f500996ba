-- ===== src/I2c/Maps/RocAnalog.antt =====
-- ROC_ANALOG_REGISTERS of NSWConfiguration/I2cRegisterMappings.h, from its parts.
mod From064
mod From094
use nswconfiguration.Common.{◌++◌}
use nswconfiguration.I2c.Codec.{AddressRegisterMap}
use From064.{roc_analog_from_064}
use From094.{roc_analog_from_094}

abbrev pub roc_analog_registers : AddressRegisterMap
roc_analog_registers = roc_analog_from_064 ++ roc_analog_from_094
