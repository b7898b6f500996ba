-- ===== src/I2c/Maps/ArtCore.antt =====
-- ART_CORE_REGISTERS of NSWConfiguration/I2cRegisterMappings.h, from its parts.
mod From00
mod From25
use nswconfiguration.Common.{◌++◌}
use nswconfiguration.I2c.Codec.{AddressRegisterMap}
use From00.{art_core_from_00}
use From25.{art_core_from_25}

abbrev pub art_core_registers : AddressRegisterMap
art_core_registers = art_core_from_00 ++ art_core_from_25
