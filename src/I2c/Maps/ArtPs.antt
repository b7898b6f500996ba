-- ===== src/I2c/Maps/ArtPs.antt =====
-- ART_PS_REGISTERS of NSWConfiguration/I2cRegisterMappings.h, from its parts.
mod From00
mod From22
mod From45
mod From69
use nswconfiguration.Common.{◌++◌}
use nswconfiguration.I2c.Codec.{AddressRegisterMap}
use From00.{art_ps_from_00}
use From22.{art_ps_from_22}
use From45.{art_ps_from_45}
use From69.{art_ps_from_69}

abbrev pub art_ps_registers : AddressRegisterMap
art_ps_registers = art_ps_from_00 ++ (art_ps_from_22 ++ (art_ps_from_45 ++ art_ps_from_69))
