-- ===== src/I2c/Maps/PadTrigger.antt =====
-- PADTRIGGER_REGISTERS of NSWConfiguration/I2cRegisterMappings.h, from its parts.
mod From000
mod From011
mod From04e
mod From07b
mod From0a8
mod From0d5
use nswconfiguration.Common.{◌++◌}
use nswconfiguration.I2c.Codec.{AddressRegisterMap}
use From000.{padtrigger_from_000}
use From011.{padtrigger_from_011}
use From04e.{padtrigger_from_04e}
use From07b.{padtrigger_from_07b}
use From0a8.{padtrigger_from_0a8}
use From0d5.{padtrigger_from_0d5}

abbrev pub padtrigger_registers : AddressRegisterMap
padtrigger_registers =
    padtrigger_from_000
    ++ (padtrigger_from_011
        ++ (padtrigger_from_04e
            ++ (padtrigger_from_07b ++ (padtrigger_from_0a8 ++ padtrigger_from_0d5))))
