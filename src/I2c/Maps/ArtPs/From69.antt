-- ===== src/I2c/Maps/ArtPs/From69.antt =====
-- ART_PS_REGISTERS of NSWConfiguration/I2cRegisterMappings.h: a part.
use nswconfiguration.Common.{[], ◌∷◌}
use nswconfiguration.I2c.Codec.{AddressRegisterMap}

abbrev pub art_ps_from_69 : AddressRegisterMap
art_ps_from_69 = ("69", ("rxTermEnable", 8) ∷ []) ∷ []
