-- ===== src/I2c.antt =====
-- I2C masters: src/I2cMasterConfig.cpp, NSWConfiguration/I2cMasterConfig.h and the register maps of
-- NSWConfiguration/I2cRegisterMappings.h.
pub mod Codec
pub mod Layout
pub mod Positions
pub mod Fields
pub mod Maps
pub mod Masters
pub mod Config
