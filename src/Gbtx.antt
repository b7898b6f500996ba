-- ===== src/Gbtx.antt =====
-- The configuration of a GBTx: src/GBTxConfig.cpp over the table of NSWConfiguration/GBTxRegisterMap.h.
pub mod Map
pub mod Maps
pub mod Config
