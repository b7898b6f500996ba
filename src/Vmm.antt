-- ===== src/Vmm.antt =====
-- The VMM: src/VMMCodec.cpp and src/VMMConfig.cpp.
pub mod Tables
pub mod Codec
pub mod Fields
pub mod Global
pub mod ChannelMap
pub mod Channels
pub mod RoundTrip
pub mod ChannelRoundTrip
pub mod Config
