-- ===== src/Router.antt =====
-- src/hw/Router.cpp: the GPIO lines of a router, its reset, and the ID that its lines carry.
pub mod Board
pub mod Id
pub mod Configure
pub mod IdFields
pub mod Lines
pub mod Configured
