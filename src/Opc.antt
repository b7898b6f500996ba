-- ===== src/Opc.antt =====
-- src/hw/OpcManager.cpp: the connections to OPC servers, the list of bad ones that the pings keep,
-- and the threads that wait for a server's restart. The mutex makes each call one step,
-- but clear, which takes no lock and is a step when no other call runs beside it.
pub mod Client
pub mod Manager
pub mod Entries
pub mod Pings
pub mod Steps
pub mod Restarts
pub mod Ports
pub mod Tracking
