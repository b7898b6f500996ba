-- ===== src/Devices.antt =====
-- src/hw/DeviceManager.cpp and NSWConfiguration/hw/DeviceManager.h: a function applied to the devices
-- of a group, with the counters of the devices and of the failures.
pub mod Manager
pub mod Counting
