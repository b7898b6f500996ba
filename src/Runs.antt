-- ===== src/Runs.antt =====
-- Concrete configurations, tests of the model on them, and instances of its theorems.
mod Digits
mod Trees
mod Vmms
mod Masters
mod VmmInstances
mod MasterInstances
mod UtilityInstances
mod Gbtxs
mod Fpgas
mod PadTriggerInstances
mod OpcInstances
mod DeviceInstances
mod GeoInstances
mod RouterInstances
