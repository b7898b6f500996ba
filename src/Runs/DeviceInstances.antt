-- ===== src/Runs/DeviceInstances.antt =====
-- The theorem on src/hw/DeviceManager.cpp with devices of which one fails.
use nswconfiguration.Common.{◌≤◌, ◌≡◌, Bool, true, false, [], ◌∷◌, reverse}
use nswconfiguration.Common.Results.{Result, ok, err, opc_connection_issue}
use nswconfiguration.Devices.Manager.{reset_vmm, Hardware, DeviceManager, configure}
use nswconfiguration.Devices.Counting.{failure_count, device_count, configure-counts}

-- A device is online or not.
abbrev call : Bool → Result (Unit {0})
call true = ok tt
call false = err opc_connection_issue

abbrev boards : Hardware Bool
boards = record { write_feb = λ vmm tds capture. call; write_configuration = call }

abbrev crate : DeviceManager Bool
crate = record {
  multithreaded = true;
  febs = true ∷ false ∷ true ∷ [];
  addcs = true ∷ [];
  mmtps = [];
  stgctps = [];
  routers = false ∷ [];
  pad_triggers = [];
  tp_carriers = [];
  counters = record { errors = 7; total = 3; reported = [] };
}

configure-counts_example :
    ((configure ⦃hw = boards⦄ reverse (reset_vmm ∷ []) crate).counters.errors
      ≡ failure_count ⦃hw = boards⦄ (reset_vmm ∷ []) crate)
    × ((configure ⦃hw = boards⦄ reverse (reset_vmm ∷ []) crate).counters.total
        ≡ device_count ⦃hw = boards⦄ crate)
    × ((configure ⦃hw = boards⦄ reverse (reset_vmm ∷ []) crate).counters.errors
        ≤ (configure ⦃hw = boards⦄ reverse (reset_vmm ∷ []) crate).counters.total)
configure-counts_example = configure-counts ⦃hw = boards⦄ reverse (reset_vmm ∷ []) crate
