-- ===== src/Devices/Manager.antt =====
-- The counters and the calls of nsw::hw::DeviceManager. A device is what its configuration does when
-- it is called: it succeeds, or ends by an exception, which the classes of the devices choose.
use nswconfiguration.Common.{
  ℕ, ◌+◌, Bool, true, false, List, [], ◌∷◌, ◌++◌, length, if◌then◌else◌, any, String, str_eq,
}
use nswconfiguration.Common.Results.{
  Issue, Result, ok, err, opc_read_write_issue, opc_connection_issue, nsw_hw_config_issue,
}

-- DeviceManager::Options
pub data Options : Type 0 where
  reset_vmm reset_tds disable_vmm_capture_inputs : Options

unfoldable pub option_eq : Options → Options → Bool
option_eq reset_vmm reset_vmm = true
option_eq reset_tds reset_tds = true
option_eq disable_vmm_capture_inputs disable_vmm_capture_inputs = true
option_eq a b = false

-- std::find(...) != std::cend(options)
unfoldable pub has_option : Options → List Options → Bool
unfolding option_eq
has_option o options = any (option_eq o) options

-- m_configurationErrorCounter, m_configurationTotalCounter, and the issues that are reported.
pub record Counters : Type 0 where
  pub errors : ℕ
  pub total : ℕ
  pub reported : List Issue

-- DeviceManager::checkSuccess: an exception that is not of OPC goes to the handler.
unfoldable pub check_success : Result (Unit {0}) → Bool × List Issue
check_success (ok u) = (true, [])
check_success (err opc_read_write_issue) = (false, [])
check_success (err opc_connection_issue) = (false, [])
check_success (err issue) = (false, issue ∷ [])

-- ++m_configurationErrorCounter unless the device succeeded.
unfoldable pub count_result : Bool → Counters → Counters
count_result true c = c
count_result false c = record c { errors = c.errors + 1 }

unfoldable pub report : List Issue → Counters → Counters
report issues c = record c { reported = c.reported ++ issues }

unfoldable pub get_loop : List Bool → Counters → Counters
get_loop [] c = c
get_loop (success ∷ results) c = get_loop results (count_result success c)

module _ {Device : Type 0} where
  -- The loop of applyFunc without threads.
  unfoldable pub sequential_loop : (Device → Result (Unit {0})) → List Device → Counters → Counters
  sequential_loop func [] c = c
  sequential_loop func (device ∷ devices) c =
      let (success, issues) = check_success (func device) in
      sequential_loop func devices (count_result success (report issues c))

  -- With threads: each device has a thread, whose handler runs in it, and the results are taken in
  -- the order of the devices. The threads report in the order that `schedule` gives.
  unfoldable pub thread_results : (Device → Result (Unit {0})) → List Device → List Bool
  thread_results func [] = []
  thread_results func (device ∷ devices) =
      (check_success (func device)).0 ∷ thread_results func devices

  unfoldable pub thread_reports : (Device → Result (Unit {0})) → List Device → List Issue
  thread_reports func [] = []
  thread_reports func (device ∷ devices) =
      (check_success (func device)).1 ++ thread_reports func devices

  -- DeviceManager::applyFunc; `schedule` is the order in which the threads come to their handlers.
  unfoldable pub apply_func :
      Bool
      → (List Device → List Device)
      → List Device
      → (Device → Result (Unit {0}))
      → Counters
      → Counters
  apply_func multithreaded schedule devices func c =
      let counted = record c { total = c.total + length devices } in
      if multithreaded
      then get_loop (thread_results func devices)
          (report (thread_reports func (schedule devices)) counted)
      else sequential_loop func devices counted

-- The classes of the devices: writeConfiguration, with three flags at a front-end board.
pub record Hardware (Device : Type 0) : Type 0 where
  pub write_feb : Bool → Bool → Bool → Device → Result (Unit {0})
  pub write_configuration : Device → Result (Unit {0})

pub record DeviceManager (Device : Type 0) : Type 0 where
  pub multithreaded : Bool
  pub febs : List Device
  pub addcs : List Device
  pub mmtps : List Device
  pub stgctps : List Device
  pub routers : List Device
  pub pad_triggers : List Device
  pub tp_carriers : List Device
  pub counters : Counters

abbrev is_feb_type : String → Bool
is_feb_type t = any (str_eq t) ("MMFE8" ∷ "SFEB6" ∷ "SFEB8" ∷ "PFEB" ∷ "SFEB" ∷ [])

module _ {Device : Type 0} where
  -- DeviceManager::add with the type that getElementType gives and the device made of the tree.
  unfoldable pub add_device : String → Device → DeviceManager Device → Result (DeviceManager Device)
  add_device t device m =
      if is_feb_type t
      then ok (record m { febs = m.febs ++ (device ∷ []) })
      else if str_eq t "ADDC"
      then ok (record m { addcs = m.addcs ++ (device ∷ []) })
      else if str_eq t "MMTP"
      then ok (record m { mmtps = m.mmtps ++ (device ∷ []) })
      else if str_eq t "STGCTP"
      then ok (record m { stgctps = m.stgctps ++ (device ∷ []) })
      else if str_eq t "Router"
      then ok (record m { routers = m.routers ++ (device ∷ []) })
      else if str_eq t "PadTrigger"
      then ok (record m { pad_triggers = m.pad_triggers ++ (device ∷ []) })
      else if str_eq t "TPCarrier"
      then ok (record m { tp_carriers = m.tp_carriers ++ (device ∷ []) })
      else err (nsw_hw_config_issue t)

  -- DeviceManager::resetErrorCounters
  unfoldable pub reset_error_counters : DeviceManager Device → DeviceManager Device
  reset_error_counters m = record m { counters = record m.counters { errors = 0; total = 0 } }

  module _ ⦃hw : Hardware Device⦄ (schedule : List Device → List Device) where
    -- The lambda `conf` of DeviceManager::configure.
    unfoldable pub conf :
        List Device → (Device → Result (Unit {0})) → DeviceManager Device → DeviceManager Device
    conf devices func m = record m {
      counters = apply_func m.multithreaded schedule devices func m.counters;
    }

    -- DeviceManager::configure
    unfoldable pub configure : List Options → DeviceManager Device → DeviceManager Device
    configure options m =
        let feb =
          hw.write_feb (has_option reset_vmm options) (has_option reset_tds options)
            (has_option disable_vmm_capture_inputs options) in
        let m0 = reset_error_counters m in
        let m1 = conf m.febs feb m0 in
        let m2 = conf m.addcs hw.write_configuration m1 in
        let m3 = conf m.mmtps hw.write_configuration m2 in
        let m4 = conf m.routers hw.write_configuration m3 in
        let m5 = conf m.pad_triggers hw.write_configuration m4 in
        let m6 = conf m.stgctps hw.write_configuration m5 in
        conf m.tp_carriers hw.write_configuration m6
