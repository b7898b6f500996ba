-- ===== src/Devices/Counting.antt =====
-- The counters of src/hw/DeviceManager.cpp count the devices and the failures, with and without
-- threads.
use nswconfiguration.Common.{
  ℕ, ◌+◌, ◌≤◌, ◌≡◌, refl, ◌∙◌, arith, Bool, true, false, List, [], ◌∷◌, length, if◌then◌else◌,
}
use nswconfiguration.Common.Results.{
  Result, ok, err, out_of_range, invalid_argument, runtime_error, logic_error, bad_path, bad_data,
  register_overflow, missing_vmm_register, no_such_vmm_register, vmm_codec_issue,
  vmm_channel_out_of_range, vmm_config_issue, missing_i2c_address, missing_i2c_register,
  no_such_i2c_address, no_such_i2c_register, write_to_readonly_register, board_issue,
  invalid_gbtx_training_type, padtrigger_config_error, nsw_hw_config_issue, opc_read_write_issue,
  opc_connection_issue, sca_geo_identifier_issue, router_hw_issue,
}
use nswconfiguration.Devices.Manager.{
  Options, reset_vmm, reset_tds, disable_vmm_capture_inputs, has_option, Counters, check_success,
  count_result, report, sequential_loop, thread_results, get_loop, apply_func, Hardware,
  DeviceManager, reset_error_counters, conf, configure,
}

-- A call that ends by an exception, of whatever kind, counts one.
unfoldable pub threw : Result (Unit {0}) → ℕ
threw (ok u) = 0
threw (err issue) = 1

-- checkSuccess counts as a failure just what ends by an exception.
check_success-threw : (r : Result (Unit {0})) → (if (check_success r).0 then 0 else 1) ≡ threw r
unfolding check_success threw
check_success-threw (ok u) = refl
check_success-threw (err out_of_range) = refl
check_success-threw (err invalid_argument) = refl
check_success-threw (err runtime_error) = refl
check_success-threw (err logic_error) = refl
check_success-threw (err bad_path) = refl
check_success-threw (err bad_data) = refl
check_success-threw (err (register_overflow a)) = refl
check_success-threw (err (missing_vmm_register a)) = refl
check_success-threw (err (no_such_vmm_register a)) = refl
check_success-threw (err (vmm_codec_issue a)) = refl
check_success-threw (err (vmm_channel_out_of_range a)) = refl
check_success-threw (err vmm_config_issue) = refl
check_success-threw (err (missing_i2c_address a)) = refl
check_success-threw (err (missing_i2c_register a)) = refl
check_success-threw (err (no_such_i2c_address a)) = refl
check_success-threw (err (no_such_i2c_register a)) = refl
check_success-threw (err (write_to_readonly_register a)) = refl
check_success-threw (err board_issue) = refl
check_success-threw (err (invalid_gbtx_training_type a)) = refl
check_success-threw (err (padtrigger_config_error a)) = refl
check_success-threw (err (nsw_hw_config_issue a)) = refl
check_success-threw (err opc_read_write_issue) = refl
check_success-threw (err opc_connection_issue) = refl
check_success-threw (err sca_geo_identifier_issue) = refl
check_success-threw (err router_hw_issue) = refl

module _ {Device : Type 0} (func : Device → Result (Unit {0})) where
  -- The devices of a list at which the function ends by an exception.
  unfoldable pub failures : List Device → ℕ
  unfolding threw
  failures [] = 0
  failures (device ∷ devices) = threw (func device) + failures devices

  count_result-errors :
      (success : Bool) (c : Counters)
      → (count_result success c).errors ≡ c.errors + (if success then 0 else 1)
  unfolding count_result
  count_result-errors true c = omega arith
  count_result-errors false c = omega arith

  count_result-total : (success : Bool) (c : Counters) → (count_result success c).total ≡ c.total
  unfolding count_result
  count_result-total true c = refl
  count_result-total false c = refl

  sequential_loop-counts :
      (devices : List Device) (c : Counters)
      → ((sequential_loop func devices c).errors ≡ c.errors + failures devices)
        × ((sequential_loop func devices c).total ≡ c.total)
  unfolding sequential_loop failures report
  sequential_loop-counts [] c = (omega arith, refl)
  sequential_loop-counts (device ∷ devices) c =
      let (success, issues) = check_success (func device) in
      let (errors, total) =
        sequential_loop-counts devices (count_result success (report issues c)) in
      (
        omega (
          arith,
          errors,
          count_result-errors success (report issues c),
          check_success-threw (func device),
        ),
        total ∙ count_result-total success (report issues c),
      )

  get_loop-counts :
      (devices : List Device) (c : Counters)
      → ((get_loop (thread_results func devices) c).errors ≡ c.errors + failures devices)
        × ((get_loop (thread_results func devices) c).total ≡ c.total)
  unfolding get_loop thread_results failures
  get_loop-counts [] c = (omega arith, refl)
  get_loop-counts (device ∷ devices) c =
      let (success, issues) = check_success (func device) in
      let (errors, total) = get_loop-counts devices (count_result success c) in
      (
        omega (arith, errors, count_result-errors success c, check_success-threw (func device)),
        total ∙ count_result-total success c,
      )

  failures-length : (devices : List Device) → failures devices ≤ length devices
  unfolding failures
  failures-length [] = omega arith
  failures-length (device ∷ devices) =
      omega (arith, failures-length devices, one_each (func device))
    where
      one_each : (r : Result (Unit {0})) → threw r ≤ 1
      one_each (ok u) = omega arith
      one_each (err issue) = omega arith

  apply_func-counts :
      (multithreaded : Bool) (schedule : List Device → List Device) (devices : List Device)
      (c : Counters)
      → ((apply_func multithreaded schedule devices func c).errors ≡ c.errors + failures devices)
        × ((apply_func multithreaded schedule devices func c).total ≡ c.total + length devices)
  unfolding apply_func report
  apply_func-counts true schedule devices c = get_loop-counts devices _
  apply_func-counts false schedule devices c = sequential_loop-counts devices _

module _ {Device : Type 0} ⦃hw : Hardware Device⦄ where
  -- writeConfiguration of a front-end board with the flags of the options.
  abbrev pub feb_call : List Options → Device → Result (Unit {0})
  feb_call options =
      hw.write_feb (has_option reset_vmm options) (has_option reset_tds options)
        (has_option disable_vmm_capture_inputs options)

  abbrev pub device_count : DeviceManager Device → ℕ
  device_count m =
      length m.febs
      + length m.addcs
      + length m.mmtps
      + length m.routers
      + length m.pad_triggers
      + length m.stgctps
      + length m.tp_carriers

  abbrev pub failure_count : List Options → DeviceManager Device → ℕ
  failure_count options m =
      failures (feb_call options) m.febs
      + failures hw.write_configuration m.addcs
      + failures hw.write_configuration m.mmtps
      + failures hw.write_configuration m.routers
      + failures hw.write_configuration m.pad_triggers
      + failures hw.write_configuration m.stgctps
      + failures hw.write_configuration m.tp_carriers

  configure-sums :
      (schedule : List Device → List Device) (options : List Options) (m : DeviceManager Device)
      → ((configure schedule options m).counters.errors ≡ failure_count options m)
        × ((configure schedule options m).counters.total ≡ device_count m)
  unfolding configure conf reset_error_counters
  configure-sums schedule options m =
      let step =
        λ (func : Device → Result (Unit {0})). apply_func-counts func m.multithreaded schedule in
      let c0 = (reset_error_counters m).counters in
      let c1 = apply_func m.multithreaded schedule m.febs (feb_call options) c0 in
      let c2 = apply_func m.multithreaded schedule m.addcs hw.write_configuration c1 in
      let c3 = apply_func m.multithreaded schedule m.mmtps hw.write_configuration c2 in
      let c4 = apply_func m.multithreaded schedule m.routers hw.write_configuration c3 in
      let c5 = apply_func m.multithreaded schedule m.pad_triggers hw.write_configuration c4 in
      let c6 = apply_func m.multithreaded schedule m.stgctps hw.write_configuration c5 in
      let (e1, t1) = step (feb_call options) m.febs c0 in
      let (e2, t2) = step hw.write_configuration m.addcs c1 in
      let (e3, t3) = step hw.write_configuration m.mmtps c2 in
      let (e4, t4) = step hw.write_configuration m.routers c3 in
      let (e5, t5) = step hw.write_configuration m.pad_triggers c4 in
      let (e6, t6) = step hw.write_configuration m.stgctps c5 in
      let (e7, t7) = step hw.write_configuration m.tp_carriers c6 in
      (omega (arith, e1, e2, e3, e4, e5, e6, e7), omega (arith, t1, t2, t3, t4, t5, t6, t7))

  -- Whether with threads or without, whatever order the handlers of the threads report in, and
  -- whatever the counters were before: after configure the total is the number of devices of the seven
  -- groups, the errors are those whose configuration ended by an exception, of OPC or of another kind,
  -- and there are not more errors than devices.
  pub configure-counts :
      (schedule : List Device → List Device) (options : List Options) (m : DeviceManager Device)
      → ((configure schedule options m).counters.errors ≡ failure_count options m)
        × ((configure schedule options m).counters.total ≡ device_count m)
        × ((configure schedule options m).counters.errors
            ≤ (configure schedule options m).counters.total)
  configure-counts schedule options m =
      let (errors, total) = configure-sums schedule options m in
      (
        errors,
        total,
        omega (
          arith,
          errors,
          total,
          failures-length (feb_call options) m.febs,
          failures-length hw.write_configuration m.addcs,
          failures-length hw.write_configuration m.mmtps,
          failures-length hw.write_configuration m.routers,
          failures-length hw.write_configuration m.pad_triggers,
          failures-length hw.write_configuration m.stgctps,
          failures-length hw.write_configuration m.tp_carriers,
        ),
      )
