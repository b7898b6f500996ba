-- ===== src/Router/Configure.antt =====
-- The calls of src/hw/Router.cpp on the board: the upload, the reset with its checks, and the ID.
use nswconfiguration.Common.{
  ℕ, zero, suc, ◌+◌, String, str_eq, Bool, true, false, ◌&&◌, List, [], ◌∷◌, if◌then◌else◌,
}
use nswconfiguration.Common.Results.{ok}
use nswconfiguration.Common.Actions.{Action, ◌>>=◌, ◌>>◌, lift}
use nswconfiguration.Bits.{test_bit}
use nswconfiguration.Router.Board.{GpioLink}
use nswconfiguration.Router.Id.{Router, get_id}

-- m_gpio_checks
abbrev pub gpio_checks : List (String × Bool)
gpio_checks =
    ("fpgaConfigOK", true)
    ∷ ("mmcmBotLock", true)
    ∷ ("fpgaInit", true)
    ∷ ("rxClkReady", true)
    ∷ ("txClkReady", true)
    ∷ ("cpllTopLock", true)
    ∷ ("cpllBotLock", true)
    ∷ ("mmcmTopLock", true)
    ∷ ("semFatalError", false)
    ∷ ("masterChannel0", true)
    ∷ []

-- The lines of the ID, from bit 0 on.
abbrev pub router_id_lines : List String
router_id_lines =
    "routerId0" ∷ "routerId1" ∷ "routerId2" ∷ "routerId3" ∷ "routerId4" ∷ "routerId5" ∷ "routerId6"
    ∷ "routerId7" ∷ []

abbrev pub max_resets : ℕ
max_resets = 3

abbrev pub max_gpio_checks : ℕ
max_gpio_checks = 5

unfoldable pub same : Bool → Bool → Bool
same true v = v
same false true = false
same false false = true

module _ {Board : Type 0} ⦃link : GpioLink Board⦄ where
  -- nsw::snooze
  unfoldable pub pause : Action Board (Unit {0})
  pause b = (link.snooze b, ok tt)

  -- Router::sendAndReadbackGPIO: a wrong level is reported, and no more.
  unfoldable pub send_and_readback_gpio : String → Bool → Action Board (Unit {0})
  send_and_readback_gpio name v =
      link.send_gpio name v >> (link.read_gpio name >>= λ readback. lift (ok tt))

  -- Router::checkGPIOs: every line is read.
  unfoldable pub check_loop : List (String × Bool) → Bool → Action Board Bool
  check_loop [] good = lift (ok good)
  check_loop ((name, exp) ∷ checks) good =
      link.read_gpio name >>= λ obs. check_loop checks (good && same obs exp)

  -- Router::checkGPIOsAFewTimes, with `left` checks to go.
  unfoldable pub checks_loop : ℕ → Action Board Bool
  unfolding check_loop pause
  checks_loop zero = lift (ok false)
  checks_loop (suc left) =
      let rest = checks_loop left in
      check_loop gpio_checks true >>= λ good. if good then lift (ok true) else pause >> rest

  -- Router::writeSoftReset
  unfoldable pub write_soft_reset : Action Board (Unit {0})
  unfolding send_and_readback_gpio pause
  write_soft_reset =
      send_and_readback_gpio "ctrlMod0" false
      >> (send_and_readback_gpio "ctrlMod1" false
          >> (send_and_readback_gpio "softReset" true
              >> (pause >> (send_and_readback_gpio "softReset" false >> pause))))

  -- Router::writeSoftResetAndCheckGPIO, with `left` resets to go; that none helped is reported.
  unfoldable pub resets_loop : ℕ → Action Board (Unit {0})
  unfolding write_soft_reset checks_loop pause
  resets_loop zero = lift (ok tt)
  resets_loop (suc left) =
      let rest = resets_loop left in
      write_soft_reset
      >> (checks_loop max_gpio_checks >>= λ good. if good then lift (ok tt) else pause >> rest)

  -- The loop of Router::writeScaId, from a bit on.
  unfoldable pub id_loop : List String → ℕ → ℕ → Action Board (Unit {0})
  unfolding send_and_readback_gpio
  id_loop [] bit id = lift (ok tt)
  id_loop (name ∷ names) bit id =
      send_and_readback_gpio name (test_bit id bit) >> id_loop names (bit + 1) id

  -- Router::writeScaId. The log calls getIdSector, getIdLayer and getIdEndcap once more, which end as
  -- in getId and change nothing on the board.
  unfoldable pub write_sca_id : Router → Action Board (Unit {0})
  unfolding id_loop
  write_sca_id r = lift (get_id r []).1 >>= id_loop router_id_lines 0

  -- Router::writeJTAGBitfileConfiguration
  unfoldable pub write_jtag_bitfile_configuration : Router → Action Board (Unit {0})
  write_jtag_bitfile_configuration r =
      if str_eq r.firmware "" then lift (ok tt) else link.write_xilinx_fpga r.firmware

  -- Router::writeConfiguration
  unfoldable pub write_configuration : Router → Action Board (Unit {0})
  unfolding write_jtag_bitfile_configuration resets_loop write_sca_id
  write_configuration r =
      write_jtag_bitfile_configuration r >> (resets_loop max_resets >> write_sca_id r)
