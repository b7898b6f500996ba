-- ===== src/PadTrigger/Delays.antt =====
-- The calls of src/hw/PadTrigger.cpp that write the input delays, and read them and the BCIDs back.
use nswconfiguration.Common.{ℕ, List}
use nswconfiguration.Common.Results.{ok}
use nswconfiguration.Common.Actions.{Action, lift, ◌>>=◌, ◌>>◌}
use nswconfiguration.PadTrigger.{read_fpga_register, write_and_readback_fpga_register}
use nswconfiguration.PadTrigger.Link.{FpgaLink}
use nswconfiguration.PadTrigger.Packing.{Words, delay_loop, pfeb_values, common_word}

abbrev pub reg_pfeb_delay_23_16 : ℕ
reg_pfeb_delay_23_16 = 4

abbrev pub reg_pfeb_delay_15_08 : ℕ
reg_pfeb_delay_15_08 = 5

abbrev pub reg_pfeb_delay_07_00 : ℕ
reg_pfeb_delay_07_00 = 6

abbrev pub reg_pfeb_bcid_23_16 : ℕ
reg_pfeb_bcid_23_16 = 7

abbrev pub reg_pfeb_bcid_15_08 : ℕ
reg_pfeb_bcid_15_08 = 8

abbrev pub reg_pfeb_bcid_07_00 : ℕ
reg_pfeb_bcid_07_00 = 9

module _ {Fpga : Type 0} ⦃link : FpgaLink Fpga⦄ where
  unfoldable pub write_words : Words → Action Fpga (Unit {0})
  write_words (w23, w15, w07) =
      write_and_readback_fpga_register reg_pfeb_delay_23_16 w23
      >> (write_and_readback_fpga_register reg_pfeb_delay_15_08 w15
          >> write_and_readback_fpga_register reg_pfeb_delay_07_00 w07)

  -- PadTrigger::writePFEBDelay: a wrong number of values is reported, and no more.
  unfoldable pub write_pfeb_delay : List ℕ → Action Fpga (Unit {0})
  write_pfeb_delay values = lift (delay_loop 8 0 values (0, 0, 0)) >>= write_words

  -- PadTrigger::writePFEBCommonDelay
  unfoldable pub write_pfeb_common_delay : (ℕ → ℕ) → ℕ → Action Fpga (Unit {0})
  write_pfeb_common_delay wide v =
      write_words (common_word wide v, common_word wide v, common_word wide v)

  -- PadTrigger::readPFEBDelays
  unfoldable pub read_pfeb_delays : Action Fpga (List ℕ)
  read_pfeb_delays = read_fpga_register reg_pfeb_delay_23_16 >>= λ delays_23_16.
      read_fpga_register reg_pfeb_delay_15_08 >>= λ delays_15_08.
      read_fpga_register reg_pfeb_delay_07_00 >>= λ delays_07_00.
      lift (ok (pfeb_values delays_07_00 delays_15_08 delays_23_16))

  -- PadTrigger::readPFEBBCIDs
  unfoldable pub read_pfeb_bcids : Action Fpga (List ℕ)
  read_pfeb_bcids = read_fpga_register reg_pfeb_bcid_23_16 >>= λ bcids_23_16.
      read_fpga_register reg_pfeb_bcid_15_08 >>= λ bcids_15_08.
      read_fpga_register reg_pfeb_bcid_07_00 >>= λ bcids_07_00.
      lift (ok (pfeb_values bcids_07_00 bcids_15_08 bcids_23_16))
