-- ===== src/PadTrigger/Scan.antt =====
-- The scan of the input delays in src/hw/PadTrigger.cpp, and the deskew that uses it. The printing
-- of describeSkew is left out.
use nswconfiguration.Common.{ℕ, zero, suc, ◌+◌, Bool, List, [], replicate, not, if◌then◌else◌}
use nswconfiguration.Common.Results.{ok}
use nswconfiguration.Common.Actions.{Action, lift, ◌>>=◌, ◌>>◌}
use nswconfiguration.PadTrigger.Link.{FpgaLink}
use nswconfiguration.PadTrigger.Columns.{push_back_column, medians}
use nswconfiguration.PadTrigger.Deskew.{get_target_bcid, get_target_delays}
use nswconfiguration.PadTrigger.Delays.{
  read_pfeb_bcids, read_pfeb_delays, write_pfeb_delay, write_pfeb_common_delay,
}

abbrev pub num_input_delays : ℕ
num_input_delays = 16

abbrev pub num_deskew_reads : ℕ
num_deskew_reads = 10

-- std::vector<BcidVector>(NUM_PFEBS)
abbrev pub no_columns : List (List ℕ)
no_columns = replicate 24 []

module _ {Fpga : Type 0} ⦃link : FpgaLink Fpga⦄ where
  -- The loop of readPFEBBCIDs(nread).
  unfoldable pub read_loop : ℕ → List (List ℕ) → Action Fpga (List (List ℕ))
  read_loop zero collated = lift (ok collated)
  read_loop (suc left) collated =
      read_pfeb_bcids >>= λ column. lift (push_back_column collated column) >>= read_loop left

  -- PadTrigger::readMedianPFEBBCIDs
  unfoldable pub read_median_pfeb_bcids : ℕ → Action Fpga (List ℕ)
  read_median_pfeb_bcids nread = read_loop nread no_columns >>= λ rows. lift (medians rows)

  -- The loop of readMedianPFEBBCIDAtEachDelay.
  unfoldable pub scan_loop : (ℕ → ℕ) → ℕ → ℕ → ℕ → List (List ℕ) → Action Fpga (List (List ℕ))
  scan_loop wide nread delay zero collated = lift (ok collated)
  scan_loop wide nread delay (suc left) collated =
      write_pfeb_common_delay wide delay
      >> (read_median_pfeb_bcids nread >>= λ column.
          lift (push_back_column collated column) >>= scan_loop wide nread (delay + 1) left)

  -- PadTrigger::readMedianPFEBBCIDAtEachDelay
  unfoldable pub read_median_pfeb_bcid_at_each_delay : (ℕ → ℕ) → ℕ → Action Fpga (List (List ℕ))
  read_median_pfeb_bcid_at_each_delay wide nread =
      scan_loop wide nread 0 num_input_delays no_columns

  -- The read of the new BCIDs for the last message of deskewPFEBs.
  abbrev pub show_bcids : Action Fpga (Unit {0})
  show_bcids = read_pfeb_bcids >>= λ new_bcids. lift (ok tt)

  -- PadTrigger::deskewPFEBs, on the settings Deskew and DeskewScanOnly.
  unfoldable pub deskew_pfebs : (ℕ → ℕ) → Bool → Bool → Action Fpga (Unit {0})
  deskew_pfebs wide deskew scan_only =
      if not deskew
      then lift (ok tt)
      else (read_pfeb_delays >>= λ existing_delays.
          read_median_pfeb_bcid_at_each_delay wide num_deskew_reads >>= λ boards.
          lift (get_target_bcid boards) >>= λ target_bcid.
          write_pfeb_delay
            (if scan_only then existing_delays else get_target_delays target_bcid boards)
          >> show_bcids)
