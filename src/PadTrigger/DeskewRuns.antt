-- ===== src/PadTrigger/DeskewRuns.antt =====
-- deskewPFEBs of src/hw/PadTrigger.cpp over a link that answers: it comes to an end without an
-- exception, and leaves delays that are read back.
use nswconfiguration.Common.{
  ℕ, zero, suc, ◌+◌, ◌≡◌, refl, ap, ◌∙◌, arith, true, false, List, length, All, All-map,
}
use nswconfiguration.Common.Results.{ok}
use nswconfiguration.Common.Actions.{◌>>◌}
use nswconfiguration.Utility.{byte_vector_to_word32}
use nswconfiguration.PadTrigger.Link.{FpgaLink}
use nswconfiguration.PadTrigger.Packing.{common_word}
use nswconfiguration.PadTrigger.Nibbles.{common_word-lt}
use nswconfiguration.PadTrigger.NibbleWords.{IsNibble}
use nswconfiguration.PadTrigger.Delays.{write_pfeb_delay, write_pfeb_common_delay, read_pfeb_delays}
use nswconfiguration.PadTrigger.DelayRoundTrip.{
  write_words_lem, write_pfeb_delay_runs, read_words_lem,
}
use nswconfiguration.PadTrigger.Columns.{push_back_column-ok}
use nswconfiguration.PadTrigger.Choice.{get_target_bcid-ok}
use nswconfiguration.PadTrigger.Deskew.{get_target_bcid, get_target_delays}
use nswconfiguration.PadTrigger.TargetDelays.{IsScan, get_target_delays-scan}
use nswconfiguration.PadTrigger.Scan.{
  scan_loop, read_median_pfeb_bcid_at_each_delay, deskew_pfebs, no_columns, show_bcids,
}
use nswconfiguration.PadTrigger.ScanRuns.{
  Rows, no_columns-Rows, bcids_runs, delays_runs, medians_runs,
}

module _ {Fpga : Type 0} ⦃link : FpgaLink Fpga⦄ (can4 : link.writable 4 ≡ true)
    (can5 : link.writable 5 ≡ true) (can6 : link.writable 6 ≡ true) (wide : ℕ → ℕ) where
  common_runs :
      (v : ℕ) (d : Fpga)
      → link.online d ≡ true
      → (d' : Fpga) × (write_pfeb_common_delay wide v d ≡ (d', ok tt)) × (link.online d' ≡ true)
  unfolding write_pfeb_common_delay
  common_runs v d up =
      let w = common_word wide v in
      let fits = common_word-lt wide v in
      let (d', run, up', held, kept) =
        write_words_lem d up can4 can5 can6 (w, w, w) (fits, fits, fits) in
      (d', run, up')

  scan_loop_runs :
      (nread left delay n : ℕ) (rows : List (List ℕ)) (d : Fpga)
      → link.online d ≡ true
      → Rows n rows
      → (d' : Fpga) × (boards : List (List ℕ)) × (scan_loop wide (suc nread) delay left rows d
          ≡ (d', ok boards))
        × Rows (n + left) boards
        × (link.online d' ≡ true)
  unfolding scan_loop
  scan_loop_runs nread zero delay n rows d up (boards, long) =
      (d, rows, refl, (boards, All-map rows (λ row h. omega (arith, h)) long), up)
  scan_loop_runs nread (suc left) delay n rows d up (boards, long) =
      let (d1, set, up1) = common_runs delay d up in
      let (d2, column, run, full, up2) = medians_runs nread d1 up1 in
      let (rows', pushed, boards', long') =
        push_back_column-ok n rows column (omega (arith, full, boards)) long in
      let (d3, scan, rest, (boards'', long''), up3) =
        scan_loop_runs nread left (delay + 1) (suc n) rows' d2 up2 (boards' ∙ boards, long') in
      (
        d3,
        scan,
        rw (set, run, pushed) rest,
        (boards'', All-map scan (λ row h. omega (arith, h)) long''),
        up3,
      )

  read_median_pfeb_bcid_at_each_delay-IsScan :
      (d : Fpga)
      → link.online d ≡ true
      → (d' : Fpga) × (boards : List (List ℕ)) × (read_median_pfeb_bcid_at_each_delay wide 10 d
          ≡ (d', ok boards))
        × IsScan boards
        × (link.online d' ≡ true)
  unfolding read_median_pfeb_bcid_at_each_delay
  read_median_pfeb_bcid_at_each_delay-IsScan d up =
      let (d', boards, run, (full, long), up') =
        scan_loop_runs 9 16 0 0 no_columns d up no_columns-Rows in
      (d', boards, run, (full, All-map boards (λ row h. omega (arith, h)) long), up')

  -- What is written at the end is read back after the last read of the BCIDs.
  written_runs :
      (values : List ℕ) (d : Fpga)
      → link.online d ≡ true
      → length values ≡ 24
      → All IsNibble values
      → (d' : Fpga) × ((write_pfeb_delay values >> show_bcids) d ≡ (d', ok tt))
        × ((read_pfeb_delays d').1 ≡ ok values)
  written_runs values d up full small =
      let (d1, w, run, up1, (held4, held5, held6), unpacked, kept) =
        write_pfeb_delay_runs d up can4 can5 can6 values full small in
      let (d2, bcids, read, long, up2, same) = bcids_runs d1 up1 in
      let still = λ (a : ℕ) (can : link.writable a ≡ true).
        ap (λ t. byte_vector_to_word32 t false) (same a can) in
      (
        d2,
        rw (run, read) refl,
        read_words_lem d2 up2 can4 can5 can6 w.0 w.1 w.2
              (still 4 can4 ∙ held4, still 5 can5 ∙ held5, still 6 can6 ∙ held6)
            ∙ ap ok unpacked,
      )

  -- While the link answers and the delay registers can be written, a deskew that only scans ends
  -- without an exception, and the delays are read as before it.
  pub deskew_pfebs-scan_only :
      (d : Fpga)
      → link.online d ≡ true
      → ((deskew_pfebs wide true true d).1 ≡ ok tt)
        × ((read_pfeb_delays (deskew_pfebs wide true true d).0).1 ≡ (read_pfeb_delays d).1)
  unfolding deskew_pfebs
  deskew_pfebs-scan_only d up =
      let (d1, delays, read, full, small, up1) = delays_runs d up in
      let (d2, boards, scan, is_scan, up2) = read_median_pfeb_bcid_at_each_delay-IsScan d1 up1 in
      let (t, target) = get_target_bcid-ok boards in
      let (d3, done, result) = written_runs delays d2 up2 full small in
      rw (read, scan, target, done) (refl, result)

  -- A deskew that applies its result ends without an exception too, and leaves the delays that
  -- getTargetDelays gives for the target that getTargetBcid finds in the scan, 16 delays at each of
  -- the 24 boards.
  pub deskew_pfebs-applies :
      (d : Fpga)
      → link.online d ≡ true
      → (boards : List (List ℕ)) × (t : ℕ) × ((read_median_pfeb_bcid_at_each_delay wide 10
            (read_pfeb_delays d).0).1
          ≡ ok boards)
        × IsScan boards
        × (get_target_bcid boards ≡ ok t)
        × ((deskew_pfebs wide true false d).1 ≡ ok tt)
        × ((read_pfeb_delays (deskew_pfebs wide true false d).0).1
            ≡ ok (get_target_delays t boards))
  unfolding deskew_pfebs
  deskew_pfebs-applies d up =
      let (d1, delays, read, full, small, up1) = delays_runs d up in
      let (d2, boards, scan, is_scan, up2) = read_median_pfeb_bcid_at_each_delay-IsScan d1 up1 in
      let (t, target) = get_target_bcid-ok boards in
      let (full', small') = get_target_delays-scan t boards is_scan in
      let (d3, done, result) = written_runs (get_target_delays t boards) d2 up2 full' small' in
      (
        boards,
        t,
        rw read (ap (λ r. r.1) scan),
        is_scan,
        target,
        rw (read, scan, target, done) refl,
        rw (read, scan, target, done) result,
      )
