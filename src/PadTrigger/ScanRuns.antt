-- ===== src/PadTrigger/ScanRuns.antt =====
-- The scan of deskewPFEBs of src/hw/PadTrigger.cpp runs to its end.
use nswconfiguration.Common.{
  ℕ, zero, suc, ◌+◌, ◌^◌, ◌<◌, ◌≡◌, refl, ap, ◌∙◌, arith, true, false, List, [], ◌∷◌, length, All,
  All-map, replicate,
}
use nswconfiguration.Common.Results.{ok}
use nswconfiguration.Common.Actions.{pass-ok, lift}
use nswconfiguration.Utility.{byte_vector_to_word32}
use nswconfiguration.PadTrigger.{read_fpga_register}
use nswconfiguration.PadTrigger.Link.{FpgaLink}
use nswconfiguration.PadTrigger.Registers.{four_bytes}
use nswconfiguration.PadTrigger.Packing.{pfeb_values}
use nswconfiguration.PadTrigger.Nibbles.{pfeb_values_lem}
use nswconfiguration.PadTrigger.NibbleWords.{IsNibble}
use nswconfiguration.PadTrigger.Delays.{read_pfeb_delays, read_pfeb_bcids}
use nswconfiguration.PadTrigger.Columns.{push_back_column-ok, medians-ok}
use nswconfiguration.PadTrigger.Scan.{read_loop, read_median_pfeb_bcids, no_columns}

-- The rows of a matrix of the boards, each of a length.
abbrev pub Rows : ℕ → List (List ℕ) → Type 0
Rows n rows = (length rows ≡ 24) × All (λ row. length row ≡ n) rows

empty_rows : (n : ℕ) → All (λ row. length row ≡ 0) (replicate {A = List ℕ} n [])
empty_rows zero = tt
empty_rows (suc n) = (refl, empty_rows n)

pub no_columns-Rows : Rows 0 no_columns
no_columns-Rows = (refl, empty_rows 24)

module _ {Fpga : Type 0} ⦃link : FpgaLink Fpga⦄ where
  -- The registers that can be written are the same.
  abbrev Same : Fpga → Fpga → Type 0
  Same d' d = (b : ℕ) → link.writable b ≡ true → link.content d' b ≡ link.content d b

  -- A read of any register gives some word.
  read_any :
      (d : Fpga) (a : ℕ)
      → link.online d ≡ true
      → (d' : Fpga) × (w : ℕ) × (read_fpga_register a d ≡ (d', ok w))
        × (w < 2 ^ 32)
        × (link.online d' ≡ true)
        × Same d' d
  unfolding read_fpga_register
  read_any d a up =
      let (bytes, run, four, small) = link.read-bytes d a up in
      let (w, word, fits) = four_bytes bytes four small in
      (
        (link.read_i2c_at_address (a ∷ []) 4 d).0,
        w,
        pass-ok (link.read_i2c_at_address (a ∷ []) 4 d) bytes
              (λ t. lift (byte_vector_to_word32 t false)) run
            ∙ ap (λ r. ((link.read_i2c_at_address (a ∷ []) 4 d).0, r)) word,
        fits,
        link.read-online d (a ∷ []) 4 up,
        λ b can. link.read-content d (a ∷ []) 4 b can,
      )

  pub bcids_runs :
      (d : Fpga)
      → link.online d ≡ true
      → (d' : Fpga) × (bcids : List ℕ) × (read_pfeb_bcids d ≡ (d', ok bcids))
        × (length bcids ≡ 24)
        × (link.online d' ≡ true)
        × Same d' d
  unfolding read_pfeb_bcids
  bcids_runs d up =
      let (d1, w1, run1, fits1, up1, same1) = read_any d 7 up in
      let (d2, w2, run2, fits2, up2, same2) = read_any d1 8 up1 in
      let (d3, w3, run3, fits3, up3, same3) = read_any d2 9 up2 in
      (
        d3,
        pfeb_values w3 w2 w1,
        rw (run1, run2, run3) refl,
        (pfeb_values_lem w3 w2 w1 fits3 fits2 fits1).0,
        up3,
        λ b can. same3 b can ∙ same2 b can ∙ same1 b can,
      )

  pub delays_runs :
      (d : Fpga)
      → link.online d ≡ true
      → (d' : Fpga) × (delays : List ℕ) × (read_pfeb_delays d ≡ (d', ok delays))
        × (length delays ≡ 24)
        × All IsNibble delays
        × (link.online d' ≡ true)
  unfolding read_pfeb_delays
  delays_runs d up =
      let (d1, w1, run1, fits1, up1, same1) = read_any d 4 up in
      let (d2, w2, run2, fits2, up2, same2) = read_any d1 5 up1 in
      let (d3, w3, run3, fits3, up3, same3) = read_any d2 6 up2 in
      let (long, small) = pfeb_values_lem w3 w2 w1 fits3 fits2 fits1 in
      (d3, pfeb_values w3 w2 w1, rw (run1, run2, run3) refl, long, small, up3)

  read_loop_runs :
      (left n : ℕ) (rows : List (List ℕ)) (d : Fpga)
      → link.online d ≡ true
      → Rows n rows
      → (d' : Fpga) × (grown : List (List ℕ)) × (read_loop left rows d ≡ (d', ok grown))
        × Rows (n + left) grown
        × (link.online d' ≡ true)
  unfolding read_loop
  read_loop_runs zero n rows d up (boards, long) =
      (d, rows, refl, (boards, All-map rows (λ row h. omega (arith, h)) long), up)
  read_loop_runs (suc left) n rows d up (boards, long) =
      let (d1, column, run, full, up1, same) = bcids_runs d up in
      let (rows', pushed, boards', long') =
        push_back_column-ok n rows column (omega (arith, full, boards)) long in
      let (d2, grown, rest, (boards'', long''), up2) =
        read_loop_runs left (suc n) rows' d1 up1 (boards' ∙ boards, long') in
      (
        d2,
        grown,
        rw (run, pushed) rest,
        (boards'', All-map grown (λ row h. omega (arith, h)) long''),
        up2,
      )

  pub medians_runs :
      (nread : ℕ) (d : Fpga)
      → link.online d ≡ true
      → (d' : Fpga) × (column : List ℕ) × (read_median_pfeb_bcids (suc nread) d ≡ (d', ok column))
        × (length column ≡ 24)
        × (link.online d' ≡ true)
  unfolding read_median_pfeb_bcids
  medians_runs nread d up =
      let (d1, rows, run, (boards, long), up1) =
        read_loop_runs (suc nread) 0 no_columns d up no_columns-Rows in
      let (column, chosen, same) =
        medians-ok nread rows (All-map rows (λ row h. omega (arith, h)) long) in
      (d1, column, rw (run, chosen) refl, same ∙ boards, up1)
