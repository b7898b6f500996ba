-- ===== src/Runs/PadTriggerInstances.antt =====
-- The theorems on src/hw/PadTrigger.cpp over a register file.
use nswconfiguration.Common.{
  ◌⊎◌, ℕ, ◌<◌, ◌≤◌, List, ◌++◌, length, replicate, All, All-append, ◌≡◌, ◌≢◌, refl, splice, ap,
  arith, String, true, false, [], ◌∷◌,
}
use nswconfiguration.Common.Results.{ok}
use nswconfiguration.Common.Assoc.{lookup, insert}
use nswconfiguration.Text.Numbers.{stoul}
use nswconfiguration.I2c.Codec.{i2c_master_codec}
use nswconfiguration.I2c.Config.{find_register, register_place}
use nswconfiguration.I2c.Maps.{registers}
use nswconfiguration.PadTrigger.{write_sub_register, read_sub_register}
use nswconfiguration.PadTrigger.Names.{address_from_register_name}
use nswconfiguration.PadTrigger.RoundTrip.{write_sub_register-reads}
use nswconfiguration.PadTrigger.Nibbles.{common_octet}
use nswconfiguration.PadTrigger.NibbleWords.{IsNibble}
use nswconfiguration.PadTrigger.Delays.{write_pfeb_delay, write_pfeb_common_delay, read_pfeb_delays}
use nswconfiguration.PadTrigger.DelayRoundTrip.{
  Elsewhere, write_pfeb_delay-reads, write_pfeb_common_delay-reads,
}
use nswconfiguration.PadTrigger.Deskew.{
  check_pfeb_bcids, count, select, found, viable_of_board, get_viable_bcids, get_median_delay,
  get_target_bcid, start_position, target_loop, get_target_delay, get_target_delays, no_target,
}
use nswconfiguration.PadTrigger.Choice.{Fits, get_target_bcid-Fits}
use nswconfiguration.PadTrigger.TargetDelays.{IsScan, get_target_delays-no_target}
use nswconfiguration.PadTrigger.Windows.{Window}
use nswconfiguration.PadTrigger.Centres.{centre, get_target_delay-centre}
use nswconfiguration.PadTrigger.Scan.{read_median_pfeb_bcid_at_each_delay, deskew_pfebs}
use nswconfiguration.PadTrigger.DeskewRuns.{deskew_pfebs-scan_only, deskew_pfebs-applies}
use nswconfiguration.Runs.Fpgas.{register_file, padtrigger_fpga, blank}
use nswconfiguration.Utility.Overwrite.{overwrite_bits-splice}
use nswconfiguration.Utility.{overwrite_bits}
use nswconfiguration.Bits.{bits, value}

address_3 : address_from_register_name "003_control_reg2" ≡ ok 3
unfolding address_from_register_name stoul
address_3 = refl

pfeb_num : find_register padtrigger_fpga.codec "003_control_reg2" "pfeb_num" ≡ ok (23, 5)
unfolding find_register register_place lookup i2c_master_codec registers insert
pfeb_num = refl

write_sub_register-reads_example :
    ((write_sub_register ⦃link = register_file⦄ padtrigger_fpga "003_control_reg2" "pfeb_num" 17
        blank).1
      ≡ ok tt)
    × ((read_sub_register ⦃link = register_file⦄ padtrigger_fpga "003_control_reg2" "pfeb_num"
          (write_sub_register ⦃link = register_file⦄ padtrigger_fpga "003_control_reg2" "pfeb_num"
            17 blank).0).1
        ≡ ok 17)
    × ((other : String) (q n : ℕ)
        → find_register padtrigger_fpga.codec "003_control_reg2" other ≡ ok (q, n)
        → ◌≢◌ {A = String} "pfeb_num" other
        → (read_sub_register ⦃link = register_file⦄ padtrigger_fpga "003_control_reg2" other
            (write_sub_register ⦃link = register_file⦄ padtrigger_fpga "003_control_reg2" "pfeb_num"
              17 blank).0).1
          ≡ (read_sub_register ⦃link = register_file⦄ padtrigger_fpga "003_control_reg2" other
              blank).1)
    × ((b : ℕ)
        → register_file.writable b ≡ true
        → 3 ≢ b
        → register_file.content
            (write_sub_register ⦃link = register_file⦄ padtrigger_fpga "003_control_reg2" "pfeb_num"
              17 blank).0
            b
          ≡ register_file.content blank b)
unfolding register_file
write_sub_register-reads_example =
    write_sub_register-reads ⦃link = register_file⦄ padtrigger_fpga "003_control_reg2" 3 address_3
      refl refl blank refl "pfeb_num" 23 5 17 pfeb_num (omega arith) (omega arith)

overwrite_bits-splice_example :
    overwrite_bits 0xffffffff 5 4 4 ≡ ok (value (splice 24 4 (bits 4 5) (bits 32 0xffffffff)))
overwrite_bits-splice_example =
    overwrite_bits-splice 0xffffffff 24 4 (omega arith) (omega arith) (omega arith) (omega arith) 5
      (omega arith)

-- A pattern of eight delays, three times.
abbrev pattern : List ℕ
pattern = 0 ∷ 1 ∷ 2 ∷ 3 ∷ 12 ∷ 13 ∷ 14 ∷ 15 ∷ []

abbrev all_delays : List ℕ
all_delays = pattern ++ (pattern ++ pattern)

pattern-IsNibble : All IsNibble pattern
pattern-IsNibble = (
  omega arith,
  (
    omega arith,
    (omega arith, (omega arith, (omega arith, (omega arith, (omega arith, (omega arith, tt)))))),
  ),
)

write_pfeb_delay-reads_example :
    ((write_pfeb_delay ⦃link = register_file⦄ all_delays blank).1 ≡ ok tt)
    × ((read_pfeb_delays ⦃link = register_file⦄
          (write_pfeb_delay ⦃link = register_file⦄ all_delays blank).0).1
        ≡ ok all_delays)
    × ((b : ℕ)
        → Elsewhere register_file b
        → register_file.content (write_pfeb_delay ⦃link = register_file⦄ all_delays blank).0 b
          ≡ register_file.content blank b)
unfolding register_file
write_pfeb_delay-reads_example =
    write_pfeb_delay-reads ⦃link = register_file⦄ blank refl refl refl refl all_delays refl (
      All-append IsNibble pattern (pattern ++ pattern) pattern-IsNibble
        (All-append IsNibble pattern pattern pattern-IsNibble pattern-IsNibble))

-- A shift by 32 bits that gives 0: the first of each eight delays is 0.
write_pfeb_common_delay-reads_example :
    ((write_pfeb_common_delay ⦃link = register_file⦄ (λ v. 0) 5 blank).1 ≡ ok tt)
    × ((read_pfeb_delays ⦃link = register_file⦄
          (write_pfeb_common_delay ⦃link = register_file⦄ (λ v. 0) 5 blank).0).1
        ≡ ok (common_octet (λ v. 0) 5 ++ (common_octet (λ v. 0) 5 ++ common_octet (λ v. 0) 5)))
unfolding register_file
write_pfeb_common_delay-reads_example =
    write_pfeb_common_delay-reads ⦃link = register_file⦄ blank refl refl refl refl (λ v. 0) 5
      (omega arith) (omega arith)

deskew_pfebs-scan_only_example :
    ((deskew_pfebs ⦃link = register_file⦄ (λ v. v) true true blank).1 ≡ ok tt)
    × ((read_pfeb_delays ⦃link = register_file⦄
          (deskew_pfebs ⦃link = register_file⦄ (λ v. v) true true blank).0).1
        ≡ (read_pfeb_delays ⦃link = register_file⦄ blank).1)
unfolding register_file
deskew_pfebs-scan_only_example =
    deskew_pfebs-scan_only ⦃link = register_file⦄ refl refl refl (λ v. v) blank refl

deskew_pfebs-applies_example :
    (boards : List (List ℕ)) × (t : ℕ) × ((read_median_pfeb_bcid_at_each_delay
        ⦃link = register_file⦄
        (λ v. v)
        10
        (read_pfeb_delays ⦃link = register_file⦄ blank).0).1
      ≡ ok boards)
    × IsScan boards
    × (get_target_bcid boards ≡ ok t)
    × ((deskew_pfebs ⦃link = register_file⦄ (λ v. v) true false blank).1 ≡ ok tt)
    × ((read_pfeb_delays ⦃link = register_file⦄
          (deskew_pfebs ⦃link = register_file⦄ (λ v. v) true false blank).0).1
        ≡ ok (get_target_delays t boards))
unfolding register_file
deskew_pfebs-applies_example =
    deskew_pfebs-applies ⦃link = register_file⦄ refl refl refl (λ v. v) blank refl

-- A board that shows the BCID 3, then 2 and then 1.
abbrev board : List ℕ
board = 3 ∷ 3 ∷ 2 ∷ 2 ∷ 2 ∷ 2 ∷ 2 ∷ 2 ∷ 1 ∷ 1 ∷ 1 ∷ 1 ∷ 1 ∷ 1 ∷ 0 ∷ 0 ∷ []

viable_board : get_viable_bcids (board ∷ []) ≡ 1 ∷ 2 ∷ []
unfolding get_viable_bcids viable_of_board check_pfeb_bcids count select
viable_board = refl

get_target_bcid-Fits_example :
    (t m : ℕ) × (get_target_bcid (board ∷ []) ≡ ok t)
    × (t < 16)
    × All (Fits t) (board ∷ [])
    × (get_median_delay t (board ∷ []) ≡ ok m)
    × ((b k : ℕ)
        → found b (get_viable_bcids (board ∷ [])) ≡ true
        → get_median_delay b (board ∷ []) ≡ ok k
        → m ≤ k)
get_target_bcid-Fits_example =
    get_target_bcid-Fits (board ∷ []) (omega (arith, ap length viable_board))
      (omega (arith, ap length viable_board))

board-IsNibble : All IsNibble board
board-IsNibble = (
  omega arith,
  (
    omega arith,
    (
      omega arith,
      (
        omega arith,
        (
          omega arith,
          (
            omega arith,
            (
              omega arith,
              (
                omega arith,
                (
                  omega arith,
                  (
                    omega arith,
                    (
                      omega arith,
                      (omega arith, (omega arith, (omega arith, (omega arith, (omega arith, tt))))),
                    ),
                  ),
                ),
              ),
            ),
          ),
        ),
      ),
    ),
  ),
)

get_target_delay-centre_example :
    ((check_pfeb_bcids board ≡ false) × (get_target_delay 2 board ≡ 0))
    ⊎ ((check_pfeb_bcids board ≡ true)
        × ((pre : List ℕ) × (n : ℕ) × (post : List ℕ) × Window 2 board pre n post
            × (get_target_delay 2 board ≡ centre (length pre) n (length post))))
get_target_delay-centre_example = get_target_delay-centre 2 board board-IsNibble (omega arith)

-- The board shows the BCID 2 at six delays behind two others.
centre_of_board : get_target_delay 2 board ≡ 5
unfolding get_target_delay check_pfeb_bcids target_loop start_position count
centre_of_board = refl

get_target_delays-no_target_example :
    get_target_delays no_target (pattern ∷ pattern ∷ []) ≡ replicate 2 0
get_target_delays-no_target_example =
    get_target_delays-no_target (pattern ∷ pattern ∷ []) (pattern-IsNibble, (pattern-IsNibble, tt))
