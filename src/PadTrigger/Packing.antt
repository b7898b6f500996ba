-- ===== src/PadTrigger/Packing.antt =====
-- The input delays and BCIDs of the 24 front-end boards in src/hw/PadTrigger.cpp, with the constants
-- of NSWConfiguration/Constants.h: eight numbers of four bits in each of three words.
use nswconfiguration.Common.{
  ℕ, zero, suc, ◌+◌, ◌*◌, ◌/◌, ◌%◌, ◌^◌, List, [], ◌∷◌, ◌++◌, get_elem?, bit_and, ◌==◌,
  if◌then◌else◌,
}
use nswconfiguration.Common.Results.{Result, ok, ◌>>=◌, at}
use nswconfiguration.Utility.{shift_left}

abbrev pub num_bits_per_pfeb_delay : ℕ
num_bits_per_pfeb_delay = 4

abbrev pub pfeb_bcid_bitmask : ℕ
pfeb_bcid_bitmask = 15

-- word += (value << it * bits)
unfoldable pub add_nibble : ℕ → ℕ → ℕ → ℕ
unfolding shift_left
add_nibble word v it = (word + shift_left v (it * num_bits_per_pfeb_delay)) % 2 ^ 32

-- The words 23-16, 15-08 and 07-00
abbrev pub Words : Type 0
Words = ℕ × ℕ × ℕ

-- The loop of writePFEBDelay: values.at(...) throws past the end.
unfoldable pub delay_loop : ℕ → ℕ → List ℕ → Words → Result Words
unfolding add_nibble
delay_loop zero it values words = ok words
delay_loop (suc left) it values (w23, w15, w07) = do
  v2 ← at (get_elem? values (it + 16))
  v1 ← at (get_elem? values (it + 8))
  v0 ← at (get_elem? values it)
  delay_loop left (it + 1) values (add_nibble w23 v2 it, add_nibble w15 v1 it, add_nibble w07 v0 it)

-- The loop of PFEBValues on one word.
unfoldable pub nibbles : ℕ → ℕ → ℕ → List ℕ
nibbles zero bit_position v = []
nibbles (suc left) bit_position v =
    bit_and (v / 2 ^ bit_position) pfeb_bcid_bitmask ∷ nibbles left (bit_position + 4) v

-- PadTrigger::PFEBValues
unfoldable pub pfeb_values : ℕ → ℕ → ℕ → List ℕ
unfolding nibbles
pfeb_values val_07_00 val_15_08 val_23_16 =
    nibbles 8 0 val_07_00 ++ (nibbles 8 0 val_15_08 ++ nibbles 8 0 val_23_16)

-- The loop of writePFEBCommonDelay, `it` down to 1. Its first shift is by 32 bits, which C++ does
-- not define: `wide` is what the machine does there.
unfoldable pub common_loop : (ℕ → ℕ) → ℕ → ℕ → ℕ → ℕ
unfolding add_nibble
common_loop wide v zero word = word
common_loop wide v (suc it) word =
    common_loop wide v it
      (if suc it == 8 then (word + wide v) % 2 ^ 32 else add_nibble word v (suc it))

unfoldable pub common_word : (ℕ → ℕ) → ℕ → ℕ
unfolding common_loop
common_word wide v = common_loop wide v 8 0
