-- ===== src/Utility/Overwrite.antt =====
-- nsw::overwriteBits of src/Utility.cpp on the bit string of the word.
use nswconfiguration.Common.{
  ℕ, ◌+◌, ◌-◌, ◌*◌, ◌/◌, ◌^◌, ◌≤◌, ◌<◌, ◌≡◌, refl, sym, ap, ◌∙◌, arith, false, leb, ◌++◌, length,
  length-take, length-drop, length-slice, take-append-drop, drop-drop, take, drop, slice, splice,
  bit_and, bit_or, pow_two-pos, pow_two-add,
}
use nswconfiguration.Common.Results.{ok, throw_if, ◌>>◌, runtime_error}
use nswconfiguration.Bits.{BitString, value, value-lt, bits, length-bits, value-bits_fits}
use nswconfiguration.Bits.Masks.{bit_and_parts, bit_and_ones, bit_and_zero}
use nswconfiguration.Utility.{shift_left, mask_loop, overwrite_bits}
use mathlib.Core.Path.{ap₂}
use native.Mathlib.Nat.{mod-eq_of_lt, mul-div_cancel, mul-lt-mul_of_pos_right}
use nswconfiguration.Utility.MaskLoop.{
  pred_mul, shift_one, mask_loop_value, complement, parts, cleared, filled, value-parts, word_bound,
}

not_leb : (x y : ℕ) → y < x → leb x y ≡ false
not_leb x y h = ground arith

-- overwriteBits on the parts of a word.
module _ (j n k a b c v : ℕ) (word : j + (n + k) ≡ 32) (ha : a < 2 ^ j) (hb : b < 2 ^ n)
    (hc : c < 2 ^ k) (hv : v < 2 ^ n) where
  below_word : v * 2 ^ k < 2 ^ 32
  below_word = omega (
    arith,
    mul-lt-mul_of_pos_right hv (pow_two-pos k),
    pred_mul (2 ^ j) (2 ^ n * 2 ^ k) (pow_two-pos j),
    word_bound j n k word,
  )

  ones : mask_loop n k 0 ≡ (2 ^ n - 1) * 2 ^ k
  ones = mask_loop_value n k 0 (omega arith) (pow_two-pos k) ∙ omega arith

  kept : 2 ^ 32 - 1 - mask_loop n k 0 ≡ parts n k (2 ^ j - 1) 0 (2 ^ k - 1)
  kept =
      ap₂ (λ (x y : ℕ). x - 1 - y) (sym (word_bound j n k word)) ones
      ∙ complement (2 ^ j) (2 ^ n) (2 ^ k) (pow_two-pos j) (pow_two-pos n) (pow_two-pos k)

  placed : shift_left v k ≡ parts n k 0 v 0
  unfolding shift_left
  placed = mod-eq_of_lt below_word ∙ omega arith

  updated :
      bit_or (bit_and (parts n k a b c) (2 ^ 32 - 1 - mask_loop n k 0)) (shift_left v k)
      ≡ parts n k a v c
  updated =
      ap₂ (λ (x y : ℕ). bit_or (bit_and (parts n k a b c) x) y) kept placed
      ∙ ap (λ (x : ℕ). bit_or x (parts n k 0 v 0)) (cleared j n k a b c ha hb hc)
      ∙ filled j n k a v c ha hv hc

  overwrite_bits-parts :
      n < 32 → k < 32 → overwrite_bits (parts n k a b c) v k n ≡ ok (parts n k a v c)
  unfolding overwrite_bits
  overwrite_bits-parts small low =
      ap
        (λ (t : ℕ).
          throw_if (leb t v) runtime_error
          >> (throw_if (leb 32 k) runtime_error
              >> (throw_if (leb 32 n) runtime_error
                  >> ok (
                      bit_or (bit_and (parts n k a b c) (2 ^ 32 - 1 - mask_loop n k 0))
                        (shift_left v k)))))
        (shift_one n small)
      ∙ (rw (updated, not_leb (2 ^ n) v hv, not_leb 32 k low, not_leb 32 n small) refl)

module _ (a b c : BitString) (v : ℕ) (word : length a + (length b + length c) ≡ 32)
    (small : length b < 32) (low : length c < 32) (fits : v < 2 ^ length b) where
  -- In a word whose 32 bits are the strings a, b and c, overwriteBits at the position and the size
  -- of b writes the value's bits for b, and leaves a and c.
  pub overwrite_bits-blocks :
      overwrite_bits (value (a ++ (b ++ c))) v (length c) (length b)
      ≡ ok (value (a ++ (bits (length b) v ++ c)))
  overwrite_bits-blocks =
      ap (λ (t : ℕ). overwrite_bits t v (length c) (length b)) (value-parts a b c)
      ∙ overwrite_bits-parts (length a) (length b) (length c) (value a) (value b) (value c) v word
          (value-lt a) (value-lt b) (value-lt c) fits small low
      ∙ ap ok (
          sym (
            value-parts a (bits (length b) v) c
            ∙ ap₂ (λ (n x : ℕ). parts n (length c) (value a) x (value c)) (length-bits (length b) v)
                (value-bits_fits (length b) v fits)))

three_parts : (p n : ℕ) (s : BitString) → s ≡ take p s ++ (slice p n s ++ drop (p + n) s)
three_parts p n s =
    sym (take-append-drop p s)
    ∙ ap (◌++◌ (take p s))
        (sym (take-append-drop n (drop p s)) ∙ ap (◌++◌ (slice p n s)) (drop-drop n p s))

omega_zero : (m : ℕ) → 0 * m + (m - 1) ≡ m - 1
omega_zero m = omega arith

omega_low : (m b : ℕ) → 0 * m + b ≡ b
omega_low m b = omega arith

omega_plain : (m : ℕ) → m + 0 ≡ m
omega_plain m = omega arith

-- A mask of the field's bits and a shift give the field.
module _ (j n k a b c : ℕ) (ha : a < 2 ^ j) (hb : b < 2 ^ n) (hc : c < 2 ^ k) where
  field_mask : 2 ^ (k + n) - 2 ^ k ≡ parts n k 0 (2 ^ n - 1) 0
  field_mask = omega (
    arith,
    pow_two-add k n,
    pred_mul (2 ^ n) (2 ^ k) (pow_two-pos n),
    ap (λ (t : ℕ). t * 2 ^ k) (omega_zero (2 ^ n)),
  )

  field_kept : bit_and (parts n k a b c) (parts n k 0 (2 ^ n - 1) 0) ≡ b * 2 ^ k + 0
  field_kept =
      bit_and_parts k (a * 2 ^ n + b) (0 * 2 ^ n + (2 ^ n - 1)) c 0 hc (pow_two-pos k)
      ∙ ap₂ (λ (x y : ℕ). x * 2 ^ k + y)
          (bit_and_parts n a 0 b (2 ^ n - 1) hb (omega (arith, pow_two-pos n))
            ∙ ap₂ (λ (x y : ℕ). x * 2 ^ n + y) (bit_and_zero j a ha) (bit_and_ones n b hb)
            ∙ omega_low (2 ^ n) b)
          (bit_and_zero k c hc)

  field_value : bit_and (parts n k a b c) (2 ^ (k + n) - 2 ^ k) / 2 ^ k ≡ b
  field_value =
      ap (λ (t : ℕ). bit_and (parts n k a b c) t / 2 ^ k) field_mask
      ∙ ap (λ (t : ℕ). t / 2 ^ k) (field_kept ∙ omega_plain (b * 2 ^ k))
      ∙ mul-div_cancel b (pow_two-pos k)

-- A word with a window of `siz` bits at the position `pos`.
module _ (w pos siz : ℕ) (word : w < 2 ^ 32) (here : pos + siz ≤ 32) where
  abbrev above : BitString
  above = take pos (bits 32 w)

  abbrev window : BitString
  window = slice pos siz (bits 32 w)

  abbrev below : BitString
  below = drop (pos + siz) (bits 32 w)

  length-window : length window ≡ siz
  length-window = length-slice pos siz (bits 32 w) (omega (arith, length-bits 32 w))

  length-below : length below ≡ 32 - pos - siz
  length-below = omega (arith, length-drop (pos + siz) (bits 32 w), length-bits 32 w)

  length-parts : length above + (length window + length below) ≡ 32
  length-parts =
      omega (arith, length-take pos (bits 32 w), length-bits 32 w, length-window, length-below)

  word_parts : w ≡ value (above ++ (window ++ below))
  word_parts = sym (value-bits_fits 32 w word) ∙ ap value (three_parts pos siz (bits 32 w))

  module _ (some_bit : 0 < siz) (small : siz < 32) (v : ℕ) (fits : v < 2 ^ siz) where
    -- The position counts from the front of the written word, as a register map does.
    pub overwrite_bits-splice :
        overwrite_bits w v (32 - pos - siz) siz
        ≡ ok (value (splice pos siz (bits siz v) (bits 32 w)))
    overwrite_bits-splice =
        ap₂ (λ (x y : ℕ). overwrite_bits x v y siz) word_parts (sym length-below)
        ∙ ap (overwrite_bits (value (above ++ (window ++ below))) v (length below))
            (sym length-window)
        ∙ overwrite_bits-blocks above window below v length-parts (omega (arith, length-window))
            (omega (arith, length-below)) (omega (arith, fits, ap (λ (t : ℕ). 2 ^ t) length-window))
        ∙ ap (λ (t : ℕ). ok (value (above ++ (bits t v ++ below)))) length-window

  pub value-window :
      bit_and w (2 ^ (32 - pos - siz + siz) - 2 ^ (32 - pos - siz)) / 2 ^ (32 - pos - siz)
      ≡ value window
  value-window =
      ap₂ (λ (x y : ℕ). bit_and x (2 ^ (y + siz) - 2 ^ y) / 2 ^ y)
        (word_parts ∙ value-parts above window below) (sym length-below)
      ∙ ap
          (λ (n : ℕ).
            bit_and
              (parts (length window) (length below) (value above) (value window) (value below))
              (2 ^ (length below + n) - 2 ^ length below)
            / 2 ^ length below)
          (sym length-window)
      ∙ field_value (length above) (length window) (length below) (value above) (value window)
          (value below) (value-lt above) (value-lt window) (value-lt below)
