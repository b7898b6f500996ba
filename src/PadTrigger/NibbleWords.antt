-- ===== src/PadTrigger/NibbleWords.antt =====
-- Words of four-bit values, as writePFEBDelay and PFEBValues of src/hw/PadTrigger.cpp make and read
-- them.
use nswconfiguration.Common.{
  ℕ, zero, suc, ◌+◌, ◌*◌, ◌/◌, ◌%◌, ◌^◌, ◌<◌, ◌≤◌, ◌≡◌, refl, sym, ap, ◌∙◌, arith, List, [], ◌∷◌,
  length, slice, get_elem?, some, All, bit_and, pow_two-pos, pow_two-add,
}
use nswconfiguration.Bits.Masks.{bit_and_parts, bit_and_ones, bit_and_zero}
use nswconfiguration.PadTrigger.Packing.{add_nibble, nibbles}
use mathlib.Core.Path.{ap₂}
use native.Mathlib.Nat.{
  mod-eq_of_lt, pow-le-pow_right, mul-le-mul_right, mul-le-mul_left, add-mul-div_left, div-eq_of_lt,
}

abbrev pub IsNibble : ℕ → Type 0
IsNibble v = v < 16

-- The number that a list of numbers of four bits packs to.
unfoldable pub packed : List ℕ → ℕ
packed [] = 0
packed (x ∷ xs) = x + 16 * packed xs

-- The loop on one word.
unfoldable pub fold : ℕ → ℕ → List ℕ → ℕ
unfolding add_nibble
fold word it [] = word
fold word it (x ∷ xs) = fold (add_nibble word x it) (it + 1) xs

pub packed-lt : (xs : List ℕ) → All IsNibble xs → packed xs < 2 ^ (length xs * 4)
unfolding packed
packed-lt [] h = omega arith
packed-lt (x ∷ xs) (hx, h) =
    omega (
      arith,
      packed-lt xs h,
      ap (λ (t : ℕ). 2 ^ t) (next (length xs)),
      pow_two-add 4 (length xs * 4),
    )
  where
    next : (n : ℕ) → suc n * 4 ≡ 4 + n * 4
    next n = omega arith

omega_split : (v : ℕ) → v ≡ v / 16 * 2 ^ 4 + v % 16
omega_split v = omega arith

pub mask_nibble : (v : ℕ) → v < 2 ^ 32 → bit_and v 15 ≡ v % 16
mask_nibble v h =
    ap₂ bit_and (omega_split v) (omega arith)
    ∙ bit_and_parts 4 (v / 16) 0 (v % 16) 15 (omega arith) (omega arith)
    ∙ ap₂ (λ (x y : ℕ). x * 2 ^ 4 + y) (bit_and_zero 32 (v / 16) (omega arith))
        (bit_and_ones 4 (v % 16) (omega arith))
    ∙ omega arith

next_position : (it : ℕ) → 2 ^ ((it + 1) * 4) ≡ 16 * 2 ^ (it * 4)
next_position it = ap (λ (t : ℕ). 2 ^ t) (omega_next it) ∙ pow_two-add 4 (it * 4)
  where
    omega_next : (n : ℕ) → (n + 1) * 4 ≡ 4 + n * 4
    omega_next n = omega arith

module _ (word x it : ℕ) (low : word < 2 ^ (it * 4)) (small : IsNibble x) (here : it < 8) where
  times : x * 2 ^ (it * 4) ≤ 15 * 2 ^ (it * 4)
  times = mul-le-mul_right (2 ^ (it * 4)) (omega arith)

  room : 16 * 2 ^ (it * 4) ≤ 2 ^ 32
  room = omega (
    arith,
    next_position it,
    pow-le-pow_right {n = 2} (omega arith) {i = (it + 1) * 4} {j = 32} (omega arith),
  )

  add_nibble_value : add_nibble word x it ≡ word + x * 2 ^ (it * 4)
  unfolding add_nibble
  add_nibble_value =
      ap (λ (t : ℕ). (word + t) % 2 ^ 32)
        (mod-eq_of_lt (omega (arith, times, room, pow_two-pos (it * 4))))
      ∙ mod-eq_of_lt (omega (arith, times, room))

  add_nibble-lt : word + x * 2 ^ (it * 4) < 2 ^ ((it + 1) * 4)
  add_nibble-lt = omega (arith, times, next_position it)

pub fold_value :
    (xs : List ℕ) (word it : ℕ)
    → word < 2 ^ (it * 4)
    → All IsNibble xs
    → it + length xs ≤ 8
    → fold word it xs ≡ word + 2 ^ (it * 4) * packed xs
unfolding fold packed
fold_value [] word it low h k = omega arith
fold_value (x ∷ xs) word it low (hx, h) k =
    ap (λ (t : ℕ). fold t (it + 1) xs) (add_nibble_value word x it low hx (omega arith))
    ∙ fold_value xs (word + x * 2 ^ (it * 4)) (it + 1)
        (add_nibble-lt word x it low hx (omega arith)) h (omega arith)
    ∙ omega (arith, ap (λ (t : ℕ). t * packed xs) (next_position it))

module _ (c pos x q : ℕ) (low : c < 2 ^ pos) (small : IsNibble x) (fits : x + 16 * q < 2 ^ 32) where
  nibble_read : bit_and ((c + 2 ^ pos * (x + 16 * q)) / 2 ^ pos) 15 ≡ x
  nibble_read =
      ap (λ (t : ℕ). bit_and t 15)
        (add-mul-div_left c (x + 16 * q) (pow_two-pos pos)
          ∙ ap (λ (t : ℕ). t + (x + 16 * q)) (div-eq_of_lt low))
      ∙ mask_nibble (0 + (x + 16 * q)) (omega (arith, fits))
      ∙ omega arith

  nibble_rest : c + 2 ^ pos * (x + 16 * q) ≡ c + 2 ^ pos * x + 2 ^ (pos + 4) * q
  nibble_rest = omega (arith, ap (λ (t : ℕ). t * q) (pow_two-add pos 4))

  nibble_low : c + 2 ^ pos * x < 2 ^ (pos + 4)
  nibble_low = omega (arith, pow_two-add pos 4, mul-le-mul_left (2 ^ pos) (below_16 x small))
    where
      below_16 : (n : ℕ) → n < 16 → n ≤ 15
      below_16 n h = omega arith

pub nibbles_value :
    (xs : List ℕ) (c pos : ℕ)
    → c < 2 ^ pos
    → All IsNibble xs
    → length xs ≤ 8
    → nibbles (length xs) pos (c + 2 ^ pos * packed xs) ≡ xs
unfolding nibbles packed
nibbles_value [] c pos low h k = refl
nibbles_value (x ∷ xs) c pos low (hx, h) k = ap₂ ◌∷◌ (nibble_read c pos x (packed xs) low hx fits) (
    ap (nibbles (length xs) (pos + 4)) (nibble_rest c pos x (packed xs) low hx fits)
    ∙ nibbles_value xs (c + 2 ^ pos * x) (pos + 4) (nibble_low c pos x (packed xs) low hx fits) h
        (omega arith))
  where
    fits : x + 16 * packed xs < 2 ^ 32
    fits = omega (
      arith,
      packed-lt xs h,
      pow-le-pow_right {n = 2} (omega arith) {i = length xs * 4} {j = 28} (omega arith),
    )

-- An element of a list starts the window at its index.
pub window_head :
    (i : ℕ) (values : List ℕ)
    → i < length values
    → (x : ℕ) × (get_elem? values i ≡ some x)
      × ((j n : ℕ) → j ≡ suc i → slice i (suc n) values ≡ x ∷ slice j n values)
window_head i [] h = absurd (omega arith)
window_head zero (x ∷ values) h =
    (x, refl, λ j n e. ap (λ (t : ℕ). x ∷ slice t n (x ∷ values)) (sym e))
window_head (suc i) (x ∷ values) h =
    let (y, found, window) = window_head i values (omega arith) in
    (y, found, λ j n e. window (suc i) n refl ∙ ap (λ (t : ℕ). y ∷ slice t n (x ∷ values)) (sym e))
