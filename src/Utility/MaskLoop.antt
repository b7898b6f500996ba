-- ===== src/Utility/MaskLoop.antt =====
-- The mask that overwriteBits of src/Utility.cpp makes in a loop, and its complement.
use nswconfiguration.Common.{
  ℕ, zero, suc, ◌+◌, ◌-◌, ◌*◌, ◌%◌, ◌^◌, ◌≤◌, ◌<◌, ◌≡◌, sym, ap, ◌∙◌, arith, ◌++◌, length,
  length-append, bit_and, bit_or, pow_two-suc, pow_two-pos, pow_two-add,
}
use nswconfiguration.Bits.{BitString, value}
use nswconfiguration.Bits.Masks.{
  bit_and_parts, bit_or_parts, bit_and_ones, bit_and_zero, bit_or_zero, zero-bit_or,
}
use nswconfiguration.Bits.Blocks.{value-append}
use nswconfiguration.Utility.{shift_left, mask_loop}
use mathlib.Core.Path.{ap₂}
use native.Mathlib.Nat.{mod-eq_of_lt, pow-le-pow_right, add-zero, mul_assoc, suc-mul}

pub pred_mul : (x y : ℕ) → 0 < x → x * y ≡ (x - 1) * y + y
pred_mul zero y h = absurd (omega arith)
pred_mul (suc x) y h = suc-mul x y ∙ ap (λ (t : ℕ). t * y + y) (omega arith)

pow_two-next : (p : ℕ) → 2 ^ (p + 1) ≡ 2 * 2 ^ p
pow_two-next p = omega (arith, pow_two-add p 1)

pub shift_one : (n : ℕ) → n < 32 → shift_left 1 n ≡ 2 ^ n
unfolding shift_left
shift_one n h =
    ap (λ (t : ℕ). t % 2 ^ 32) (omega arith)
    ∙ mod-eq_of_lt (
        omega (
          arith,
          pow-le-pow_right {n = 2} (omega arith) {i = suc n} {j = 32} (omega arith),
          pow_two-suc n,
        ))

-- The loop adds a block of ones at the position.
pub mask_loop_value :
    (n p m : ℕ) → p + n ≤ 32 → m < 2 ^ p → mask_loop n p m ≡ m + (2 ^ n - 1) * 2 ^ p
unfolding mask_loop
mask_loop_value zero p m h k = omega arith
mask_loop_value (suc n) p m h k =
    ap (mask_loop n (p + 1)) added
    ∙ mask_loop_value n (p + 1) (m + 2 ^ p) (omega arith) (omega (arith, pow_two-next p))
    ∙ omega (
      arith,
      ap (λ (t : ℕ). (2 ^ n - 1) * t) (pow_two-next p),
      ap (λ (t : ℕ). (t - 1) * 2 ^ p) (pow_two-suc n),
      pow_two-pos n,
      pred_mul (2 * 2 ^ n) (2 ^ p) (omega (arith, pow_two-pos n)),
      pred_mul (2 ^ n) (2 ^ p) (pow_two-pos n),
    )
  where
    added : (m + shift_left 1 p) % 2 ^ 32 ≡ m + 2 ^ p
    added =
        ap (λ (t : ℕ). (m + t) % 2 ^ 32) (shift_one p (omega arith))
        ∙ mod-eq_of_lt (
            omega (
              arith,
              pow-le-pow_right {n = 2} (omega arith) {i = suc p} {j = 32} (omega arith),
              pow_two-suc p,
            ))

pub complement :
    (J N K : ℕ)
    → 0 < J
    → 0 < N
    → 0 < K
    → J * (N * K) - 1 - (N - 1) * K ≡ ((J - 1) * N + 0) * K + (K - 1)
complement J N K a b c = omega (
  arith,
  pred_mul J (N * K) a,
  pred_mul N K b,
  ap (λ (t : ℕ). t * K) (add-zero ((J - 1) * N)),
  mul_assoc (J - 1) N K,
)

-- A word of three parts: `a` above the field, `b` in it and `c` below.
abbrev pub parts : ℕ → ℕ → ℕ → ℕ → ℕ → ℕ
parts n k a b c = (a * 2 ^ n + b) * 2 ^ k + c

module _ (j n k a b c : ℕ) (ha : a < 2 ^ j) (hb : b < 2 ^ n) (hc : c < 2 ^ k) where
  pub cleared : bit_and (parts n k a b c) (parts n k (2 ^ j - 1) 0 (2 ^ k - 1)) ≡ parts n k a 0 c
  cleared =
      bit_and_parts k (a * 2 ^ n + b) ((2 ^ j - 1) * 2 ^ n + 0) c (2 ^ k - 1) hc
        (omega (arith, pow_two-pos k))
      ∙ ap₂ (λ (x y : ℕ). x * 2 ^ k + y)
          (bit_and_parts n a (2 ^ j - 1) b 0 hb (pow_two-pos n)
            ∙ ap₂ (λ (x y : ℕ). x * 2 ^ n + y) (bit_and_ones j a ha) (bit_and_zero n b hb))
          (bit_and_ones k c hc)

  pub filled : bit_or (parts n k a 0 c) (parts n k 0 b 0) ≡ parts n k a b c
  filled =
      bit_or_parts k (a * 2 ^ n + 0) (0 * 2 ^ n + b) c 0 hc (pow_two-pos k)
      ∙ ap₂ (λ (x y : ℕ). x * 2 ^ k + y)
          (bit_or_parts n a 0 0 b (pow_two-pos n) hb
            ∙ ap₂ (λ (x y : ℕ). x * 2 ^ n + y) (bit_or_zero j a ha) (zero-bit_or b))
          (bit_or_zero k c hc)

pub value-parts :
    (a b c : BitString)
    → value (a ++ (b ++ c)) ≡ parts (length b) (length c) (value a) (value b) (value c)
value-parts a b c = omega (
  arith,
  value-append a (b ++ c),
  value-append b c,
  ap (λ (t : ℕ). value a * 2 ^ t) (length-append b c),
  ap (λ (t : ℕ). value a * t) (pow_two-add (length b) (length c)),
)

pub word_bound : (j n k : ℕ) → j + (n + k) ≡ 32 → 2 ^ j * (2 ^ n * 2 ^ k) ≡ 2 ^ 32
word_bound j n k h =
    ap (λ (t : ℕ). 2 ^ j * t) (sym (pow_two-add n k))
    ∙ sym (pow_two-add j (n + k))
    ∙ ap (λ (t : ℕ). 2 ^ t) h
