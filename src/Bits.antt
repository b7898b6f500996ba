-- ===== src/Bits.antt =====
-- Strings of the characters '0' and '1', most significant first, as lists of Booleans: what
-- std::bitset<n>(v).to_string() writes and std::stoul(s, nullptr, 2) reads.
pub mod Masks
pub mod Blocks
use nswconfiguration.Common.{
  ℕ, zero, suc, ◌+◌, ◌*◌, ◌/◌, ◌%◌, ◌^◌, ◌<◌, ◌≡◌, refl, sym, ap, ◌∙◌, arith, Bool, true, false,
  List, [], ◌∷◌, length, drop, pow_two-suc, pow_two-pos, mod-two_mul,
}
use mathlib.Core.Path.{ap₂}
use native.Mathlib.Nat.{suc-add, add-mul-div_left, mod-eq_of_lt, div-eq_of_lt}
use nswconfiguration.Common.{◌==◌}

abbrev pub BitString : Type 0
BitString = List Bool

abbrev pub digit : Bool → ℕ
digit true = 1
digit false = 0

-- std::stoul(s, nullptr, 2)
unfoldable pub value : BitString → ℕ
value [] = 0
value (b ∷ s) = digit b * 2 ^ length s + value s

-- Bit n of v.
unfoldable pub test_bit : ℕ → ℕ → Bool
test_bit v n = v / 2 ^ n % 2 == 1

-- std::bitset<n>(v).to_string(): the lowest n bits of v.
unfoldable pub bits : ℕ → ℕ → BitString
bits zero v = []
bits (suc n) v = test_bit v n ∷ bits n v

pub length-bits : (n v : ℕ) → length (bits n v) ≡ n
unfolding bits
length-bits zero v = refl
length-bits (suc n) v = ap suc (length-bits n v)

digit-test_bit : (v n : ℕ) → digit (test_bit v n) ≡ v / 2 ^ n % 2
unfolding test_bit
digit-test_bit v n = odd (v / 2 ^ n)
  where
    odd : (a : ℕ) → digit (a % 2 == 1) ≡ a % 2
    odd a = ground arith

pub value-bits : (n v : ℕ) → value (bits n v) ≡ v % 2 ^ n
unfolding bits value
value-bits zero v = omega arith
value-bits (suc n) v =
    rw (length-bits, digit-test_bit, value-bits n v, pow_two-suc)
      (sym (mod-two_mul v (2 ^ n) (pow_two-pos n)))

-- A value of at most n bits is read back.
pub value-bits_fits : (n v : ℕ) → v < 2 ^ n → value (bits n v) ≡ v
value-bits_fits n v h = value-bits n v ∙ mod-eq_of_lt h

pub value-lt : (s : BitString) → value s < 2 ^ length s
unfolding value
value-lt [] = omega arith
value-lt (true ∷ s) = omega (arith, value-lt s, pow_two-suc (length s))
value-lt (false ∷ s) = omega (arith, value-lt s, pow_two-suc (length s), pow_two-pos (length s))

test_bit-add_mul : (n v k : ℕ) → test_bit (v + 2 ^ suc n * k) n ≡ test_bit v n
unfolding test_bit
test_bit-add_mul n v k =
    ap (λ (t : ℕ). t % 2 == 1) (shifted ∙ add-mul-div_left v (2 * k) (pow_two-pos n))
    ∙ even (v / 2 ^ n)
  where
    shifted : (v + 2 ^ suc n * k) / 2 ^ n ≡ (v + 2 ^ n * (2 * k)) / 2 ^ n
    shifted = ap (λ (t : ℕ). (v + t) / 2 ^ n) (omega (arith, ap (λ (t : ℕ). t * k) (pow_two-suc n)))

    even : (a : ℕ) → ((a + 2 * k) % 2 == 1) ≡ (a % 2 == 1)
    even a = ground arith

bits-add_mul : (n v k : ℕ) → bits n (v + 2 ^ n * k) ≡ bits n v
unfolding bits
bits-add_mul zero v k = refl
bits-add_mul (suc n) v k = ap₂ ◌∷◌ (test_bit-add_mul n v k) (
    ap (λ (t : ℕ). bits n (v + t)) (omega (arith, ap (λ (t : ℕ). t * k) (pow_two-suc n)))
    ∙ bits-add_mul n v (2 * k))

top_bit : (b : Bool) (w n : ℕ) → w < 2 ^ n → test_bit (digit b * 2 ^ n + w) n ≡ b
unfolding test_bit
top_bit b w n h =
    ap (λ (t : ℕ). t % 2 == 1)
      (ap (λ (t : ℕ). t / 2 ^ n) (omega arith)
        ∙ add-mul-div_left w (digit b) (pow_two-pos n)
        ∙ ap (λ (t : ℕ). t + digit b) (div-eq_of_lt h))
    ∙ one_digit b
  where
    one_digit : (c : Bool) → ((0 + digit c) % 2 == 1) ≡ c
    one_digit true = refl
    one_digit false = refl

-- A bit string is what the bitset of its value writes.
pub bits-value : (s : BitString) → bits (length s) (value s) ≡ s
unfolding bits value
bits-value [] = refl
bits-value (b ∷ s) = ap₂ ◌∷◌ (top_bit b (value s) (length s) (value-lt s)) (
    ap (bits (length s)) (omega arith) ∙ bits-add_mul (length s) (value s) (digit b) ∙ bits-value s)

-- The last k characters are the lowest k bits.
pub drop-bits : (k d v : ℕ) → drop d (bits (d + k) v) ≡ bits k v
unfolding bits
drop-bits k zero v = ap (λ (n : ℕ). bits n v) (omega arith)
drop-bits k (suc d) v = rw suc-add (drop-bits k d v)
