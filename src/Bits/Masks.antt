-- ===== src/Bits/Masks.antt =====
-- The bitwise operations on numbers made of a high and a low part: `x & mask` and `x | y` of C++.
use Prim.Native.Nat.{min, max, digits, bit_and-bitwise, bit_or-bitwise}
use nswconfiguration.Common.{
  ℕ, zero, suc, ◌+◌, ◌-◌, ◌*◌, ◌/◌, ◌%◌, ◌^◌, ◌≤◌, ◌<◌, ◌≡◌, refl, ap, arith, bit_and, bit_or,
  pow_two-suc, pow_two-pos,
}
use mathlib.Core.Path.{ap₂}

-- One binary digit of the two operations.
and_fuel :
    (n m a b : ℕ) → a ≤ n → a ≤ m → digits (λ d. zero) min n a b ≡ digits (λ d. zero) min m a b
and_fuel zero zero a b p q = refl
and_fuel zero (suc m) zero b p q = refl
and_fuel zero (suc m) (suc a) b p q = absurd (omega arith)
and_fuel (suc n) zero zero b p q = refl
and_fuel (suc n) zero (suc a) b p q = absurd (omega arith)
and_fuel (suc n) (suc m) zero b p q = refl
and_fuel (suc n) (suc m) (suc a) b p q =
    omega (arith, and_fuel n m (suc a / 2) (b / 2) (omega arith) (omega arith))

or_fuel : (n m a b : ℕ) → a ≤ n → a ≤ m → digits (λ d. d) max n a b ≡ digits (λ d. d) max m a b
or_fuel zero zero a b p q = refl
or_fuel zero (suc m) zero b p q = refl
or_fuel zero (suc m) (suc a) b p q = absurd (omega arith)
or_fuel (suc n) zero zero b p q = refl
or_fuel (suc n) zero (suc a) b p q = absurd (omega arith)
or_fuel (suc n) (suc m) zero b p q = refl
or_fuel (suc n) (suc m) (suc a) b p q =
    omega (arith, or_fuel n m (suc a / 2) (b / 2) (omega arith) (omega arith))

zero-bit_and : (b : ℕ) → bit_and 0 b ≡ 0
zero-bit_and b = bit_and-bitwise 0 b

pub zero-bit_or : (b : ℕ) → bit_or 0 b ≡ b
zero-bit_or b = bit_or-bitwise 0 b

and_step : (a b : ℕ) → bit_and a b ≡ 2 * bit_and (a / 2) (b / 2) + min (a % 2) (b % 2)
and_step zero b = omega (arith, zero-bit_and b, zero-bit_and (b / 2))
and_step (suc a) b = omega (
  arith,
  bit_and-bitwise (suc a) b,
  bit_and-bitwise (suc a / 2) (b / 2),
  and_fuel a (suc a / 2) (suc a / 2) (b / 2) (omega arith) (omega arith),
)

or_step : (a b : ℕ) → bit_or a b ≡ 2 * bit_or (a / 2) (b / 2) + max (a % 2) (b % 2)
or_step zero b = omega (arith, zero-bit_or b, zero-bit_or (b / 2))
or_step (suc a) b = omega (
  arith,
  bit_or-bitwise (suc a) b,
  bit_or-bitwise (suc a / 2) (b / 2),
  or_fuel a (suc a / 2) (suc a / 2) (b / 2) (omega arith) (omega arith),
)

-- Halving a number of two parts halves its low part.
half_low : (h l k : ℕ) → (h * 2 ^ suc k + l) / 2 ≡ h * 2 ^ k + l / 2
half_low h l k = omega (arith, ap (λ (t : ℕ). h * t) (pow_two-suc k))

parity_low : (h l k : ℕ) → (h * 2 ^ suc k + l) % 2 ≡ l % 2
parity_low h l k = omega (arith, ap (λ (t : ℕ). h * t) (pow_two-suc k))

whole : (h : ℕ) → h * 2 ^ 0 + 0 ≡ h
whole h = omega arith

-- The operations go part by part.
pub bit_and_parts :
    (k h g l m : ℕ)
    → l < 2 ^ k
    → m < 2 ^ k
    → bit_and (h * 2 ^ k + l) (g * 2 ^ k + m) ≡ bit_and h g * 2 ^ k + bit_and l m
bit_and_parts zero h g zero zero p q =
    omega (arith, ap₂ bit_and (whole h) (whole g), zero-bit_and 0)
bit_and_parts zero h g (suc l) m p q = absurd (omega arith)
bit_and_parts zero h g zero (suc m) p q = absurd (omega arith)
bit_and_parts (suc k) h g l m p q = omega (
  arith,
  and_step (h * 2 ^ suc k + l) (g * 2 ^ suc k + m),
  and_step l m,
  bit_and_parts k h g (l / 2) (m / 2) (omega (arith, pow_two-suc k)) (omega (arith, pow_two-suc k)),
  ap (λ (t : ℕ). bit_and t ((g * 2 ^ suc k + m) / 2)) (half_low h l k),
  ap (λ (t : ℕ). bit_and (h * 2 ^ k + l / 2) t) (half_low g m k),
  parity_low h l k,
  parity_low g m k,
  ap (λ (t : ℕ). bit_and h g * t) (pow_two-suc k),
)

pub bit_or_parts :
    (k h g l m : ℕ)
    → l < 2 ^ k
    → m < 2 ^ k
    → bit_or (h * 2 ^ k + l) (g * 2 ^ k + m) ≡ bit_or h g * 2 ^ k + bit_or l m
bit_or_parts zero h g zero zero p q = omega (arith, ap₂ bit_or (whole h) (whole g), zero-bit_or 0)
bit_or_parts zero h g (suc l) m p q = absurd (omega arith)
bit_or_parts zero h g zero (suc m) p q = absurd (omega arith)
bit_or_parts (suc k) h g l m p q = omega (
  arith,
  or_step (h * 2 ^ suc k + l) (g * 2 ^ suc k + m),
  or_step l m,
  bit_or_parts k h g (l / 2) (m / 2) (omega (arith, pow_two-suc k)) (omega (arith, pow_two-suc k)),
  ap (λ (t : ℕ). bit_or t ((g * 2 ^ suc k + m) / 2)) (half_low h l k),
  ap (λ (t : ℕ). bit_or (h * 2 ^ k + l / 2) t) (half_low g m k),
  parity_low h l k,
  parity_low g m k,
  ap (λ (t : ℕ). bit_or h g * t) (pow_two-suc k),
)

-- A mask of n ones keeps a value of n bits.
pub bit_and_ones : (n x : ℕ) → x < 2 ^ n → bit_and x (2 ^ n - 1) ≡ x
bit_and_ones zero zero h = zero-bit_and 0
bit_and_ones zero (suc x) h = absurd (omega arith)
bit_and_ones (suc n) x h = omega (
  arith,
  and_step x (2 ^ suc n - 1),
  ap (bit_and (x / 2)) halved,
  bit_and_ones n (x / 2) (omega (arith, pow_two-suc n)),
  pow_two-suc n,
  pow_two-pos n,
)
  where
    halved : (2 ^ suc n - 1) / 2 ≡ 2 ^ n - 1
    halved = omega (arith, pow_two-suc n, pow_two-pos n)

-- A mask of zeros clears a value of n bits.
pub bit_and_zero : (n x : ℕ) → x < 2 ^ n → bit_and x 0 ≡ 0
bit_and_zero zero zero h = zero-bit_and 0
bit_and_zero zero (suc x) h = absurd (omega arith)
bit_and_zero (suc n) x h =
    omega (arith, and_step x 0, bit_and_zero n (x / 2) (omega (arith, pow_two-suc n)))

pub bit_or_zero : (n x : ℕ) → x < 2 ^ n → bit_or x 0 ≡ x
bit_or_zero zero zero h = zero-bit_or 0
bit_or_zero zero (suc x) h = absurd (omega arith)
bit_or_zero (suc n) x h =
    omega (arith, or_step x 0, bit_or_zero n (x / 2) (omega (arith, pow_two-suc n)))
