-- ===== src/Common/Arith.antt =====
-- Powers of two, quotients and remainders.
use Prim.Native.Nat.{ℕ, zero, suc, ◌+◌, ◌*◌, ◌/◌, ◌%◌, ◌^◌, ◌<◌}
use mathlib.Core.Path.{◌≡◌, ap, ◌∙◌}
use native.Mathlib.Omega.{arith}
use native.Mathlib.Nat.{
  div-add-mod, mod-lt, add-mul-mod_self_left, mod-eq_of_lt, pow-suc, add-zero, add-suc,
}

pub pow_two-suc : (n : ℕ) → 2 ^ suc n ≡ 2 * 2 ^ n
pow_two-suc n = omega (arith, pow-suc 2 n)

pub pow_two-pos : (n : ℕ) → 0 < 2 ^ n
pow_two-pos zero = omega arith
pow_two-pos (suc n) = omega (arith, pow_two-pos n, pow_two-suc n)

digit_fits : (b r m : ℕ) → b < 2 → r < m → b * m + r < 2 * m
digit_fits zero r m hb hr = omega arith
digit_fits (suc zero) r m hb hr = omega arith
digit_fits (suc (suc b)) r m hb hr = absurd (omega arith)

-- The remainder by `2 * m` adds one binary digit to the remainder by `m`.
pub mod-two_mul : (v m : ℕ) → 0 < m → v % (2 * m) ≡ v / m % 2 * m + v % m
mod-two_mul v m h =
    ap (λ (t : ℕ). t % (2 * m)) split
    ∙ add-mul-mod_self_left (v / m % 2 * m + v % m) (2 * m) (v / m / 2)
    ∙ mod-eq_of_lt (digit_fits (v / m % 2) (v % m) m (omega arith) (mod-lt v h))
  where
    split : v ≡ v / m % 2 * m + v % m + 2 * m * (v / m / 2)
    split = omega (arith, div-add-mod v m, ap (λ (t : ℕ). m * t) (div-add-mod (v / m) 2))

pub pow_two-add : (n k : ℕ) → 2 ^ (n + k) ≡ 2 ^ n * 2 ^ k
pow_two-add n zero = simp add-zero (omega arith)
pow_two-add n (suc k) = simp add-suc (
    omega (
      arith,
      pow_two-suc (n + k),
      pow_two-suc k,
      pow_two-add n k,
      ap (λ (t : ℕ). 2 ^ n * t) (pow_two-suc k),
    ))
