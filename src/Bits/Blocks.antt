-- ===== src/Bits/Blocks.antt =====
-- Bit strings in parts, and the numbers they stand for.
use nswconfiguration.Common.{
  ℕ, ◌+◌, ◌*◌, ◌^◌, ◌≡◌, ap, arith, [], ◌∷◌, ◌++◌, length, length-append, pow_two-add,
}
use nswconfiguration.Bits.{BitString, value, digit}

pub value-append : (s t : BitString) → value (s ++ t) ≡ value s * 2 ^ length t + value t
unfolding value
value-append [] t = omega arith
value-append (b ∷ s) t = omega (
  arith,
  value-append s t,
  ap (λ (n : ℕ). digit b * 2 ^ n) (length-append s t),
  ap (λ (n : ℕ). digit b * n) (pow_two-add (length s) (length t)),
)
