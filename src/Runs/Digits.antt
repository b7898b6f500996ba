-- ===== src/Runs/Digits.antt =====
-- The format {:0{}b} written out: at least one digit, and no more zeros in front than asked for.
use nswconfiguration.Common.{
  ℕ, zero, suc, ◌+◌, ◌^◌, ◌≤◌, ◌<◌, ◌≡◌, refl, ap, ◌∙◌, arith, ltb, length, if◌then◌else◌,
  pow_two-suc,
}
use nswconfiguration.Bits.{BitString, value, bits, length-bits, value-bits_fits}
use native.Mathlib.Nat.{pow-le-pow_right}
use native.Mathlib.Numerals.{unary_clauses}
use nswconfiguration.Utility.Fmt.{BinaryFormat}

-- The first width from w on that a number fits in.
unfoldable pub narrowest : ℕ → ℕ → ℕ → ℕ
narrowest zero w v = w
narrowest (suc fuel) w v = let rest = narrowest fuel (w + 1) v in if ltb v (2 ^ w) then w else rest

narrowest-fits : (fuel w v : ℕ) → v < 2 ^ (w + fuel) → v < 2 ^ narrowest fuel w v
unfolding narrowest
narrowest-fits zero w v h = simp unary_clauses at h
narrowest-fits (suc fuel) w v h = ground (arith, narrowest-fits fuel (w + 1) v (ap_fits h))
  where
    ap_fits : v < 2 ^ (w + suc fuel) → v < 2 ^ ((w + 1) + fuel)
    ap_fits e = omega (arith, e, ap (λ (n : ℕ). 2 ^ n) (shift w fuel))
      where
        shift : (a b : ℕ) → a + suc b ≡ (a + 1) + b
        shift a b = omega arith

narrowest-ge : (fuel w v : ℕ) → w ≤ narrowest fuel w v
unfolding narrowest
narrowest-ge zero w v = omega arith
narrowest-ge (suc fuel) w v = ground (arith, narrowest-ge fuel (w + 1) v)

narrowest_first : (fuel w v : ℕ) → v < 2 ^ w → narrowest fuel w v ≡ w
unfolding narrowest
narrowest_first zero w v h = refl
narrowest_first (suc fuel) w v h = ground arith

below_power : (v : ℕ) → v < 2 ^ v
below_power zero = omega arith
below_power (suc v) = omega (arith, below_power v, pow_two-suc v)

below_wider : (w v : ℕ) → v < 2 ^ (w + v)
below_wider w v = omega (arith, below_power v, pow-le-pow_right {n = 2} (omega arith) later)
  where
    later : v ≤ w + v
    later = omega arith

-- At least one digit.
abbrev pub at_least_one : ℕ → ℕ
at_least_one zero = 1
at_least_one (suc w) = suc w

abbrev pub digits : ℕ → ℕ → ℕ
digits v width = narrowest v (at_least_one width) v

abbrev pub fmt_binary : ℕ → ℕ → BitString
fmt_binary v width = bits (digits v width) v

pub value-fmt_binary : (v width : ℕ) → value (fmt_binary v width) ≡ v
value-fmt_binary v width =
    value-bits_fits (digits v width) v (narrowest-fits v _ v (below_wider _ v))

pub width-le-fmt_binary : (v width : ℕ) → width ≤ length (fmt_binary v width)
width-le-fmt_binary v zero = omega arith
width-le-fmt_binary v (suc w) =
    rw (length-bits (narrowest v (suc w) v) v) (narrowest-ge v (suc w) v)

pub length-fmt_binary :
    (v width : ℕ) → 0 < width → v < 2 ^ width → length (fmt_binary v width) ≡ width
length-fmt_binary v zero pos h = elim pos [ ]
length-fmt_binary v (suc w) pos h = length-bits _ v ∙ narrowest_first v (suc w) v h

abbrev pub digits_format : BinaryFormat
digits_format = record {
  format = fmt_binary;
  value-format = value-fmt_binary;
  width-le-length = width-le-fmt_binary;
  length-format = length-fmt_binary;
}
