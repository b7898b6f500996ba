-- ===== src/Utility/BitStrings.antt =====
-- `bit_string` writes the lowest bits, most significant first, whatever fmt is.
use nswconfiguration.Common.{
  [], ◌∷◌, ℕ, zero, suc, ◌-◌, ◌≤◌, ◌<◌, ◌≡◌, refl, sym, ap, ◌∙◌, arith, length, drop, take,
  length-drop, reverse,
}
use nswconfiguration.Common.Results.{ok, err, out_of_range}
use nswconfiguration.Bits.{BitString, value, bits, bits-value, drop-bits}
use nswconfiguration.Utility.Fmt.{BinaryFormat}
use nswconfiguration.Utility.{bit_string, reversed_bit_string, substr}

-- The last k characters of a text of at least k digits are the lowest k bits of its value.
pub drop-eq-bits : (k : ℕ) (s : BitString) → k ≤ length s → drop (length s - k) s ≡ bits k (value s)
drop-eq-bits k s h =
    ap (drop (length s - k)) (sym (bits-value s) ∙ ap (λ (n : ℕ). bits n (value s)) (omega arith))
    ∙ drop-bits k (length s - k) (value s)

-- A window that reaches past the end is cut there.
pub take_past : (n : ℕ) (s : BitString) → length s ≤ n → take n s ≡ s
take_past zero [] h = refl
take_past zero (b ∷ s) h = elim h [ ]
take_past (suc n) [] h = refl
take_past (suc n) (b ∷ s) h = ap (◌∷◌ b) (take_past n s (omega arith))

substr_tail :
    (k : ℕ) (s : BitString)
    → k ≤ length s
    → substr s (length s - k) (length s) ≡ ok (bits k (value s))
unfolding substr
substr_tail k s h = ground (
  arith,
  drop-eq-bits k s,
  take_past (length s) (drop (length s - k) s),
  length-drop (length s - k) s,
)

module _ ⦃fmt : BinaryFormat⦄ where
  -- For at most 32 bits the lowest bits of the value come out, most significant first.
  pub bit_string-eq-bits : (v nbits : ℕ) → nbits ≤ 32 → bit_string v nbits ≡ ok (bits nbits v)
  unfolding bit_string
  bit_string-eq-bits v nbits h = ground (
    arith,
    fmt.value-format v nbits,
    fmt.width-le-length v nbits,
    substr_tail nbits (fmt.format v nbits),
    bits-value (fmt.format v nbits),
  )

  pub bit_string_too_wide : (v nbits : ℕ) → 32 < nbits → bit_string v nbits ≡ err out_of_range
  unfolding bit_string
  bit_string_too_wide v nbits h = ground arith

  pub reversed_bit_string-eq-bits :
      (v nbits : ℕ) → nbits ≤ 32 → reversed_bit_string v nbits ≡ ok (reverse (bits nbits v))
  unfolding reversed_bit_string
  reversed_bit_string-eq-bits v nbits h = rw (bit_string-eq-bits v nbits h)
