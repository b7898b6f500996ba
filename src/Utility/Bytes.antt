-- ===== src/Utility/Bytes.antt =====
-- stringToByteVector and vectorToBitString turn bit strings into bytes and back.
use nswconfiguration.Common.{
  ℕ, zero, suc, ◌*◌, ◌^◌, ◌≤◌, ◌<◌, ◌≡◌, refl, sym, ap, ◌∙◌, arith, List, [], ◌∷◌, ◌++◌, length,
  drop, take, All, false, length-drop, length-take, length-append, slice-append_middle,
  drop-append_right, take-append-drop,
}
use nswconfiguration.Bits.{BitString, value, bits, bits-value, value-lt}
use nswconfiguration.Utility.Fmt.{BinaryFormat}
use nswconfiguration.Utility.{byte_loop, string_to_byte_vector, join_bits, vector_to_bit_string}
use native.Mathlib.Nat.{mod-eq_of_lt}
use mathlib.Core.Path.{ap₂}

abbrev pub IsByte : ℕ → Type 0
IsByte b = b < 256

first_byte : (s : BitString) → 8 ≤ length s → length (take 8 s) ≡ 8
first_byte s h = omega (arith, length-take 8 s)

first_byte-IsByte : (s : BitString) → 8 ≤ length s → value (take 8 s) < 256
first_byte-IsByte s h = omega (arith, value-lt (take 8 s), ap (λ (n : ℕ). 2 ^ n) (first_byte s h))

-- One round of the loop.
byte_loop_step :
    (fuel : ℕ) (s : BitString)
    → 8 ≤ length s
    → byte_loop (suc fuel) s ≡ value (take 8 s) ∷ byte_loop fuel (drop 8 s)
unfolding byte_loop
byte_loop_step fuel [] h = absurd (omega arith)
byte_loop_step fuel (b ∷ s) h =
    ap (λ (t : ℕ). t ∷ byte_loop fuel (drop 8 (b ∷ s))) (mod-eq_of_lt (first_byte-IsByte (b ∷ s) h))

byte_loop-length :
    (n fuel : ℕ) (s : BitString) → length s ≡ 8 * n → n ≤ fuel → length (byte_loop fuel s) ≡ n
byte_loop-length zero fuel (b ∷ s) h k = absurd (omega arith)
byte_loop-length zero zero [] h k = unfold byte_loop in refl
byte_loop-length zero (suc fuel) [] h k = unfold byte_loop in refl
byte_loop-length (suc n) zero s h k = absurd (omega arith)
byte_loop-length (suc n) (suc fuel) s h k =
    rw (byte_loop_step fuel s (omega arith))
      (ap suc (byte_loop-length n fuel (drop 8 s) (omega (arith, length-drop 8 s)) (omega arith)))

-- Each byte takes eight characters.
pub length-string_to_byte_vector :
    (n : ℕ) (s : BitString) → length s ≡ 8 * n → length (string_to_byte_vector s) ≡ n
unfolding string_to_byte_vector
length-string_to_byte_vector n s h = byte_loop-length n (length s) s h (omega arith)

module _ ⦃fmt : BinaryFormat⦄ where
  format_byte : (v : ℕ) → v < 256 → fmt.format v 8 ≡ bits 8 v
  format_byte v h =
      sym (bits-value (fmt.format v 8))
      ∙ ap₂ bits (fmt.length-format v 8 (omega arith) (omega arith)) (fmt.value-format v 8)

  join_bits-cons :
      (b : ℕ) (bytes : List ℕ) → join_bits (b ∷ bytes) ≡ fmt.format b 8 ++ join_bits bytes
  unfolding join_bits
  join_bits-cons b bytes = refl

  join-byte_loop :
      (n fuel : ℕ) (s : BitString) → length s ≡ 8 * n → n ≤ fuel → join_bits (byte_loop fuel s) ≡ s
  join-byte_loop zero fuel (b ∷ s) h k = absurd (omega arith)
  join-byte_loop zero zero [] h k = unfold byte_loop join_bits in refl
  join-byte_loop zero (suc fuel) [] h k = unfold byte_loop join_bits in refl
  join-byte_loop (suc n) zero s h k = absurd (omega arith)
  join-byte_loop (suc n) (suc fuel) s h k =
      ap join_bits (byte_loop_step fuel s (omega arith))
      ∙ join_bits-cons _ _
      ∙ ap₂ ◌++◌ head (join-byte_loop n fuel (drop 8 s) rest (omega arith))
      ∙ take-append-drop 8 s
    where
      head : fmt.format (value (take 8 s)) 8 ≡ take 8 s
      head =
          format_byte (value (take 8 s)) (first_byte-IsByte s (omega arith))
          ∙ ap (λ (w : ℕ). bits w (value (take 8 s))) (sym (first_byte s (omega arith)))
          ∙ bits-value (take 8 s)

      rest : length (drop 8 s) ≡ 8 * n
      rest = omega (arith, length-drop 8 s)

  -- A bit string of whole bytes comes back from its bytes.
  pub vector_to_bit_string-string_to_byte_vector :
      (n : ℕ) (s : BitString)
      → length s ≡ 8 * n
      → vector_to_bit_string (string_to_byte_vector s) false ≡ s
  unfolding vector_to_bit_string string_to_byte_vector
  vector_to_bit_string-string_to_byte_vector n s h = join-byte_loop n (length s) s h (omega arith)

  byte_loop-join :
      (bytes : List ℕ) (fuel : ℕ)
      → All IsByte bytes
      → length bytes ≤ fuel
      → byte_loop fuel (join_bits bytes) ≡ bytes
  byte_loop-join [] zero h k = unfold byte_loop join_bits in refl
  byte_loop-join [] (suc fuel) h k = unfold byte_loop join_bits in refl
  byte_loop-join (b ∷ bytes) zero h k = absurd (omega arith)
  byte_loop-join (b ∷ bytes) (suc fuel) (hb, h) k =
      ap (byte_loop (suc fuel)) (join_bits-cons b bytes)
      ∙ byte_loop_step fuel text long
      ∙ ap₂ ◌∷◌ head (ap (byte_loop fuel) tail ∙ byte_loop-join bytes fuel h (omega arith))
    where
      text : BitString
      text = fmt.format b 8 ++ join_bits bytes

      eight : length (fmt.format b 8) ≡ 8
      eight = fmt.length-format b 8 (omega arith) (omega arith)

      long : 8 ≤ length text
      long = omega (arith, eight, length-append (fmt.format b 8) (join_bits bytes))

      head : value (take 8 text) ≡ b
      head =
          ap value (slice-append_middle 0 8 [] (fmt.format b 8) (join_bits bytes) refl (sym eight))
          ∙ fmt.value-format b 8

      tail : drop 8 text ≡ join_bits bytes
      tail = drop-append_right 8 0 (fmt.format b 8) (join_bits bytes) (omega (arith, eight))

  join_bits-length :
      (bytes : List ℕ) → All IsByte bytes → length (join_bits bytes) ≡ 8 * length bytes
  unfolding join_bits
  join_bits-length [] h = refl
  join_bits-length (b ∷ bytes) (hb, h) = omega (
    arith,
    length-append (fmt.format b 8) (join_bits bytes),
    fmt.length-format b 8 (omega arith) (omega arith),
    join_bits-length bytes h,
  )

  -- Bytes come back from their bit string.
  pub string_to_byte_vector-vector_to_bit_string :
      (bytes : List ℕ)
      → All IsByte bytes
      → string_to_byte_vector (vector_to_bit_string bytes false) ≡ bytes
  unfolding vector_to_bit_string string_to_byte_vector
  string_to_byte_vector-vector_to_bit_string bytes h =
      byte_loop-join bytes _ h (omega (arith, join_bits-length bytes h))
