-- ===== src/PadTrigger/Nibbles.antt =====
-- Words of numbers of four bits, as src/hw/PadTrigger.cpp packs and unpacks them.
use nswconfiguration.Common.{
  ℕ, zero, suc, ◌+◌, ◌*◌, ◌/◌, ◌^◌, ◌<◌, ◌≤◌, ◌≡◌, refl, sym, ap, ◌∙◌, arith, List, ◌∷◌, ◌++◌,
  length, slice, take, drop, All, All-take, All-drop, All-append, length-slice, length-drop,
  take_all, drop-drop, take-append-drop, replicate,
}
use nswconfiguration.Common.Results.{ok}
use nswconfiguration.PadTrigger.Packing.{
  add_nibble, Words, delay_loop, nibbles, pfeb_values, common_word,
}
use mathlib.Core.Path.{ap₂}
use native.Mathlib.Nat.{div-le_self}
use nswconfiguration.PadTrigger.NibbleWords.{
  IsNibble, packed, fold, packed-lt, mask_nibble, fold_value, nibbles_value, window_head,
}

delay_loop_value :
    (left it : ℕ) (values : List ℕ) (w23 w15 w07 : ℕ)
    → it + left ≡ 8
    → length values ≡ 24
    → delay_loop left it values (w23, w15, w07)
      ≡ ok (
        fold w23 it (slice (it + 16) left values),
        fold w15 it (slice (it + 8) left values),
        fold w07 it (slice it left values),
      )
unfolding delay_loop fold
delay_loop_value zero it values w23 w15 w07 h k = refl
delay_loop_value (suc left) it values w23 w15 w07 h k =
    let (v2, e2, s2) = window_head (it + 16) values (omega arith) in
    let (v1, e1, s1) = window_head (it + 8) values (omega arith) in
    let (v0, e0, s0) = window_head it values (omega arith) in
    let rest =
      delay_loop_value left (it + 1) values (add_nibble w23 v2 it) (add_nibble w15 v1 it)
        (add_nibble w07 v0 it) (omega arith) k in
    rw
      (
        e2,
        e1,
        e0,
        s2 (it + 1 + 16) left (omega arith),
        s1 (it + 1 + 8) left (omega arith),
        s0 (it + 1) left (omega arith),
      )
      rest

module _ (values : List ℕ) (all_pfebs : length values ≡ 24) (small : All IsNibble values) where
  octet_length : (i : ℕ) → i + 8 ≤ 24 → length (slice i 8 values) ≡ 8
  octet_length i h = length-slice i 8 values (omega arith)

  octet_small : (i : ℕ) → All IsNibble (slice i 8 values)
  octet_small i = All-take IsNibble 8 (drop i values) (All-drop IsNibble i values small)

  octet_fold :
      (i : ℕ) → i + 8 ≤ 24 → fold 0 0 (slice i 8 values) ≡ 0 + 2 ^ 0 * packed (slice i 8 values)
  octet_fold i h =
      fold_value (slice i 8 values) 0 0 (omega arith) (octet_small i)
        (omega (arith, octet_length i h))

  octet-lt : (i : ℕ) → i + 8 ≤ 24 → fold 0 0 (slice i 8 values) < 2 ^ 32
  octet-lt i h = omega (
    arith,
    octet_fold i h,
    packed-lt (slice i 8 values) (octet_small i),
    ap (λ (t : ℕ). 2 ^ (t * 4)) (octet_length i h),
  )

  octet_nibbles :
      (i : ℕ) → i + 8 ≤ 24 → nibbles 8 0 (fold 0 0 (slice i 8 values)) ≡ slice i 8 values
  octet_nibbles i h =
      ap₂ (λ (n t : ℕ). nibbles n 0 t) (sym (octet_length i h)) (octet_fold i h)
      ∙ nibbles_value (slice i 8 values) 0 0 (omega arith) (octet_small i)
          (omega (arith, octet_length i h))

  three_octets : slice 0 8 values ++ (slice 8 8 values ++ slice 16 8 values) ≡ values
  three_octets =
      ap (λ t. take 8 values ++ (take 8 (drop 8 values) ++ t))
        (take_all 8 (drop 16 values) (omega (arith, length-drop 16 values))
          ∙ sym (drop-drop 8 8 values))
      ∙ ap (◌++◌ (take 8 values)) (take-append-drop 8 (drop 8 values))
      ∙ take-append-drop 8 values

  -- Twenty-four values of four bits come back from the words that they are packed in.
  pub pfeb_values-delay_loop :
      (w : Words) × (delay_loop 8 0 values (0, 0, 0) ≡ ok w)
      × (pfeb_values w.2 w.1 w.0 ≡ values)
      × ((w.0 < 2 ^ 32) × (w.1 < 2 ^ 32) × (w.2 < 2 ^ 32))
  unfolding pfeb_values
  pfeb_values-delay_loop = (
    (fold 0 0 (slice 16 8 values), fold 0 0 (slice 8 8 values), fold 0 0 (slice 0 8 values)),
    delay_loop_value 8 0 values 0 0 0 refl all_pfebs,
    ap₂ ◌++◌ (octet_nibbles 0 (omega arith))
          (ap₂ ◌++◌ (octet_nibbles 8 (omega arith)) (octet_nibbles 16 (omega arith)))
        ∙ three_octets,
    (octet-lt 16 (omega arith), octet-lt 8 (omega arith), octet-lt 0 (omega arith)),
  )

-- What writePFEBCommonDelay puts in each word: `wide` is the machine's shift by 32 bits.
abbrev pub common_octet : (ℕ → ℕ) → ℕ → List ℕ
common_octet wide v = wide v ∷ replicate 7 v

common_word_value :
    (wide : ℕ → ℕ) (v : ℕ)
    → IsNibble (wide v)
    → IsNibble v
    → common_word wide v ≡ packed (common_octet wide v)
unfolding common_word packed
common_word_value wide v h k = omega arith

pub nibbles-common_word :
    (wide : ℕ → ℕ) (v : ℕ)
    → IsNibble (wide v)
    → IsNibble v
    → (nibbles 8 0 (common_word wide v) ≡ common_octet wide v) × (common_word wide v < 2 ^ 32)
nibbles-common_word wide v h k = (
  ap (nibbles 8 0) (common_word_value wide v h k ∙ omega_whole (packed (common_octet wide v)))
      ∙ nibbles_value (common_octet wide v) 0 0 (omega arith) small (omega arith),
  omega (arith, common_word_value wide v h k, packed-lt (common_octet wide v) small),
)
  where
    small : All IsNibble (common_octet wide v)
    small = (h, (k, (k, (k, (k, (k, (k, (k, tt))))))))

    omega_whole : (t : ℕ) → t ≡ 0 + 2 ^ 0 * t
    omega_whole t = omega arith

nibbles_lem :
    (n pos v : ℕ) → v < 2 ^ 32 → (length (nibbles n pos v) ≡ n) × All IsNibble (nibbles n pos v)
unfolding nibbles
nibbles_lem zero pos v h = (refl, tt)
nibbles_lem (suc n) pos v h =
    let (same, small) = nibbles_lem n (pos + 4) v h in
    (ap suc same, (omega (arith, mask_nibble (v / 2 ^ pos) below), small))
  where
    below : v / 2 ^ pos < 2 ^ 32
    below = omega (arith, div-le_self v (2 ^ pos))

-- Three words are read as twenty-four values of four bits.
pub pfeb_values_lem :
    (a b c : ℕ)
    → a < 2 ^ 32
    → b < 2 ^ 32
    → c < 2 ^ 32
    → (length (pfeb_values a b c) ≡ 24) × All IsNibble (pfeb_values a b c)
unfolding pfeb_values
pfeb_values_lem a b c ha hb hc =
    let (la, sa) = nibbles_lem 8 0 a ha in
    let (lb, sb) = nibbles_lem 8 0 b hb in
    let (lc, sc) = nibbles_lem 8 0 c hc in
    (
      refl,
      All-append IsNibble (nibbles 8 0 a) (nibbles 8 0 b ++ nibbles 8 0 c) sa
          (All-append IsNibble (nibbles 8 0 b) (nibbles 8 0 c) sb sc),
    )

pub common_word-lt : (wide : ℕ → ℕ) (v : ℕ) → common_word wide v < 2 ^ 32
unfolding common_word
common_word-lt wide v = omega arith
