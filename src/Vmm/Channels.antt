-- ===== src/Vmm/Channels.antt =====
-- buildChannelConfig of src/VMMCodec.cpp: 24 bits for each channel, the last channel first, and in
-- them the registers from the last row of the table to the first.
use nswconfiguration.Common.{
  ℕ, zero, suc, ◌-◌, ◌*◌, ◌<◌, ◌≡◌, sym, ap, ◌∙◌, arith, List, [], ◌∷◌, ◌++◌, length, slice,
  reverse, length-reverse, length-append, slice-append_middle, drop-append_right, take,
}
use nswconfiguration.Common.Results.{ok, >>=-eq-ok, ok-injective}
use nswconfiguration.Common.Assoc.{Assoc}
use nswconfiguration.Bits.{BitString, bits, length-bits}
use nswconfiguration.Stream.{stream, total, length-stream, stream_split}
use nswconfiguration.Utility.{bit_string, reversed_bit_string}
use nswconfiguration.Utility.Fmt.{BinaryFormat}
use nswconfiguration.Vmm.Tables.{NameSize, channel_name_size}
use nswconfiguration.Vmm.Codec.{channel_value, channel_field, channel_bits, channel_loop}
use nswconfiguration.Vmm.Fields.{size_of, bit_string-fits}
use native.Mathlib.Decide.{dec_lt}
use mathlib.Core.List.{reverse-append, reverse-reverse, append_assoc}

module _ ⦃fmt : BinaryFormat⦄ where
  channel_field-eq-bits :
      (m : Assoc (List ℕ)) (channel : ℕ) (row : NameSize) {s : BitString}
      → channel_field m channel row ≡ ok s
      → (v : ℕ) × (channel_value m row.0 channel ≡ ok v) × (s ≡ reverse (bits row.1 v))
  unfolding channel_field reversed_bit_string
  channel_field-eq-bits m channel (name, size) e =
      let (v, p, q) = >>=-eq-ok (channel_value m name channel) _ e in
      let (str, r, t) = >>=-eq-ok (bit_string v size) _ q in
      (v, p, sym (ok-injective t) ∙ ap reverse (bit_string-fits v size r).1)

  length-channel_field :
      (m : Assoc (List ℕ)) (channel : ℕ) (row : NameSize) (s : BitString)
      → channel_field m channel row ≡ ok s
      → length s ≡ size_of row
  length-channel_field m channel row s e =
      let (v, p, same) = channel_field-eq-bits m channel row e in
      ap length same ∙ length-reverse (bits row.1 v) ∙ length-bits row.1 v

  pub length-channel_bits :
      (m : Assoc (List ℕ)) (channel : ℕ) {s : BitString}
      → channel_bits m channel ≡ ok s
      → length s ≡ 24
  unfolding channel_bits
  length-channel_bits m channel e =
      let (t, p, q) = >>=-eq-ok (stream (channel_field m channel) channel_name_size) _ e in
      ap length (sym (ok-injective q))
      ∙ length-reverse t
      ∙ length-stream (channel_field m channel) size_of channel_name_size
          (length-channel_field m channel) p

  -- In the bits of a channel a register stands behind the registers of the later rows.
  pub slice-channel_bits :
      (m : Assoc (List ℕ)) (channel : ℕ) (front : List NameSize) (row : NameSize)
      (back : List NameSize) {s : BitString}
      → channel_name_size ≡ front ++ (row ∷ back)
      → channel_bits m channel ≡ ok s
      → (v : ℕ) × (channel_value m row.0 channel ≡ ok v)
        × (slice (total size_of back) row.1 s ≡ bits row.1 v)
  unfolding channel_bits
  slice-channel_bits m channel front row back {s} split e =
      let (t, p, q) = >>=-eq-ok (stream (channel_field m channel) channel_name_size) _ e in
      let (x, b, y, px, pb, py, t_eq) =
        stream_split (channel_field m channel) front row back
          (sym (ap (stream (channel_field m channel)) split) ∙ p) in
      let (v, pv, b_eq) = channel_field-eq-bits m channel row pb in
      (
        v,
        pv,
        ap (slice (total size_of back) row.1)
              (sym (ok-injective q) ∙ ap reverse t_eq ∙ turned x b y)
            ∙ slice-append_middle (total size_of back) row.1 (reverse y) (reverse b) (reverse x)
                (sym (
                  length-reverse y
                  ∙ length-stream (channel_field m channel) size_of back
                      (length-channel_field m channel) py))
                (sym (length-reverse b ∙ length-channel_field m channel row b pb))
            ∙ ap reverse b_eq
            ∙ reverse-reverse (bits row.1 v),
      )
    where
      turned : (x b y : BitString) → reverse (x ++ (b ++ y)) ≡ reverse y ++ (reverse b ++ reverse x)
      turned x b y =
          reverse-append x (b ++ y)
          ∙ ap (λ z. z ++ reverse x) (reverse-append b y)
          ∙ append_assoc (reverse y) (reverse b) (reverse x)

  channel_loop-suc :
      (m : Assoc (List ℕ)) (n : ℕ) {s : BitString}
      → channel_loop m (suc n) ≡ ok s
      → (here : BitString) × (rest : BitString) × (channel_bits m n ≡ ok here)
        × (channel_loop m n ≡ ok rest)
        × (s ≡ here ++ rest)
  unfolding channel_loop
  channel_loop-suc m n e =
      let (here, p, q) = >>=-eq-ok (channel_bits m n) _ e in
      let (rest, r, t) = >>=-eq-ok (channel_loop m n) _ q in
      (here, rest, p, r, sym (ok-injective t))

  pub length-channel_loop :
      (m : Assoc (List ℕ)) (n : ℕ) {s : BitString} → channel_loop m n ≡ ok s → length s ≡ 24 * n
  length-channel_loop m zero {s} e = ap length (sym (ok-injective (empty e)))
    where
      empty : channel_loop m zero ≡ ok s → ok [] ≡ ok s
      empty e = unfold channel_loop in e
  length-channel_loop m (suc n) e =
      let (here, rest, p, q, same) = channel_loop-suc m n e in
      ap length same
      ∙ omega (arith, length-append here rest, length-channel_bits m n p, length-channel_loop m n q)

  -- The bits of channel c stand behind those of the channels above it.
  pub slice-channel_loop :
      (m : Assoc (List ℕ)) (n c : ℕ) {s : BitString}
      → c < n
      → channel_loop m n ≡ ok s
      → channel_bits m c ≡ ok (slice (24 * (n - 1 - c)) 24 s)
  slice-channel_loop m zero c h e = elim h [ ]
  slice-channel_loop m (suc n) c {s} h e =
      let (here, rest, p, q, same) = channel_loop-suc m n e in
      elim (dec_lt c n) [
        | yes below ↦
            slice-channel_loop m n c below q
            ∙ ap ok (
                ap (take 24) (
                  sym (
                    drop-append_right (24 * (suc n - 1 - c)) (24 * (n - 1 - c)) here rest
                      (omega (arith, length-channel_bits m n p))))
                ∙ ap (slice (24 * (suc n - 1 - c)) 24) (sym same))
        | no last ↦
            ap (channel_bits m) (omega arith)
            ∙ p
            ∙ ap ok (
                sym (
                  slice-append_middle (24 * (suc n - 1 - c)) 24 [] here rest (omega arith)
                    (sym (length-channel_bits m n p)))
                ∙ ap (slice (24 * (suc n - 1 - c)) 24) (sym same))
      ]
