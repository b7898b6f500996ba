-- ===== src/PadTrigger/DelayRoundTrip.antt =====
-- writePFEBDelay, writePFEBCommonDelay and readPFEBDelays of src/hw/PadTrigger.cpp over a link that
-- answers.
use nswconfiguration.Common.{
  ℕ, ◌^◌, ◌<◌, ◌≡◌, ◌≢◌, refl, ap, ◌∙◌, arith, true, false, List, ◌++◌, length, All,
}
use nswconfiguration.Common.Results.{ok}
use nswconfiguration.Utility.{byte_vector_to_word32}
use nswconfiguration.PadTrigger.Link.{FpgaLink}
use nswconfiguration.PadTrigger.Registers.{Holds, read_runs, write_and_readback_runs}
use nswconfiguration.PadTrigger.Packing.{Words, pfeb_values, common_word}
use nswconfiguration.PadTrigger.Nibbles.{pfeb_values-delay_loop, common_octet, nibbles-common_word}
use nswconfiguration.PadTrigger.NibbleWords.{IsNibble}
use nswconfiguration.PadTrigger.Delays.{
  write_words, write_pfeb_delay, write_pfeb_common_delay, read_pfeb_delays,
}

-- An address that can be written and is none of the three delay registers.
abbrev pub Elsewhere : {Fpga : Type 0} → FpgaLink Fpga → ℕ → Type 0
Elsewhere link b = (link.writable b ≡ true) × (4 ≢ b) × (5 ≢ b) × (6 ≢ b)

module _ {Fpga : Type 0} ⦃link : FpgaLink Fpga⦄ (d : Fpga) (up : link.online d ≡ true)
    (can4 : link.writable 4 ≡ true) (can5 : link.writable 5 ≡ true)
    (can6 : link.writable 6 ≡ true) where
  pub write_words_lem :
      (w : Words)
      → (w.0 < 2 ^ 32) × (w.1 < 2 ^ 32) × (w.2 < 2 ^ 32)
      → (d' : Fpga) × (write_words w d ≡ (d', ok tt))
        × (link.online d' ≡ true)
        × (Holds d' 4 w.0 × Holds d' 5 w.1 × Holds d' 6 w.2)
        × ((b : ℕ) → Elsewhere link b → link.content d' b ≡ link.content d b)
  unfolding write_words
  write_words_lem (w23, w15, w07) (h23, h15, h07) =
      let (d1, run1, up1, held1, kept1) = write_and_readback_runs d up 4 w23 can4 h23 in
      let (d2, run2, up2, held2, kept2) = write_and_readback_runs d1 up1 5 w15 can5 h15 in
      let (d3, run3, up3, held3, kept3) = write_and_readback_runs d2 up2 6 w07 can6 h07 in
      (
        d3,
        rw (run1, run2) run3,
        up3,
        (
          ap (λ bytes. byte_vector_to_word32 bytes false)
                (kept3 4 can4 (omega arith) ∙ kept2 4 can4 (omega arith))
              ∙ held1,
          ap (λ bytes. byte_vector_to_word32 bytes false) (kept3 5 can5 (omega arith)) ∙ held2,
          held3,
        ),
        λ b (canb, n4, n5, n6). kept3 b canb n6 ∙ kept2 b canb n5 ∙ kept1 b canb n4,
      )

  pub read_words_lem :
      (w23 w15 w07 : ℕ)
      → Holds d 4 w23 × Holds d 5 w15 × Holds d 6 w07
      → (read_pfeb_delays d).1 ≡ ok (pfeb_values w07 w15 w23)
  unfolding read_pfeb_delays
  read_words_lem w23 w15 w07 (held1, held2, held3) =
      let (d1, run1, up1, kept1) = read_runs d up 4 w23 can4 held1 in
      let (d2, run2, up2, kept2) =
        read_runs d1 up1 5 w15 can5
          (ap (λ bytes. byte_vector_to_word32 bytes false) (kept1 5 can5) ∙ held2) in
      let (d3, run3, up3, kept3) =
        read_runs d2 up2 6 w07 can6
          (ap (λ bytes. byte_vector_to_word32 bytes false) (kept2 6 can6 ∙ kept1 6 can6) ∙ held3) in
      rw (run1, run2, run3) refl

module _ {Fpga : Type 0} ⦃link : FpgaLink Fpga⦄ (d : Fpga) (up : link.online d ≡ true)
    (can4 : link.writable 4 ≡ true) (can5 : link.writable 5 ≡ true)
    (can6 : link.writable 6 ≡ true) where
  pub write_pfeb_delay_runs :
      (values : List ℕ)
      → length values ≡ 24
      → All IsNibble values
      → (d' : Fpga) × (w : Words) × (write_pfeb_delay values d ≡ (d', ok tt))
        × (link.online d' ≡ true)
        × (Holds d' 4 w.0 × Holds d' 5 w.1 × Holds d' 6 w.2)
        × (pfeb_values w.2 w.1 w.0 ≡ values)
        × ((b : ℕ) → Elsewhere link b → link.content d' b ≡ link.content d b)
  unfolding write_pfeb_delay
  write_pfeb_delay_runs values all_pfebs small =
      let (w, packed, unpacked, fits) = pfeb_values-delay_loop values all_pfebs small in
      let (d', run, up', held, kept) = write_words_lem d up can4 can5 can6 w fits in
      (d', w, rw (packed, run) refl, up', held, unpacked, kept)

  -- While the link answers and the three delay registers can be written, writePFEBDelay with 24
  -- values of four bits does not throw, readPFEBDelays then gives the values, and no other address
  -- that can be written changes.
  pub write_pfeb_delay-reads :
      (values : List ℕ)
      → length values ≡ 24
      → All IsNibble values
      → ((write_pfeb_delay values d).1 ≡ ok tt)
        × ((read_pfeb_delays (write_pfeb_delay values d).0).1 ≡ ok values)
        × ((b : ℕ)
            → Elsewhere link b
            → link.content (write_pfeb_delay values d).0 b ≡ link.content d b)
  write_pfeb_delay-reads values all_pfebs small =
      let (d', w, run, up', held, unpacked, kept) = write_pfeb_delay_runs values all_pfebs small in
      rw run (refl, read_words_lem d' up' can4 can5 can6 w.0 w.1 w.2 held ∙ ap ok unpacked, kept)

  -- writePFEBCommonDelay with a value of four bits, on a machine whose shift of it by 32 bits gives
  -- four bits too: in each group of eight front-end boards the seven last get the value, and the
  -- first what the shift gives.
  pub write_pfeb_common_delay-reads :
      (wide : ℕ → ℕ) (v : ℕ)
      → IsNibble (wide v)
      → IsNibble v
      → ((write_pfeb_common_delay wide v d).1 ≡ ok tt)
        × ((read_pfeb_delays (write_pfeb_common_delay wide v d).0).1
            ≡ ok (common_octet wide v ++ (common_octet wide v ++ common_octet wide v)))
  unfolding write_pfeb_common_delay pfeb_values
  write_pfeb_common_delay-reads wide v h k =
      let (octet, fits) = nibbles-common_word wide v h k in
      let w = common_word wide v in
      let (d', run, up', held, kept) =
        write_words_lem d up can4 can5 can6 (w, w, w) (fits, fits, fits) in
      rw run
        (refl, read_words_lem d' up' can4 can5 can6 w w w held ∙ ap (λ t. ok (t ++ (t ++ t))) octet)
