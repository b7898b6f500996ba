-- ===== src/PadTrigger/Registers.antt =====
-- Reads and writes of the FPGA registers of src/hw/PadTrigger.cpp over a link that answers.
use nswconfiguration.Common.{
  ℕ, ◌+◌, ◌*◌, ◌^◌, ◌<◌, ◌≡◌, ◌≢◌, refl, ap, ◌∙◌, arith, true, false, List, [], ◌∷◌, length, All,
}
use nswconfiguration.Common.Results.{ok}
use nswconfiguration.Common.Actions.{lift, pass, pass-ok, ◌>>=◌}
use nswconfiguration.Utility.{int_to_byte_vector, byte_vector_to_word32, byte_at}
use nswconfiguration.Utility.Bytes.{IsByte}
use nswconfiguration.Utility.Words.{byte_vector_to_word32-int_to_byte_vector}
use nswconfiguration.PadTrigger.{
  write_fpga_register, read_fpga_register, write_and_readback_fpga_register,
}
use nswconfiguration.PadTrigger.Link.{FpgaLink}

-- Four bytes make a word.
pub four_bytes :
    (bytes : List ℕ)
    → length bytes ≡ 4
    → All IsByte bytes
    → (w : ℕ) × (byte_vector_to_word32 bytes false ≡ ok w) × (w < 2 ^ 32)
unfolding byte_vector_to_word32
four_bytes (a ∷ (b ∷ (c ∷ (d ∷ [])))) h (ha, (hb, (hc, (hd, e)))) =
    (d + 256 * (c + 256 * (b + 256 * (a + 0))), refl, omega arith)
four_bytes [] h k = absurd (omega arith)
four_bytes (a ∷ []) h k = absurd (omega arith)
four_bytes (a ∷ (b ∷ [])) h k = absurd (omega arith)
four_bytes (a ∷ (b ∷ (c ∷ []))) h k = absurd (omega arith)
four_bytes (a ∷ (b ∷ (c ∷ (d ∷ (e ∷ bytes))))) h k = absurd (omega arith)

pub length-int_to_byte_vector : (v : ℕ) → length (int_to_byte_vector v 4 false) ≡ 4
unfolding int_to_byte_vector
length-int_to_byte_vector v = refl

pub int_to_byte_vector-IsByte : (v : ℕ) → All IsByte (int_to_byte_vector v 4 false)
unfolding int_to_byte_vector byte_at
int_to_byte_vector-IsByte v = (omega arith, (omega arith, (omega arith, (omega arith, tt))))

-- The register at an address holds the word.
abbrev pub Holds : {Fpga : Type 0} ⦃link : FpgaLink Fpga⦄ → Fpga → ℕ → ℕ → Type 0
Holds ⦃link = link⦄ d a w = byte_vector_to_word32 (link.content d a) false ≡ ok w

module _ {Fpga : Type 0} ⦃link : FpgaLink Fpga⦄ (d : Fpga) (up : link.online d ≡ true) where
  pub Holds-word : (a : ℕ) → (w : ℕ) × Holds d a w × (w < 2 ^ 32)
  Holds-word a =
      let (long, small) = link.content-word d a in four_bytes (link.content d a) long small

  pub read_fpga_register-run :
      (a w : ℕ)
      → link.writable a ≡ true
      → Holds d a w
      → read_fpga_register a d ≡ ((link.read_i2c_at_address (a ∷ []) 4 d).0, ok w)
  unfolding read_fpga_register
  read_fpga_register-run a w can holds =
      pass-ok (link.read_i2c_at_address (a ∷ []) 4 d) (link.content d a)
        (λ bytes. lift (byte_vector_to_word32 bytes false)) (link.read-ok d a up can)
      ∙ ap (λ r. ((link.read_i2c_at_address (a ∷ []) 4 d).0, r)) holds

  -- A read gives the word and leaves the registers.
  pub read_fpga_register_lem :
      (a w : ℕ)
      → link.writable a ≡ true
      → Holds d a w
      → ((read_fpga_register a d).1 ≡ ok w)
        × (link.online (read_fpga_register a d).0 ≡ true)
        × ((b : ℕ)
            → link.writable b ≡ true
            → link.content (read_fpga_register a d).0 b ≡ link.content d b)
  read_fpga_register_lem a w can holds = (
    ap (λ r. r.1) (read_fpga_register-run a w can holds),
    ap (λ r. link.online r.0) (read_fpga_register-run a w can holds)
        ∙ link.read-online d (a ∷ []) 4 up,
    λ b canb.
        ap (λ r. link.content r.0 b) (read_fpga_register-run a w can holds)
        ∙ link.read-content d (a ∷ []) 4 b canb,
  )

  -- A write stores the word and leaves the other registers.
  pub write_fpga_register_lem :
      (a v : ℕ)
      → link.writable a ≡ true
      → v < 2 ^ 32
      → ((write_fpga_register a v d).1 ≡ ok tt)
        × (link.online (write_fpga_register a v d).0 ≡ true)
        × Holds (write_fpga_register a v d).0 a v
        × ((b : ℕ)
            → link.writable b ≡ true
            → a ≢ b
            → link.content (write_fpga_register a v d).0 b ≡ link.content d b)
  unfolding write_fpga_register
  write_fpga_register_lem a v can small = (
    link.send-ok d a (int_to_byte_vector v 4 false) up,
    link.send-online d (a ∷ int_to_byte_vector v 4 false) up,
    ap (λ bytes. byte_vector_to_word32 bytes false)
          (link.send-content d a (int_to_byte_vector v 4 false) up can (length-int_to_byte_vector v)
            (int_to_byte_vector-IsByte v))
        ∙ byte_vector_to_word32-int_to_byte_vector v false small,
    λ b canb other. link.send-content_ne d a b (int_to_byte_vector v 4 false) canb other,
  )

  -- Both calls with the state they leave.
  pub read_runs :
      (a w : ℕ)
      → link.writable a ≡ true
      → Holds d a w
      → (d' : Fpga) × (read_fpga_register a d ≡ (d', ok w))
        × (link.online d' ≡ true)
        × ((b : ℕ) → link.writable b ≡ true → link.content d' b ≡ link.content d b)
  read_runs a w can holds = (
    (link.read_i2c_at_address (a ∷ []) 4 d).0,
    read_fpga_register-run a w can holds,
    link.read-online d (a ∷ []) 4 up,
    λ b canb. link.read-content d (a ∷ []) 4 b canb,
  )

module _ {Fpga : Type 0} ⦃link : FpgaLink Fpga⦄ (d : Fpga) (up : link.online d ≡ true) where
  pub write_and_readback_runs :
      (a v : ℕ)
      → link.writable a ≡ true
      → v < 2 ^ 32
      → (d' : Fpga) × (write_and_readback_fpga_register a v d ≡ (d', ok tt))
        × (link.online d' ≡ true)
        × Holds d' a v
        × ((b : ℕ) → link.writable b ≡ true → a ≢ b → link.content d' b ≡ link.content d b)
  unfolding write_and_readback_fpga_register
  write_and_readback_runs a v can small =
      let (done, up', stored, kept) = write_fpga_register_lem d up a v can small in
      let (d', run, up'', same) = read_runs (write_fpga_register a v d).0 up' a v can stored in
      (
        d',
        pass-ok (write_fpga_register a v d) tt
              (λ u. read_fpga_register a >>= λ readback. lift (ok tt)) done
            ∙ ap (λ r. pass r (λ readback. lift (ok tt))) run,
        up'',
        ap (λ bytes. byte_vector_to_word32 bytes false) (same a can) ∙ stored,
        λ b canb other. same b canb ∙ kept b canb other,
      )
