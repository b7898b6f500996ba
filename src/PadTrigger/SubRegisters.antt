-- ===== src/PadTrigger/SubRegisters.antt =====
-- writeSubRegister and readSubRegister of src/hw/PadTrigger.cpp are inverse, and touch no other
-- register.
use nswconfiguration.Common.{
  ℕ, ◌+◌, ◌-◌, ◌%◌, ◌^◌, ◌<◌, ◌≤◌, ◌≡◌, ◌≢◌, refl, ap, ◌∙◌, arith, true, slice, splice,
  length-splice, String,
}
use nswconfiguration.Common.Results.{ok}
use nswconfiguration.Bits.{bits, value, value-lt, length-bits}
use nswconfiguration.Utility.{overwrite_bits}
use nswconfiguration.Utility.Overwrite.{overwrite_bits-splice, value-window}
use nswconfiguration.I2c.Config.{I2cMasterConfig}
use nswconfiguration.PadTrigger.{write_sub_register, read_fpga_register, write_fpga_register}
use nswconfiguration.PadTrigger.Names.{
  address_from_register_name, at_names, low_position, field_at, get_sub_register_from_register,
}
use nswconfiguration.PadTrigger.Link.{FpgaLink}
use nswconfiguration.PadTrigger.Registers.{
  Holds, read_fpga_register-run, read_fpga_register_lem, write_fpga_register_lem,
}

low_position_lem : (pos siz : ℕ) → pos + siz ≤ 32 → low_position pos siz ≡ 32 - pos - siz
unfolding low_position
low_position_lem pos siz h = omega arith

-- Where a sub-register stands: the positions and the sizes have it, and it is inside the word.
abbrev pub Placed : I2cMasterConfig → String → String → ℕ → ℕ → Type 0
Placed fpga rname subreg pos siz =
    (at_names fpga.codec.addr_reg_pos rname subreg ≡ ok pos)
    × (at_names fpga.codec.addr_reg_size rname subreg ≡ ok siz)
    × (pos + siz ≤ 32)

-- The sub-register is the window of the word's bits that the register map names.
pub get_sub_register_from_register-slice :
    (fpga : I2cMasterConfig) (rname subreg : String) (pos siz w : ℕ)
    → Placed fpga rname subreg pos siz
    → w < 2 ^ 32
    → get_sub_register_from_register fpga rname subreg w ≡ ok (value (slice pos siz (bits 32 w)))
unfolding get_sub_register_from_register field_at
get_sub_register_from_register-slice fpga rname subreg pos siz w (hp, hn, here) word =
    rw (hp, hn, low_position_lem pos siz here) (ap ok (value-window w pos siz word here))

-- The word with a window replaced is a word.
pub spliced_word :
    (pos siz v w : ℕ) → pos + siz ≤ 32 → value (splice pos siz (bits siz v) (bits 32 w)) < 2 ^ 32
spliced_word pos siz v w here = omega (
  arith,
  value-lt (splice pos siz (bits siz v) (bits 32 w)),
  ap (λ (t : ℕ). 2 ^ t)
      (length-splice pos siz (bits siz v) (bits 32 w) (omega (arith, length-bits 32 w))
          (length-bits siz v)
        ∙ length-bits 32 w),
)

module _ {Fpga : Type 0} ⦃link : FpgaLink Fpga⦄ (d : Fpga) (up : link.online d ≡ true)
    (fpga : I2cMasterConfig) (rname subreg : String) (addr pos siz subval : ℕ)
    (named : address_from_register_name rname ≡ ok addr) (can : link.writable addr ≡ true)
    (placed : Placed fpga rname subreg pos siz) (some_bit : 0 < siz) (small : siz < 32)
    (fits : subval < 2 ^ siz) where
  write_sub_register-run :
      (w : ℕ)
      → Holds d addr w
      → w < 2 ^ 32
      → write_sub_register fpga rname subreg subval d
        ≡ write_fpga_register addr
            (value (splice pos siz (bits siz subval) (bits 32 w)))
            (read_fpga_register addr d).0
  unfolding write_sub_register
  write_sub_register-run w holds word =
      rw (named, placed.0, placed.1, read_fpga_register-run d up addr w can holds, low) refl
    where
      low :
          overwrite_bits w subval (low_position pos siz % 2 ^ 32) siz
          ≡ ok (value (splice pos siz (bits siz subval) (bits 32 w)))
      low =
          ap (λ (t : ℕ). overwrite_bits w subval t siz)
            (ap (λ (t : ℕ). t % 2 ^ 32) (low_position_lem pos siz placed.2) ∙ omega arith)
          ∙ overwrite_bits-splice w pos siz word placed.2 some_bit small subval fits

  pub write_sub_register-splice :
      (w : ℕ)
      → Holds d addr w
      → w < 2 ^ 32
      → ((write_sub_register fpga rname subreg subval d).1 ≡ ok tt)
        × (link.online (write_sub_register fpga rname subreg subval d).0 ≡ true)
        × Holds
            (write_sub_register fpga rname subreg subval d).0
            addr
            (value (splice pos siz (bits siz subval) (bits 32 w)))
        × ((b : ℕ)
            → link.writable b ≡ true
            → addr ≢ b
            → link.content (write_sub_register fpga rname subreg subval d).0 b ≡ link.content d b)
  write_sub_register-splice w holds word =
      let v = value (splice pos siz (bits siz subval) (bits 32 w)) in
      let (read, up', same) = read_fpga_register_lem d up addr w can holds in
      let (done, up'', stored, kept) =
        write_fpga_register_lem (read_fpga_register addr d).0 up' addr v can
          (spliced_word pos siz subval w placed.2) in
      rw (write_sub_register-run w holds word)
        (done, up'', stored, λ b canb other. kept b canb other ∙ same b canb)
