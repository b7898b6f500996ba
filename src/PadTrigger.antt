-- ===== src/PadTrigger.antt =====
-- src/hw/PadTrigger.cpp: the registers of the pad trigger's FPGA behind its I2C link.
pub mod Link
pub mod Names
pub mod Registers
pub mod SubRegisters
pub mod RoundTrip
pub mod Packing
pub mod Delays
pub mod NibbleWords
pub mod Nibbles
pub mod DelayRoundTrip
pub mod Deskew
pub mod Medians
pub mod Choice
pub mod TargetDelays
pub mod Windows
pub mod Centres
pub mod Columns
pub mod Scan
pub mod ScanRuns
pub mod DeskewRuns
use nswconfiguration.Common.{ℕ, ◌%◌, ◌^◌, String, false, [], ◌∷◌}
use nswconfiguration.Common.Results.{ok}
use nswconfiguration.Common.Actions.{Action, ◌>>=◌, ◌>>◌, lift}
use nswconfiguration.Utility.{int_to_byte_vector, byte_vector_to_word32, overwrite_bits}
use nswconfiguration.I2c.Config.{I2cMasterConfig}
use Link.{FpgaLink}
use Names.{address_from_register_name, at_names, low_position, get_sub_register_from_register}

module _ {Fpga : Type 0} ⦃link : FpgaLink Fpga⦄ where
  -- PadTrigger::writeFPGARegister: the address and the four bytes, the highest first.
  unfoldable pub write_fpga_register : ℕ → ℕ → Action Fpga (Unit {0})
  write_fpga_register reg_address v = link.send_i2c_raw (reg_address ∷ int_to_byte_vector v 4 false)

  -- PadTrigger::readFPGARegister
  unfoldable pub read_fpga_register : ℕ → Action Fpga ℕ
  read_fpga_register reg_address = link.read_i2c_at_address (reg_address ∷ []) 4 >>= λ bytes.
      lift (byte_vector_to_word32 bytes false)

  -- PadTrigger::writeAndReadbackFPGARegister: a wrong value is reported, and no more.
  unfoldable pub write_and_readback_fpga_register : ℕ → ℕ → Action Fpga (Unit {0})
  write_and_readback_fpga_register reg_address v =
      write_fpga_register reg_address v
      >> (read_fpga_register reg_address >>= λ readback. lift (ok tt))

  -- PadTrigger::writeSubRegister
  unfoldable pub write_sub_register : I2cMasterConfig → String → String → ℕ → Action Fpga (Unit {0})
  write_sub_register fpga rname subreg subval = lift (address_from_register_name rname) >>= λ addr.
      lift (at_names fpga.codec.addr_reg_pos rname subreg) >>= λ pos.
      lift (at_names fpga.codec.addr_reg_size rname subreg) >>= λ siz.
      read_fpga_register addr >>= λ old.
      lift (overwrite_bits old subval (low_position pos siz % 2 ^ 32) siz) >>= λ v.
      write_fpga_register addr v

  -- PadTrigger::readSubRegister
  unfoldable pub read_sub_register : I2cMasterConfig → String → String → Action Fpga ℕ
  read_sub_register fpga rname subreg = lift (address_from_register_name rname) >>= λ addr.
      read_fpga_register addr >>= λ v. lift (get_sub_register_from_register fpga rname subreg v)
