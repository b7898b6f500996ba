-- ===== src/PadTrigger/Link.antt =====
-- The FPGA of the pad trigger as src/hw/SCAInterface.cpp and src/OpcClient.cpp reach it. These files
-- pass the calls on to the UaoClient library, which is not part of the repository, and neither is the
-- device, so the calls are a parameter. The laws say what the firmware documents: an address that can
-- be written keeps the four bytes written to it.
use nswconfiguration.Common.{ℕ, ◌≡◌, ◌≢◌, Bool, true, List, [], ◌∷◌, length, All}
use nswconfiguration.Common.Results.{ok}
use nswconfiguration.Common.Actions.{Action}
use nswconfiguration.Utility.Bytes.{IsByte}

pub record FpgaLink (Fpga : Type 0) : Type 0 where
  -- SCA::sendI2cRaw(connection, m_scaAddressFPGA, payload)
  pub send_i2c_raw : List ℕ → Action Fpga (Unit {0})
  -- SCA::readI2cAtAddress(connection, m_scaAddressFPGA, address, numberOfBytes)
  pub read_i2c_at_address : List ℕ → ℕ → Action Fpga (List ℕ)
  -- The OPC server and the SCA answer.
  pub online : Fpga → Bool
  -- The address is a control register, not one that the firmware writes.
  pub writable : ℕ → Bool
  -- The bytes at an address
  pub content : Fpga → ℕ → List ℕ
  pub content-word : (d : Fpga) (a : ℕ) → (length (content d a) ≡ 4) × All IsByte (content d a)
  pub send-ok :
      (d : Fpga) (a : ℕ) (bytes : List ℕ) → online d ≡ true → (send_i2c_raw (a ∷ bytes) d).1 ≡ ok tt
  pub send-online :
      (d : Fpga) (payload : List ℕ) → online d ≡ true → online (send_i2c_raw payload d).0 ≡ true
  pub send-content :
      (d : Fpga) (a : ℕ) (bytes : List ℕ)
      → online d ≡ true
      → writable a ≡ true
      → length bytes ≡ 4
      → All IsByte bytes
      → content (send_i2c_raw (a ∷ bytes) d).0 a ≡ bytes
  pub send-content_ne :
      (d : Fpga) (a b : ℕ) (bytes : List ℕ)
      → writable b ≡ true
      → a ≢ b
      → content (send_i2c_raw (a ∷ bytes) d).0 b ≡ content d b
  pub read-ok :
      (d : Fpga) (a : ℕ)
      → online d ≡ true
      → writable a ≡ true
      → (read_i2c_at_address (a ∷ []) 4 d).1 ≡ ok (content d a)
  pub read-online :
      (d : Fpga) (address : List ℕ) (n : ℕ)
      → online d ≡ true
      → online (read_i2c_at_address address n d).0 ≡ true
  pub read-content :
      (d : Fpga) (address : List ℕ) (n b : ℕ)
      → writable b ≡ true
      → content (read_i2c_at_address address n d).0 b ≡ content d b
  -- Any address gives as many bytes as are asked for; a status register gives what it likes.
  pub read-bytes :
      (d : Fpga) (a : ℕ)
      → online d ≡ true
      → (bytes : List ℕ) × ((read_i2c_at_address (a ∷ []) 4 d).1 ≡ ok bytes)
        × (length bytes ≡ 4)
        × All IsByte bytes
