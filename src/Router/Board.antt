-- ===== src/Router/Board.antt =====
-- The router board as src/hw/SCAInterface.cpp and src/OpcClient.cpp reach it: the GPIO lines of its SCA,
-- the JTAG upload and the time that passes. These files pass the calls on to the UaoClient library,
-- which is not part of the repository, and neither is the board. The laws say what the SCA documents:
-- an output keeps the level written to it until it is written again.
use nswconfiguration.Common.{◌≡◌, String, str_eq, Bool, true, false}
use nswconfiguration.Common.Results.{ok}
use nswconfiguration.Common.Actions.{Action}

pub record GpioLink (Board : Type 0) : Type 0 where
  -- SCA::sendGPIO and SCA::readGPIO, at the name of a line
  pub send_gpio : String → Bool → Action Board (Unit {0})
  pub read_gpio : String → Action Board Bool
  -- SCA::writeXilinxFpga of a file
  pub write_xilinx_fpga : String → Action Board (Unit {0})
  -- nsw::snooze
  pub snooze : Board → Board
  -- The OPC server and the SCA answer.
  pub online : Board → Bool
  -- The line is an output of the SCA, not one that the board drives.
  pub output : String → Bool
  pub level : Board → String → Bool
  pub send-ok :
      (b : Board) (name : String) (v : Bool)
      → online b ≡ true
      → ((send_gpio name v b).1 ≡ ok tt) × (online (send_gpio name v b).0 ≡ true)
  pub send-level :
      (b : Board) (name : String) (v : Bool)
      → online b ≡ true
      → output name ≡ true
      → level (send_gpio name v b).0 name ≡ v
  pub send-level_ne :
      (b : Board) (name other : String) (v : Bool)
      → output other ≡ true
      → str_eq name other ≡ false
      → level (send_gpio name v b).0 other ≡ level b other
  -- A line that the board drives reads as the board likes.
  pub read-ok :
      (b : Board) (name : String)
      → online b ≡ true
      → (v : Bool) × ((read_gpio name b).1 ≡ ok v) × (online (read_gpio name b).0 ≡ true)
  pub read-level :
      (b : Board) (name other : String)
      → output other ≡ true
      → level (read_gpio name b).0 other ≡ level b other
  pub upload-ok :
      (b : Board) (file : String)
      → online b ≡ true
      → ((write_xilinx_fpga file b).1 ≡ ok tt) × (online (write_xilinx_fpga file b).0 ≡ true)
  pub upload-level :
      (b : Board) (file other : String)
      → output other ≡ true
      → level (write_xilinx_fpga file b).0 other ≡ level b other
  pub snooze-online : (b : Board) → online b ≡ true → online (snooze b) ≡ true
  pub snooze-level :
      (b : Board) (other : String) → output other ≡ true → level (snooze b) other ≡ level b other
