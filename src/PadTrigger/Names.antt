-- ===== src/PadTrigger/Names.antt =====
-- Names of registers and sub-registers in src/hw/PadTrigger.cpp.
use nswconfiguration.Common.{
  ℕ, ◌+◌, ◌-◌, ◌/◌, ◌%◌, ◌^◌, ◌==◌, String, List, [], ◌∷◌, bit_and, if◌then◌else◌,
}
use nswconfiguration.Common.Results.{Result, ok, err, ◌>>=◌, padtrigger_config_error, at}
use nswconfiguration.Common.Assoc.{Assoc, lookup}
use nswconfiguration.Text.{codes}
use nswconfiguration.Text.Numbers.{stoul}
use nswconfiguration.I2c.Config.{I2cMasterConfig}

-- name.substr(0, name.find("_")), on the codes of the characters: the whole name without one.
unfoldable pub before_underscore : List ℕ → List ℕ
before_underscore [] = []
before_underscore (c ∷ s) = let rest = before_underscore s in if c == b'_' then [] else c ∷ rest

-- The handler of addressFromRegisterName, and the cast to uint8_t.
unfoldable pub address_or_error : String → Result ℕ → Result ℕ
address_or_error name (ok v) = ok (v % 256)
address_or_error name (err e) = err (padtrigger_config_error name)

-- PadTrigger::addressFromRegisterName
unfoldable pub address_from_register_name : String → Result ℕ
unfolding before_underscore address_or_error
address_from_register_name name = address_or_error name (stoul 16 (before_underscore (codes name)))

-- m.at(rname).at(subreg)
unfoldable pub at_names : Assoc (Assoc ℕ) → String → String → Result ℕ
at_names m rname subreg = do of_name ← at (lookup rname m); at (lookup subreg of_name)

-- NUM_BITS_IN_WORD32 - pos - siz of std::size_t
unfoldable pub low_position : ℕ → ℕ → ℕ
low_position pos siz = (2 ^ 64 + 32 - pos - siz) % 2 ^ 64

-- (value & ((1 << (rpos + siz)) - (1 << rpos))) >> rpos
unfoldable pub field_at : ℕ → ℕ → ℕ → ℕ
field_at v rpos siz = bit_and v (2 ^ (rpos + siz) - 2 ^ rpos) / 2 ^ rpos

-- PadTrigger::getSubRegisterFromRegister, on the object of getFpga().
unfoldable pub get_sub_register_from_register : I2cMasterConfig → String → String → ℕ → Result ℕ
get_sub_register_from_register fpga rname subreg v = do
  pos ← at_names fpga.codec.addr_reg_pos rname subreg
  siz ← at_names fpga.codec.addr_reg_size rname subreg
  ok (field_at v (low_position pos siz) siz)
