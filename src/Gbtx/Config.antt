-- ===== src/Gbtx/Config.antt =====
-- nsw::GBTxConfig of src/GBTxConfig.cpp: the bytes of a GBTx and the settings in them. A method
-- returns the object as it leaves it, also when it throws, and its result.
pub mod Bytes
pub mod Settings
pub mod Training
pub mod Phases
use Prim.Native.Nat.{bit_or}
use nswconfiguration.Common.{
  ℕ, zero, suc, ◌+◌, ◌*◌, ◌/◌, ◌%◌, ◌^◌, ltb, ◌==◌, String, Bool, true, false, List, [], ◌∷◌, ◌++◌,
  length, get_elem?, set, replicate, not, if◌then◌else◌, ◌||◌, Option, none, some,
}
use nswconfiguration.Common.Results.{
  Result, ok, err, ◌>>=◌, at, and_then, out_of_range, board_issue, invalid_gbtx_training_type,
}
use nswconfiguration.Common.Assoc.{Assoc, lookup}
use nswconfiguration.Text.{contains}
use nswconfiguration.Gbtx.Map.{RegMap}
use nswconfiguration.Gbtx.Maps.{compiled_gbtx_register_map}

abbrev pub num_gbtx_writable_registers : ℕ
num_gbtx_writable_registers = 436

abbrev pub size_gbtx_register : ℕ
size_gbtx_register = 8

pub record GbtxConfig : Type 0 where
  pub config : List ℕ
  pub register_maps : Assoc RegMap
  pub gbtx_type : String
  pub active : Bool

-- GBTxConfig::GBTxConfig
unfoldable pub gbtx_config : GbtxConfig
gbtx_config = record {
  config = replicate num_gbtx_writable_registers 0;
  register_maps = compiled_gbtx_register_map;
  gbtx_type = "none";
  active = false;
}

-- value << shift, as a byte.
unfoldable pub shifted : ℕ → ℕ → ℕ
shifted v shift = v % 256 * 2 ^ shift % 256

-- m_config.at(r) |= b
unfoldable pub or_into : List ℕ → ℕ → ℕ → Option ℕ → List ℕ × Result (Unit {0})
or_into config r b none = (config, err out_of_range)
or_into config r b (some old) = (set config r (bit_or old b), ok tt)

-- GBTxConfig::setRegister
unfoldable pub set_register : List ℕ → ℕ → ℕ → ℕ → List ℕ × Result (Unit {0})
unfolding or_into shifted
set_register config r v shift =
    if not (ltb shift size_gbtx_register)
    then (config, err board_issue)
    else if not (ltb r num_gbtx_writable_registers)
    then (config, err board_issue)
    else or_into config r (shifted v shift) (get_elem? config r)

-- The loop of GBTxConfig::set.
unfoldable pub set_loop : List ℕ → ℕ → List ℕ → List ℕ → List ℕ × Result (Unit {0})
set_loop config v [] shifts = (config, ok tt)
set_loop config v (r ∷ registers) [] = (config, err out_of_range)
set_loop config v (r ∷ registers) (shift ∷ shifts) =
    and_then (set_register config r v shift) (λ changed. set_loop changed v registers shifts)

-- The loop of GBTxConfig::reset.
unfoldable pub zero_loop : List ℕ → List ℕ → List ℕ × Result (Unit {0})
zero_loop config [] = (config, ok tt)
zero_loop config (r ∷ registers) =
    let rest = zero_loop (set config r 0) registers in
    if ltb r (length config) then rest else (config, err out_of_range)

-- The object with other bytes.
abbrev pub with_config : GbtxConfig → List ℕ × Result (Unit {0}) → GbtxConfig × Result (Unit {0})
with_config c (config, result) = (record c { config = config }, result)

-- The rest of GBTxConfig::set behind the search for the name.
abbrev pub set_found : GbtxConfig → ℕ → Option RegMap → GbtxConfig × Result (Unit {0})
set_found c v none = (c, err board_issue)
set_found c v (some rg) = with_config c (set_loop c.config v rg.registers rg.shifts)

-- GBTxConfig::set
unfoldable pub set_setting : GbtxConfig → String → ℕ → GbtxConfig × Result (Unit {0})
set_setting c name v = set_found c v (lookup name c.register_maps)

abbrev pub reset_found : GbtxConfig → String → ℕ → Option RegMap → GbtxConfig × Result (Unit {0})
reset_found c name v none = (c, err out_of_range)
reset_found c name v (some rg) =
    and_then (with_config c (zero_loop c.config rg.registers)) (λ zeroed. set_setting zeroed name v)

-- GBTxConfig::reset
unfoldable pub reset : GbtxConfig → String → ℕ → GbtxConfig × Result (Unit {0})
reset c name v = reset_found c name v (lookup name c.register_maps)

-- Calls of reset one after another.
unfoldable pub resets : List (String × ℕ) → GbtxConfig → GbtxConfig × Result (Unit {0})
resets [] c = (c, ok tt)
resets (call ∷ calls) c = and_then (reset c call.0 call.1) (resets calls)

-- GBTxConfig::isType
unfoldable pub is_type : GbtxConfig → String → Bool
is_type c type = contains c.gbtx_type type

unfoldable pub trainable : GbtxConfig → Bool
trainable c = is_type c "mmg" || (is_type c "pfeb" || (is_type c "sfeb" || is_type c "rim"))

abbrev invalid_type : GbtxConfig → GbtxConfig × Result (Unit {0})
invalid_type c = (c, err (invalid_gbtx_training_type c.gbtx_type))

abbrev pub resets_on : List (String × ℕ)
resets_on =
    ("paResetEC", 1)
    ∷ ("paResetGroup0", 0)
    ∷ ("paResetGroup1", 255)
    ∷ ("paResetGroup2", 255)
    ∷ ("paResetGroup3", 255)
    ∷ ("paResetGroup4", 255)
    ∷ ("paResetGroup5", 0)
    ∷ ("paResetGroup6", 0)
    ∷ []

-- The calls where the value of group 1 is `one`.
abbrev pub resets_off : ℕ → List (String × ℕ)
resets_off one =
    ("paResetEC", 0)
    ∷ ("paResetGroup0", 0)
    ∷ ("paResetGroup1", one)
    ∷ ("paResetGroup2", 0)
    ∷ ("paResetGroup3", 0)
    ∷ ("paResetGroup4", 0)
    ∷ ("paResetGroup5", 0)
    ∷ ("paResetGroup6", 0)
    ∷ []

-- The calls where the value of the groups 0 to 4 is `v`.
abbrev pub trains : ℕ → List (String × ℕ)
trains v =
    ("paTrainGroup0", v)
    ∷ ("paTrainGroup1", v)
    ∷ ("paTrainGroup2", v)
    ∷ ("paTrainGroup3", v)
    ∷ ("paTrainGroup4", v)
    ∷ ("paTrainGroup5", 0)
    ∷ ("paTrainGroup6", 0)
    ∷ []

-- GBTxConfig::setResetChannelsOn
unfoldable pub set_reset_channels_on : GbtxConfig → GbtxConfig × Result (Unit {0})
set_reset_channels_on c = if trainable c then resets resets_on c else invalid_type c

-- GBTxConfig::setResetChannelsOff
unfoldable pub set_reset_channels_off : GbtxConfig → GbtxConfig × Result (Unit {0})
set_reset_channels_off c =
    if is_type c "mmg"
    then resets (resets_off 1) c
    else if trainable c
    then resets (resets_off 0) c
    else invalid_type c

-- GBTxConfig::setEcTrainingRegisters
unfoldable pub set_ec_training_registers : GbtxConfig → Bool → GbtxConfig × Result (Unit {0})
set_ec_training_registers c on = reset c "paTrainEC" (if on then 1 else 0)

-- GBTxConfig::setTrainingRegistersOn: the mode is set before the type is checked.
unfoldable pub set_training_registers_on : GbtxConfig → GbtxConfig × Result (Unit {0})
set_training_registers_on c =
    and_then (reset c "paMode" 1)
      (λ d. if trainable d then resets (trains 255) d else invalid_type d)

-- GBTxConfig::setTrainingRegistersOff
unfoldable pub set_training_registers_off : GbtxConfig → GbtxConfig × Result (Unit {0})
set_training_registers_off c = if trainable c then resets (trains 0) c else invalid_type c

-- GBTxConfig::setConfig: the loop copies every byte.
unfoldable pub set_config : GbtxConfig → List ℕ → GbtxConfig × Result (Unit {0})
set_config c config =
    if not (length c.config == length config)
    then (c, err board_issue)
    else (record c { config = config }, ok tt)

-- The loop of GBTxConfig::getPhasesVector from register i on, for n registers.
unfoldable pub phases_loop : List ℕ → ℕ → ℕ → Result (List ℕ)
phases_loop config i zero = do b ← at (get_elem? config 398); ok (b % 16 ∷ [])
phases_loop config i (suc n) = do
  b ← at (get_elem? config i)
  rest ← phases_loop config (i + 1) n
  ok (b % 16 ∷ b / 16 ∷ rest)

-- GBTxConfig::getPhasesVector
unfoldable pub get_phases_vector : List ℕ → Result (List ℕ)
get_phases_vector config = phases_loop config 399 28
