-- ===== src/Runs/Fpgas.antt =====
-- A register file for the FPGA of the pad trigger, and runs of the register operations over it.
use nswconfiguration.Common.{
  ℕ, ◌%◌, ◌==◌, ◌≡◌, ◌≢◌, refl, ap, arith, true, false, List, [], ◌∷◌, length, All, if◌then◌else◌,
}
use nswconfiguration.Common.Results.{Result, ok, err, opc_read_write_issue}
use nswconfiguration.I2c.Codec.{i2c_master_codec}
use nswconfiguration.I2c.Config.{I2cMasterConfig}
use nswconfiguration.I2c.Maps.{registers, padtrigger}
use nswconfiguration.Utility.Bytes.{IsByte}
use nswconfiguration.PadTrigger.Link.{FpgaLink}

-- Four numbers at each address; a byte is kept of each.
abbrev pub File : Type 0
File = ℕ → ℕ × ℕ × ℕ × ℕ

abbrev pub bytes_of : ℕ × ℕ × ℕ × ℕ → List ℕ
bytes_of (x, y, z, t) = x % 256 ∷ y % 256 ∷ z % 256 ∷ t % 256 ∷ []

-- A payload of an address and four bytes is stored.
abbrev pub store : List ℕ → File → File
store (a ∷ x ∷ y ∷ z ∷ t ∷ []) d b = if a == b then (x, y, z, t) else d b
store other d b = d b

abbrev pub fetch : List ℕ → File → Result (List ℕ)
fetch (a ∷ []) d = ok (bytes_of (d a))
fetch other d = err opc_read_write_issue

equal_self : (a : ℕ) → (a == a) ≡ true
equal_self a = ground arith

differ : (a b : ℕ) → a ≢ b → (a == b) ≡ false
differ a b h = ground arith

low_byte : (b : ℕ) → IsByte b → b % 256 ≡ b
low_byte b h = omega arith

pub stored :
    (a : ℕ) (bytes : List ℕ) (d : File)
    → length bytes ≡ 4
    → All IsByte bytes
    → bytes_of (store (a ∷ bytes) d a) ≡ bytes
stored a [] d h k = absurd (omega arith)
stored a (x ∷ []) d h k = absurd (omega arith)
stored a (x ∷ (y ∷ [])) d h k = absurd (omega arith)
stored a (x ∷ (y ∷ (z ∷ []))) d h k = absurd (omega arith)
stored a (x ∷ (y ∷ (z ∷ (t ∷ (u ∷ rest))))) d h k = absurd (omega arith)
stored a (x ∷ (y ∷ (z ∷ (t ∷ [])))) d h (hx, (hy, (hz, (ht, e)))) =
    rw (equal_self a, low_byte x hx, low_byte y hy, low_byte z hz, low_byte t ht) refl

pub not_stored : (a b : ℕ) (bytes : List ℕ) (d : File) → a ≢ b → store (a ∷ bytes) d b ≡ d b
not_stored a b [] d h = refl
not_stored a b (x ∷ []) d h = refl
not_stored a b (x ∷ (y ∷ [])) d h = refl
not_stored a b (x ∷ (y ∷ (z ∷ []))) d h = refl
not_stored a b (x ∷ (y ∷ (z ∷ (t ∷ (u ∷ rest))))) d h = refl
not_stored a b (x ∷ (y ∷ (z ∷ (t ∷ [])))) d h = rw (differ a b h) refl

unfoldable pub register_file : FpgaLink File
register_file = record {
  send_i2c_raw = λ payload d. (store payload d, ok tt);
  read_i2c_at_address = λ address n d. (d, fetch address d);
  online = λ d. true;
  writable = λ a. true;
  content = λ d a. bytes_of (d a);
  content-word = λ d a. (refl, (omega arith, (omega arith, (omega arith, (omega arith, tt)))));
  send-ok = λ d a bytes up. refl;
  send-online = λ d payload up. refl;
  send-content = λ d a bytes up can four small. stored a bytes d four small;
  send-content_ne = λ d a b bytes can other. ap bytes_of (not_stored a b bytes d other);
  read-ok = λ d a up can. refl;
  read-online = λ d address n up. refl;
  read-content = λ d address n b can. refl;
  read-bytes = λ d a up.
      (bytes_of (d a), refl, refl, (omega arith, (omega arith, (omega arith, (omega arith, tt)))));
}

-- The FPGA object is made without reading a value of the tree.
abbrev pub padtrigger_fpga : I2cMasterConfig
padtrigger_fpga = record { codec = i2c_master_codec (registers padtrigger); address_bitstream = [] }

abbrev pub blank : File
blank a = (0, 0, 0, 0)
