-- ===== src/Utility.antt =====
-- src/Utility.cpp and NSWConfiguration/Utility.h: bit strings, byte vectors and 32-bit words.
-- A std::string of the characters '0' and '1' is a list of Booleans, a std::vector<uint8_t> a list
-- of numbers, an unsigned a number below 2 ^ 32.
pub mod Fmt
pub mod BitStrings
pub mod Bytes
pub mod Words
pub mod Overflow
pub mod MaskLoop
pub mod Overwrite
use nswconfiguration.Common.{
  ℕ, zero, suc, ◌+◌, ◌-◌, ◌*◌, ◌/◌, ◌%◌, ◌^◌, String, Bool, true, false, List, [], ◌∷◌, ◌++◌,
  bit_and, bit_or, reverse, length, take, drop, slice, splice, ltb, leb, ◌==◌, not, if◌then◌else◌,
}
use nswconfiguration.Common.Results.{Issue, Result, ok, err, ◌>>=◌, ◌>>◌, throw_if}
use nswconfiguration.Common.Results.{
  out_of_range, invalid_argument, runtime_error, logic_error, register_overflow,
}
use nswconfiguration.Ptree.{Ptree}
use nswconfiguration.Bits.{BitString, value}
use Fmt.{BinaryFormat}

abbrev pub not_used : String
not_used = "NOT_USED"

abbrev pub num_bits_in_byte : ℕ
num_bits_in_byte = 8

abbrev pub max_register_size : ℕ
max_register_size = 32

-- s.substr(pos, n)
unfoldable pub substr {ℓ} : {A : Type ℓ} → List A → ℕ → ℕ → Result (List A)
substr s pos n = if ltb (length s) pos then err out_of_range else ok (slice pos n s)

-- s.replace(pos, n, t)
unfoldable pub replace {ℓ} : {A : Type ℓ} → List A → ℕ → ℕ → List A → Result (List A)
replace s pos n t = if ltb (length s) pos then err out_of_range else ok (splice pos n t s)

-- std::stoul(s, nullptr, 2), with its 64-bit result.
unfoldable pub stoul_binary : BitString → Result ℕ
stoul_binary s = do
  throw_if (length s == 0) invalid_argument
  throw_if (leb (2 ^ 64) (value s)) out_of_range
  ok (value s)

-- nsw::checkOverflow. The power is taken of doubles, which is exact at the sizes in use.
unfoldable pub check_overflow : ℕ → ℕ → String → Result (Unit {0})
check_overflow register_size v register_name =
    throw_if (leb (2 ^ register_size) v) (register_overflow register_name)

module _ ⦃fmt : BinaryFormat⦄ where
  -- nsw::bitString
  unfoldable pub bit_string : ℕ → ℕ → Result BitString
  bit_string v nbits = do
    throw_if (ltb max_register_size nbits) out_of_range
    let str = fmt.format v nbits
    if ltb nbits (length str) then substr str (length str - nbits) (length str) else ok str

  -- nsw::reversedBitString
  unfoldable pub reversed_bit_string : ℕ → ℕ → Result BitString
  reversed_bit_string v nbits = do str ← bit_string v nbits; ok (reverse str)

  -- nsw::vectorToBitString: each byte in the format {:08b}, joined.
  unfoldable pub join_bits : List ℕ → BitString
  join_bits [] = []
  join_bits (b ∷ bytes) = fmt.format b 8 ++ join_bits bytes

  unfoldable pub vector_to_bit_string : List ℕ → Bool → BitString
  vector_to_bit_string bytes little_endian =
      join_bits (if little_endian then reverse bytes else bytes)

-- The loop of nsw::stringToByteVector, at the rest of the string from `pos` on.
unfoldable pub byte_loop : ℕ → BitString → List ℕ
byte_loop zero rest = []
byte_loop (suc fuel) [] = []
byte_loop (suc fuel) (b ∷ rest) =
    (value (take 8 (b ∷ rest)) % 256) ∷ byte_loop fuel (drop 8 (b ∷ rest))

-- nsw::stringToByteVector. Each round takes a character at least.
unfoldable pub string_to_byte_vector : BitString → List ℕ
unfolding byte_loop
string_to_byte_vector bitstr = byte_loop (length bitstr) bitstr

-- v << n on 32 bits; a shift by 32 or more is not defined in C++, and gives 0 here.
unfoldable pub shift_left : ℕ → ℕ → ℕ
shift_left v n = v * 2 ^ n % 2 ^ 32

-- The loop of nsw::overwriteBits that builds the mask, with `left` rounds to go.
unfoldable pub mask_loop : ℕ → ℕ → ℕ → ℕ
unfolding shift_left
mask_loop zero it mask = mask
mask_loop (suc left) it mask = mask_loop left (it + 1) ((mask + shift_left 1 it) % 2 ^ 32)

-- nsw::overwriteBits
unfoldable pub overwrite_bits : ℕ → ℕ → ℕ → ℕ → Result ℕ
unfolding mask_loop shift_left
overwrite_bits original v position nbits = do
  throw_if (leb (shift_left 1 nbits) v) runtime_error
  throw_if (leb 32 position) runtime_error
  throw_if (leb 32 nbits) runtime_error
  let mask = mask_loop nbits position 0
  ok (bit_or (bit_and original (2 ^ 32 - 1 - mask)) (shift_left v position))

-- static_cast<uint8_t>(value >> (i * 8))
unfoldable pub byte_at : ℕ → ℕ → ℕ
byte_at v i = v / 2 ^ (i * num_bits_in_byte) % 256

-- for (i = 0; i < n; i++) v.at(i) = f(i), from index i on.
unfoldable pub tabulate : ℕ → ℕ → (ℕ → ℕ) → List ℕ
tabulate i zero f = []
tabulate i (suc n) f = f i ∷ tabulate (i + 1) n f

-- nsw::intToByteVector, for at most four bytes: a wider shift is not defined.
unfoldable pub int_to_byte_vector : ℕ → ℕ → Bool → List ℕ
unfolding byte_at tabulate
int_to_byte_vector v nbytes little_endian =
    let byte_vector = tabulate 0 nbytes (byte_at v) in
    if not little_endian then reverse byte_vector else byte_vector

-- nsw::integerToByteVector at a type of `size_of_val` bytes.
unfoldable pub integer_to_byte_vector : ℕ → ℕ → ℕ → Result (List ℕ)
unfolding byte_at tabulate
integer_to_byte_vector size_of_val v n_bytes = do
  throw_if (ltb size_of_val n_bytes) logic_error
  ok (tabulate 0 n_bytes (λ i. byte_at v (n_bytes - 1 - i)))

-- std::memcpy into a uint32_t on a little-endian machine.
unfoldable pub load : List ℕ → ℕ
load [] = 0
load (b ∷ bytes) = b + 256 * load bytes

-- nsw::byteVectorToWord32
unfoldable pub byte_vector_to_word32 : List ℕ → Bool → Result ℕ
unfolding load
byte_vector_to_word32 vec little_endian = do
  throw_if (not (length vec == 4)) runtime_error
  ok (load (if not little_endian then reverse vec else vec))

-- The loop of nsw::buildPtreeFromVector.
unfoldable pub push_values : {Tree : Type 0} ⦃pt : Ptree Tree⦄ → List ℕ → Tree → Tree
push_values [] temp = temp
push_values ⦃pt = pt⦄ (v ∷ vec) temp =
    push_values vec (pt.push_back temp "" (pt.put_value pt.empty v))

-- nsw::buildPtreeFromVector
unfoldable pub build_ptree_from_vector : {Tree : Type 0} ⦃pt : Ptree Tree⦄ → List ℕ → Tree
unfolding push_values
build_ptree_from_vector ⦃pt = pt⦄ vec = push_values vec pt.empty

-- nsw::constructUint128t
unfoldable pub construct_uint128t : ℕ → ℕ → ℕ
construct_uint128t msbs lsbs = (msbs * 2 ^ 64 % 2 ^ 128 + lsbs) % 2 ^ 128
