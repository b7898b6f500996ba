-- ===== src/Utility/Words.antt =====
-- intToByteVector, integerToByteVector and byteVectorToWord32 agree on the order of the bytes.
use nswconfiguration.Common.{ℕ, ◌^◌, ◌<◌, ◌+◌, ◌*◌, ap, ◌≡◌, arith, Bool, true, false}
use nswconfiguration.Common.Results.{ok, ◌>>=◌}
use nswconfiguration.Utility.{
  int_to_byte_vector, integer_to_byte_vector, byte_at, byte_vector_to_word32,
}

word_bytes :
    (v : ℕ)
    → v < 2 ^ 32
    → byte_at v 0 + 256 * (byte_at v 1 + 256 * (byte_at v 2 + 256 * (byte_at v 3 + 0))) ≡ v
unfolding byte_at
word_bytes v h = omega arith

-- The four bytes of a 32-bit word give the word back, in either byte order.
pub byte_vector_to_word32-int_to_byte_vector :
    (v : ℕ) (little_endian : Bool)
    → v < 2 ^ 32
    → byte_vector_to_word32 (int_to_byte_vector v 4 little_endian) little_endian ≡ ok v
unfolding byte_vector_to_word32 int_to_byte_vector
byte_vector_to_word32-int_to_byte_vector v true h = ap ok (word_bytes v h)
byte_vector_to_word32-int_to_byte_vector v false h = ap ok (word_bytes v h)

-- The big-endian bytes that integerToByteVector writes are read by byteVectorToWord32.
pub byte_vector_to_word32-integer_to_byte_vector :
    (v : ℕ)
    → v < 2 ^ 32
    → (integer_to_byte_vector 4 v 4 >>= λ bytes. byte_vector_to_word32 bytes false) ≡ ok v
unfolding byte_vector_to_word32 integer_to_byte_vector
byte_vector_to_word32-integer_to_byte_vector v h = ap ok (word_bytes v h)
