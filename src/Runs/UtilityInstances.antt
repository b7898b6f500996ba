-- ===== src/Runs/UtilityInstances.antt =====
-- The theorems on src/Utility.cpp at concrete values.
use nswconfiguration.Common.{◌≡◌, refl, arith, true, false, [], ◌∷◌}
use nswconfiguration.Common.Results.{ok, ◌>>=◌}
use nswconfiguration.Bits.{BitString, bits}
use nswconfiguration.Utility.{
  bit_string, string_to_byte_vector, vector_to_bit_string, integer_to_byte_vector,
  byte_vector_to_word32,
}
use nswconfiguration.Utility.BitStrings.{bit_string-eq-bits}
use nswconfiguration.Utility.Bytes.{
  vector_to_bit_string-string_to_byte_vector, string_to_byte_vector-vector_to_bit_string,
}
use nswconfiguration.Utility.Words.{byte_vector_to_word32-integer_to_byte_vector}
use nswconfiguration.Runs.Digits.{digits_format}

abbrev two_bytes : BitString
two_bytes =
    true ∷ false ∷ true ∷ true ∷ false ∷ false ∷ false ∷ true ∷ false ∷ false ∷ false ∷ false ∷ true
    ∷ false ∷ true ∷ false ∷ []

bit_string-eq-bits_example : bit_string ⦃fmt = digits_format⦄ 300 8 ≡ ok (bits 8 300)
bit_string-eq-bits_example = bit_string-eq-bits ⦃fmt = digits_format⦄ 300 8 (omega arith)

vector_to_bit_string-string_to_byte_vector_example :
    vector_to_bit_string ⦃fmt = digits_format⦄ (string_to_byte_vector two_bytes) false ≡ two_bytes
vector_to_bit_string-string_to_byte_vector_example =
    vector_to_bit_string-string_to_byte_vector ⦃fmt = digits_format⦄ 2 two_bytes refl

string_to_byte_vector-vector_to_bit_string_example :
    string_to_byte_vector (vector_to_bit_string ⦃fmt = digits_format⦄ (177 ∷ 10 ∷ []) false)
    ≡ 177 ∷ 10 ∷ []
string_to_byte_vector-vector_to_bit_string_example =
    string_to_byte_vector-vector_to_bit_string ⦃fmt = digits_format⦄ (177 ∷ 10 ∷ [])
      (omega arith, (omega arith, tt))

byte_vector_to_word32-integer_to_byte_vector_example :
    (integer_to_byte_vector 4 3735928559 4 >>= λ bytes. byte_vector_to_word32 bytes false)
    ≡ ok 3735928559
byte_vector_to_word32-integer_to_byte_vector_example =
    byte_vector_to_word32-integer_to_byte_vector 3735928559 (omega arith)
