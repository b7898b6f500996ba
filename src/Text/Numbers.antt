-- ===== src/Text/Numbers.antt =====
-- std::stoul(s, nullptr, base) on the codes of the characters, with its 64-bit result.
use nswconfiguration.Common.{
  ℕ, ◌+◌, ◌-◌, ◌*◌, ◌%◌, ◌^◌, ◌==◌, ltb, leb, Bool, true, false, List, [], ◌∷◌, ◌||◌, ◌&&◌, Option,
  none, some, if◌then◌else◌,
}
use nswconfiguration.Common.Results.{Result, ok, err, invalid_argument, out_of_range}

in_range : ℕ → ℕ → ℕ → Bool
in_range low high c = leb low c && leb c high

-- The value of a digit or a letter.
unfoldable pub digit_value : ℕ → Option ℕ
unfolding in_range
digit_value c =
    if in_range b'0' b'9' c
    then some (c - b'0')
    else if in_range b'a' b'z' c
    then some (c - b'a' + 10)
    else if in_range b'A' b'Z' c
    then some (c - b'A' + 10)
    else none

-- The same below the base.
unfoldable pub digit_in : ℕ → ℕ → Option ℕ
unfolding digit_value
digit_in base c = elim (digit_value c) [
  | none ↦ none
  | some d ↦ if ltb d base then some d else none
]

-- The longest run of digits, after the number `read` of those before.
unfoldable pub more_digits : ℕ → ℕ → List ℕ → ℕ
unfolding digit_in
more_digits base read [] = read
more_digits base read (c ∷ s) =
    let rest = λ (d : ℕ). more_digits base (read * base + d) s in
    elim (digit_in base c) [ none ↦ read | some d ↦ rest d ]

-- A number takes one digit at least.
unfoldable pub magnitude : ℕ → List ℕ → Result ℕ
unfolding more_digits digit_in
magnitude base [] = err invalid_argument
magnitude base (c ∷ s) = elim (digit_in base c) [
  | none ↦ err invalid_argument
  | some d ↦ ok (more_digits base d s)
]

is_space : ℕ → Bool
is_space c = c == b' ' || in_range 9 13 c

unfoldable pub skip_spaces : List ℕ → List ℕ
unfolding is_space in_range
skip_spaces [] = []
skip_spaces (c ∷ s) = let rest = skip_spaces s in if is_space c then rest else c ∷ s

-- A minus sign, and the rest after a sign.
unfoldable pub sign : List ℕ → Bool × List ℕ
sign [] = (false, [])
sign (c ∷ s) = if c == b'-' then (true, s) else if c == b'+' then (false, s) else (false, c ∷ s)

-- At base 16, "0x" before a digit is skipped.
unfoldable pub skip_prefix : ℕ → List ℕ → List ℕ
unfolding digit_in
skip_prefix base (z ∷ x ∷ c ∷ s) =
    if base == 16 && (z == b'0' && (x == b'x' || x == b'X'))
    then (elim (digit_in base c) [ none ↦ z ∷ x ∷ c ∷ s | some d ↦ c ∷ s ])
    else z ∷ x ∷ c ∷ s
skip_prefix base s = s

-- The result of 64 bits; a number after a minus sign wraps around.
unfoldable pub in_word : Bool → ℕ → Result ℕ
in_word negative m =
    if leb (2 ^ 64) m then err out_of_range else ok (if negative then (2 ^ 64 - m) % 2 ^ 64 else m)

unfoldable pub stoul : ℕ → List ℕ → Result ℕ
unfolding magnitude skip_spaces sign skip_prefix in_word
stoul base s =
    let (negative, rest) = sign (skip_spaces s) in
    elim (magnitude base (skip_prefix base rest)) [ err e ↦ err e | ok m ↦ in_word negative m ]
