-- ===== src/Numerals.antt =====
-- Numbers as text, as `strconv.Atoi`, `fmt` with %d and the methods SetString and Text of `big.Int`
-- read and write them, and `strings.Split`.
pub mod RoundTrip
use go_mutuals.Prelude.{
  ℕ, zero, suc, ◌+◌, ◌-◌, ◌*◌, ◌/◌, ◌%◌, ◌^◌, Bool, true, false, ◌&&◌, ◌||◌, Option, none, some,
  List, [], ◌∷◌, ltb, leb, ◌==◌, if◌then◌else◌, ℤ, pos, negsuc, ltb_ℤ, leb_ℤ,
}
use go_mutuals.Cursor.Bytes.{Bytes}

-- The digits to the base 16, of which smaller bases use the first.
unfoldable pub digit : ℕ → ℕ
digit d = if ltb d 10 then d + b'0' else d - 10 + b'a'

unfoldable pub digit_value : ℕ → Option ℕ
digit_value c =
    if leb b'0' c && leb c b'9'
    then some (c - b'0')
    else (if leb b'a' c && leb c b'z'
        then some (c - b'a' + 10)
        else (if leb b'A' c && leb c b'Z' then some (c - b'A' + 10) else none))

-- The digits of a number in front of `text`.
unfoldable pub write_digits : ℕ → ℕ → ℕ → Bytes → Bytes
write_digits base zero n text = text
write_digits base (suc fuel) n text = elim (ltb n base) [
  | true ↦ digit n ∷ text
  | false ↦ write_digits base fuel (n / base) (digit (n % base) ∷ text)
]

-- All of a string as digits, after those that make `n`.
unfoldable pub read_digits : ℕ → Bytes → ℕ → Option ℕ
read_digits base [] n = some n
read_digits base (c ∷ s) n = elim (digit_value c) [
  | none ↦ none
  | some d ↦ elim (ltb d base) [ true ↦ read_digits base s (n * base + d) | false ↦ none ]
]

unfoldable pub write_ℕ : ℕ → ℕ → Bytes
write_ℕ base n = write_digits base (n + 1) n []

-- `big.Int.Text`, and `%d` with the base 10.
unfoldable pub write_ℤ : ℕ → ℤ → Bytes
write_ℤ base (pos n) = write_ℕ base n
write_ℤ base (negsuc n) = b'-' ∷ write_ℕ base (suc n)

unfoldable pub read_ℕ : ℕ → Bytes → Option ℕ
read_ℕ base [] = none
read_ℕ base (c ∷ s) = read_digits base (c ∷ s) 0

abbrev pub negate : ℕ → ℤ
negate zero = pos 0
negate (suc n) = negsuc n

-- `big.Int.SetString`, for bases of 2 to 16: digits after a sign, which need not be there.
unfoldable pub read_ℤ : ℕ → Bytes → Option ℤ
read_ℤ base [] = none
read_ℤ base (c ∷ s) =
    if c == b'-'
    then elim (read_ℕ base s) [ none ↦ none | some n ↦ some (negate n) ]
    else (if c == b'+'
        then elim (read_ℕ base s) [ none ↦ none | some n ↦ some (pos n) ]
        else elim (read_ℕ base (c ∷ s)) [ none ↦ none | some n ↦ some (pos n) ])

-- An `int` of 64 bits.
abbrev pub in_int64 : ℤ → Bool
in_int64 (pos n) = ltb n 9223372036854775808
in_int64 (negsuc n) = ltb n 9223372036854775808

-- `strconv.Atoi`, none on an error.
unfoldable pub atoi : Bytes → Option ℤ
atoi s = elim (read_ℤ 10 s) [ none ↦ none | some n ↦ if in_int64 n then some n else none ]

-- `strings.Split` with a separator of one byte.
abbrev pub push_byte : ℕ → List Bytes → List Bytes
push_byte c [] = (c ∷ []) ∷ []
push_byte c (piece ∷ pieces) = (c ∷ piece) ∷ pieces

unfoldable pub split : ℕ → Bytes → List Bytes
split sep [] = [] ∷ []
split sep (c ∷ s) = let pieces = split sep s in if c == sep then [] ∷ pieces else push_byte c pieces
