-- ===== src/Tokens/Hex.antt =====
-- service/persist/token.go: what quantities in hexadecimal stand for.
use go_mutuals.Prelude.{
  ℕ, suc, ◌≤◌, ◌≡◌, refl, false, [], ◌∷◌, arith, leb, ◌==◌, All, ℤ, pos, negsuc, ◌+ℤ◌, ◌-ℤ◌, ok,
  Bool-cases, inl, inr,
}
use go_mutuals.Cursor.Bytes.{Bytes}
use go_mutuals.Numerals.{write_ℕ, write_ℤ}
use go_mutuals.Numerals.RoundTrip.{hexadecimal, decimal, IsDigit, write_ℕ-Written, read_ℤ-write_ℤ}
use go_mutuals.Wallets.{lower, to_lower}
use go_mutuals.Tokens.{
  trim_prefix_0x, must_hex_string, has_prefix_0x, hex_string, hex_big_int, hex_add, hex_sub,
}

lower_digit : (c : ℕ) → IsDigit c → lower c ≡ c
lower_digit c (from, to, letter) = elim (Bool-cases (leb c 57)) [
  | inl number ↦ ground arith
  | inr other ↦ let low : 97 ≤ c = letter (ground arith) in ground arith
]

lower_digits : (s : Bytes) → All IsDigit s → to_lower s ≡ s
unfolding to_lower
lower_digits [] h = refl
lower_digits (c ∷ s) (d, h) = rw (lower_digit c d, lower_digits s h) refl

digits_untrimmed : (s : Bytes) → All IsDigit s → trim_prefix_0x s ≡ s
unfolding trim_prefix_0x
digits_untrimmed [] h = refl
digits_untrimmed (c ∷ []) h = refl
digits_untrimmed (c ∷ d ∷ s) (hc, ((from, to, letter), h)) =
    let not_x : (d == 120) ≡ false = ground arith in
    elim (Bool-cases (c == 48)) [ inl nought ↦ rw (nought, not_x) refl | inr other ↦ rw other refl ]

-- What is written to the base 16 is its own string.
hex_string-write_ℤ : (z : ℤ) → hex_string (write_ℤ 16 z) ≡ write_ℤ 16 z
unfolding hex_string write_ℤ to_lower trim_prefix_0x
hex_string-write_ℤ (pos n) =
    let w = write_ℕ-Written 16 hexadecimal n in
    rw (lower_digits (write_ℕ 16 n) w.digits) (digits_untrimmed (write_ℕ 16 n) w.digits)
hex_string-write_ℤ (negsuc n) =
    let w = write_ℕ-Written 16 hexadecimal (suc n) in
    rw (lower_digits (write_ℕ 16 (suc n)) w.digits) (rw w.is refl)

hex_big_int-write_ℤ : (z : ℤ) → hex_big_int (write_ℤ 16 z) ≡ z
unfolding hex_big_int
hex_big_int-write_ℤ z = rw (hex_string-write_ℤ z, read_ℤ-write_ℤ 16 hexadecimal z, hex_big_int) refl

digits_unprefixed : (s : Bytes) → All IsDigit s → has_prefix_0x s ≡ false
unfolding has_prefix_0x
digits_unprefixed [] h = refl
digits_unprefixed (c ∷ []) h = refl
digits_unprefixed (c ∷ d ∷ s) (hc, ((from, to, letter), h)) =
    let not_x : (d == 120) ≡ false = ground arith in
    elim (Bool-cases (c == 48)) [ inl nought ↦ rw (nought, not_x) refl | inr other ↦ rw other refl ]

no_prefix : (z : ℤ) → has_prefix_0x (write_ℤ 10 z) ≡ false
unfolding has_prefix_0x write_ℤ
no_prefix (pos n) = digits_unprefixed (write_ℕ 10 n) (write_ℕ-Written 10 decimal n).digits
no_prefix (negsuc n) = let w = write_ℕ-Written 10 decimal (suc n) in rw w.is refl

must_hex_string-write_ℤ : (z : ℤ) → must_hex_string (write_ℤ 10 z) ≡ ok (write_ℤ 16 z)
unfolding must_hex_string
must_hex_string-write_ℤ z = rw (no_prefix z, read_ℤ-write_ℤ 10 decimal z, must_hex_string) refl

-- `Add` and `Sub` of any two strings give the sum and the difference of what they stand for, exactly
-- and with its sign; so do they again on the results. A number that `MustHexString` reads to the base
-- 10 is what its result stands for.
pub hex_add-hex_big_int :
    (hex new : Bytes) (z : ℤ)
    → (hex_big_int (hex_add hex new) ≡ hex_big_int hex +ℤ hex_big_int new)
      × (hex_big_int (hex_sub hex new) ≡ hex_big_int hex -ℤ hex_big_int new)
      × ((hex' : Bytes) × (must_hex_string (write_ℤ 10 z) ≡ ok hex') × (hex_big_int hex' ≡ z))
unfolding hex_add hex_sub
hex_add-hex_big_int hex new z = (
  hex_big_int-write_ℤ _,
  hex_big_int-write_ℤ _,
  (write_ℤ 16 z, must_hex_string-write_ℤ z, hex_big_int-write_ℤ z),
)
