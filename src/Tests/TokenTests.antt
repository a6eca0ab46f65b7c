-- ===== src/Tests/TokenTests.antt =====
-- A quantity, an id and a key.
use go_mutuals.Prelude.{◌≡◌, ◌≢◌, refl, [], ◌∷◌, arith, pos, ◌+ℤ◌, ◌-ℤ◌, ok, err, panics}
use go_mutuals.Cursor.Bytes.{Bytes}
use go_mutuals.Numerals.{
  digit, digit_value, write_digits, read_digits, write_ℕ, write_ℤ, read_ℕ, read_ℤ,
}
use go_mutuals.Wallets.{to_lower}
use go_mutuals.Wallets.Formats.{a_string, normalize_address}
use go_mutuals.Tokens.{
  invalid_token_chain_address, hex_string, trim_prefix_0x, must_hex_string, hex_big_int, hex_add,
  hex_sub, TokenChainAddress, token_string, as_json_key, from_json_key, token_scan,
}
use go_mutuals.Tokens.Hex.{hex_add-hex_big_int}
use go_mutuals.Tokens.Keys.{HasNoPlus, from_json_key-as_json_key, token_scan_fails}

-- 0xFF and 0x10
abbrev ff : Bytes
ff = b'0' ∷ b'x' ∷ b'F' ∷ b'F' ∷ []

abbrev ten : Bytes
ten = b'1' ∷ b'0' ∷ []

added : hex_add ff ten ≡ b'1' ∷ b'0' ∷ b'f' ∷ []
unfolding hex_add hex_big_int hex_string trim_prefix_0x to_lower read_ℤ read_ℕ read_digits
    digit_value write_ℤ write_ℕ write_digits digit ◌+ℤ◌
added = refl

subtracted : hex_sub ten ff ≡ b'-' ∷ b'e' ∷ b'f' ∷ []
unfolding hex_sub hex_big_int hex_string trim_prefix_0x to_lower read_ℤ read_ℕ read_digits
    digit_value write_ℤ write_ℕ write_digits digit ◌-ℤ◌
subtracted = refl

hex_add-hex_big_int_example :
    (hex_big_int (hex_add ff ten) ≡ hex_big_int ff +ℤ hex_big_int ten)
    × (hex_big_int (hex_sub ff ten) ≡ hex_big_int ff -ℤ hex_big_int ten)
    × ((hex' : Bytes) × (must_hex_string (write_ℤ 10 (pos 26)) ≡ ok hex')
        × (hex_big_int hex' ≡ pos 26))
hex_add-hex_big_int_example = hex_add-hex_big_int ff ten (pos 26)

-- 0x00A1
abbrev padded : Bytes
padded = b'0' ∷ b'x' ∷ b'0' ∷ b'0' ∷ b'A' ∷ b'1' ∷ []

abbrev token : TokenChainAddress
token = record { address = b'A' ∷ b'b' ∷ []; chain = pos 4 }

token-HasNoPlus : HasNoPlus token.address
token-HasNoPlus = (λ e. omega arith, (λ e. omega arith, tt))

from_json_key-as_json_key_example :
    (from_json_key (as_json_key token) ≡ ok token)
    × (from_json_key (token_string token)
        ≡ ok (record token { address = normalize_address token.chain token.address }))
from_json_key-as_json_key_example = from_json_key-as_json_key token token-HasNoPlus refl

token_scan_fails_example :
    ((result : TokenChainAddress) → token_scan (a_string ff) ≢ ok result)
    × (HasNoPlus ff → token_scan (a_string ff) ≡ panics)
    × (token_scan (a_string (token_string token)) ≡ err invalid_token_chain_address)
token_scan_fails_example = token_scan_fails ff token token-HasNoPlus
