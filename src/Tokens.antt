-- ===== src/Tokens.antt =====
-- service/persist/token.go and util/numbers.go: token ids and quantities as text, and the keys that
-- tokens are known by. A method that changes its receiver gives the new value.
pub mod Hex
pub mod Ids
pub mod Keys
use go_mutuals.Prelude.{
  ℕ, zero, suc, Bool, true, false, ◌&&◌, Option, none, some, List, [], ◌∷◌, ◌++◌, ◌==◌,
  if◌then◌else◌, ℤ, pos, negsuc, ◌+ℤ◌, ◌-ℤ◌, ltb_ℤ, Outcome, ok, err, panics, ◌>>=◌,
}
use go_mutuals.Cursor.Bytes.{Bytes, eq_bytes}
use go_mutuals.Numerals.{write_ℤ, read_ℤ, atoi, split}
use go_mutuals.Wallets.{to_lower}
use go_mutuals.Wallets.Formats.{
  Any, a_nil, another, a_string, an_int, an_int32, a_float64, a_chain, normalize_address,
}

-- What the decoders refuse.
pub data Refused : Type 0 where
  invalid_token_chain_address not_a_number not_an_integer bad_format bad_exponent negative_exponent
        wrong_type :
      Refused

-- `strings.HasPrefix` and `strings.TrimPrefix` with "0x".
unfoldable pub has_prefix_0x : Bytes → Bool
has_prefix_0x [] = false
has_prefix_0x (c ∷ []) = false
has_prefix_0x (c ∷ d ∷ s) = c == b'0' && d == b'x'

unfoldable pub trim_prefix_0x : Bytes → Bytes
trim_prefix_0x [] = []
trim_prefix_0x (c ∷ []) = c ∷ []
trim_prefix_0x (c ∷ d ∷ s) = if c == b'0' && d == b'x' then s else c ∷ d ∷ s

-- `MustHexString`
unfoldable pub must_hex_string : Bytes → Outcome Refused Bytes
must_hex_string s =
    let read = if has_prefix_0x s then read_ℤ 16 (trim_prefix_0x s) else read_ℤ 10 s in
    elim read [ none ↦ panics | some v ↦ ok (write_ℤ 16 v) ]

-- `HexString.String`, `BigInt`, `Add` and `Sub`.
unfoldable pub hex_string : Bytes → Bytes
hex_string hex = trim_prefix_0x (to_lower hex)

unfoldable pub hex_big_int : Bytes → ℤ
hex_big_int hex = elim (read_ℤ 16 (hex_string hex)) [
  | some it ↦ it
  | none ↦ elim (read_ℤ 10 (hex_string hex)) [ none ↦ pos 0 | some it ↦ it ]
]

unfoldable pub hex_add : Bytes → Bytes → Bytes
hex_add hex new = write_ℤ 16 (hex_big_int hex +ℤ hex_big_int new)

unfoldable pub hex_sub : Bytes → Bytes → Bytes
hex_sub hex new = write_ℤ 16 (hex_big_int hex -ℤ hex_big_int new)

-- `RemoveLeftPaddedZeros`
unfoldable pub without_zeros : Bytes → Bytes
without_zeros [] = []
without_zeros (c ∷ s) = let rest = without_zeros s in if c == b'0' then rest else c ∷ rest

-- The rest from the first byte that is not a zero, or all of `str`.
unfoldable pub from_first_digit : Bytes → Bytes → Bytes
from_first_digit str [] = str
from_first_digit str (c ∷ s) =
    let rest = from_first_digit str s in if c == b'0' then rest else c ∷ s

abbrev pub zero_text : Bytes
zero_text = b'0' ∷ []

unfoldable pub remove_left_padded_zeros : Bytes → Bytes
remove_left_padded_zeros str =
    if eq_bytes str (b'0' ∷ b'x' ∷ [])
    then zero_text
    else (let trimmed = trim_prefix_0x str in
        if eq_bytes (without_zeros trimmed) [] then zero_text else from_first_digit trimmed trimmed)

-- `HexTokenID.String`, `BigInt`, `ToDecimalTokenID`, `MarshalGQL` without its quotes, and
-- `UnmarshalGQL`.
unfoldable pub hex_id_string : Bytes → Bytes
hex_id_string id = to_lower (remove_left_padded_zeros id)

unfoldable pub hex_id_big_int : Bytes → Outcome Refused ℤ
hex_id_big_int id =
    let normalized = hex_id_string id in
    if eq_bytes normalized []
    then ok (pos 0)
    else elim (read_ℤ 16 normalized) [ none ↦ panics | some i ↦ ok i ]

unfoldable pub to_decimal_token_id : Bytes → Outcome Refused Bytes
to_decimal_token_id id = do i ← hex_id_big_int id; ok (write_ℤ 10 i)

unfoldable pub hex_id_marshal_gql : Bytes → Bytes
hex_id_marshal_gql id = b'0' ∷ b'x' ∷ hex_id_string id

unfoldable pub hex_id_unmarshal_gql : Any → Bytes → Outcome Refused Bytes
hex_id_unmarshal_gql (a_string val) id =
    if has_prefix_0x val
    then ok (hex_id_string val)
    else elim (atoi val) [ none ↦ err not_a_number | some n ↦ ok (write_ℤ 16 n) ]
hex_id_unmarshal_gql a_nil id = ok id
hex_id_unmarshal_gql another id = ok id
hex_id_unmarshal_gql (an_int n) id = ok id
hex_id_unmarshal_gql (an_int32 n) id = ok id
hex_id_unmarshal_gql (a_float64 n) id = ok id
hex_id_unmarshal_gql (a_chain n) id = ok id

-- `DecimalTokenID.String`, `BigInt`, `ToHexTokenID`, `UnmarshalGQL` and `Scan`.
unfoldable pub decimal_id_string : Bytes → Bytes
decimal_id_string id = remove_left_padded_zeros id

unfoldable pub decimal_id_big_int : Bytes → Outcome Refused ℤ
decimal_id_big_int id =
    let normalized = decimal_id_string id in
    if eq_bytes normalized []
    then ok (pos 0)
    else elim (read_ℤ 10 normalized) [ none ↦ panics | some i ↦ ok i ]

unfoldable pub to_hex_token_id : Bytes → Outcome Refused Bytes
to_hex_token_id id = do i ← decimal_id_big_int id; ok (write_ℤ 16 i)

unfoldable pub decimal_id_unmarshal_gql : Any → Outcome Refused Bytes
decimal_id_unmarshal_gql (a_string val) = elim (read_ℤ 10 val) [
  | some i ↦ ok (write_ℤ 10 i)
  | none ↦ err not_an_integer
]
decimal_id_unmarshal_gql a_nil = err not_an_integer
decimal_id_unmarshal_gql another = err not_an_integer
decimal_id_unmarshal_gql (an_int n) = err not_an_integer
decimal_id_unmarshal_gql (an_int32 n) = err not_an_integer
decimal_id_unmarshal_gql (a_float64 n) = err not_an_integer
decimal_id_unmarshal_gql (a_chain n) = err not_an_integer

abbrev pub append_zeros : ℕ → Bytes → Bytes
append_zeros zero base = base
append_zeros (suc n) base = append_zeros n (base ++ zero_text)

abbrev pub expand_parts : Bytes → List Bytes → Outcome Refused Bytes
expand_parts s [] = err bad_format
expand_parts s (part ∷ []) = ok s
expand_parts s (base ∷ exp_part ∷ []) = elim (atoi exp_part) [
  | none ↦ err bad_exponent
  | some (pos exponent) ↦ ok (append_zeros exponent base)
  | some (negsuc n) ↦ err negative_exponent
]
expand_parts s (p ∷ q ∷ r ∷ parts) = err bad_format

unfoldable pub expand_numeric_string : Bytes → Outcome Refused Bytes
expand_numeric_string s = expand_parts s (split b'e' s)

unfoldable pub decimal_id_scan : Any → Outcome Refused Bytes
decimal_id_scan a_nil = ok []
decimal_id_scan (a_string str) = expand_numeric_string str
decimal_id_scan another = err wrong_type
decimal_id_scan (an_int n) = err wrong_type
decimal_id_scan (an_int32 n) = err wrong_type
decimal_id_scan (a_float64 n) = err wrong_type
decimal_id_scan (a_chain n) = err wrong_type

pub record TokenChainAddress : Type 0 where
  pub address : Bytes
  pub chain : ℤ

-- `TokenChainAddress.String`, which `Value` gives to the database, and `AsJSONKey`.
unfoldable pub token_string : TokenChainAddress → Bytes
token_string t = normalize_address t.chain t.address ++ b'+' ∷ write_ℤ 10 t.chain

unfoldable pub as_json_key : TokenChainAddress → Bytes
as_json_key t = t.address ++ b'+' ∷ write_ℤ 10 t.chain

-- `TokenChainAddress.FromJSONKey`, and `TokenChainAddressFromString`, which does the same.
abbrev pub token_from_parts : List Bytes → Outcome Refused TokenChainAddress
token_from_parts [] = err invalid_token_chain_address
token_from_parts (p ∷ []) = err invalid_token_chain_address
token_from_parts (address ∷ number ∷ []) = elim (atoi number) [
  | none ↦ err not_a_number
  | some chain ↦ ok (record { address = address; chain = chain })
]
token_from_parts (p ∷ q ∷ r ∷ parts) = err invalid_token_chain_address

unfoldable pub from_json_key : Bytes → Outcome Refused TokenChainAddress
from_json_key key = token_from_parts (split b'+' key)

-- `TokenChainAddress.Scan`: it goes on where there is one part, and reads `res[1]`.
abbrev pub scan_parts : List Bytes → Outcome Refused TokenChainAddress
scan_parts [] = err invalid_token_chain_address
scan_parts (p ∷ []) = panics
scan_parts (p ∷ q ∷ parts) = err invalid_token_chain_address

unfoldable pub token_scan : Any → Outcome Refused TokenChainAddress
token_scan a_nil = ok (record { address = []; chain = pos 0 })
token_scan (a_string s) = scan_parts (split b'+' s)
token_scan another = panics
token_scan (an_int n) = panics
token_scan (an_int32 n) = panics
token_scan (a_float64 n) = panics
token_scan (a_chain n) = panics
