-- ===== src/Tokens/Keys.antt =====
-- service/persist/token.go: the keys of tokens, written and read.
use go_mutuals.Prelude.{
  suc, ◌≡◌, ◌≢◌, refl, true, none, some, List, [], ◌∷◌, ◌++◌, arith, All, ℤ, pos, negsuc, ok, err,
  panics, if◌then◌else◌, false,
}
use go_mutuals.Cursor.Bytes.{Bytes}
use go_mutuals.Numerals.{write_ℕ, write_ℤ, in_int64, split}
use go_mutuals.Numerals.RoundTrip.{
  decimal, IsDigit, write_ℕ-Written, atoi-write_ℤ, split-append, split-piece,
}
use go_mutuals.Wallets.{lookup, to_lower}
use go_mutuals.Wallets.Formats.{evm_chains, a_string, normalize_address}
use go_mutuals.Tokens.{
  invalid_token_chain_address, TokenChainAddress, token_string, as_json_key, from_json_key,
  token_from_parts, token_scan, scan_parts,
}

abbrev pub HasNoPlus : Bytes → Type 0
HasNoPlus s = All (λ c. c ≢ b'+') s

digits-HasNoPlus : (s : Bytes) → All IsDigit s → HasNoPlus s
digits-HasNoPlus [] h = tt
digits-HasNoPlus (c ∷ s) ((from, to, letter), h) = (λ e. omega arith, digits-HasNoPlus s h)

number-HasNoPlus : (z : ℤ) → HasNoPlus (write_ℤ 10 z)
unfolding write_ℤ
number-HasNoPlus (pos n) = digits-HasNoPlus (write_ℕ 10 n) (write_ℕ-Written 10 decimal n).digits
number-HasNoPlus (negsuc n) = (
  λ e. omega arith,
  digits-HasNoPlus (write_ℕ 10 (suc n)) (write_ℕ-Written 10 decimal (suc n)).digits,
)

key_read :
    (address : Bytes) (chain : ℤ)
    → HasNoPlus address
    → in_int64 chain ≡ true
    → from_json_key (address ++ b'+' ∷ write_ℤ 10 chain)
      ≡ ok (record { address = address; chain = chain })
unfolding from_json_key
key_read address chain plain small =
    rw
      (
        split-append b'+' address (write_ℤ 10 chain) plain (number-HasNoPlus chain),
        token_from_parts,
        atoi-write_ℤ chain small,
      )
      refl

lower-HasNoPlus : (s : Bytes) → HasNoPlus s → HasNoPlus (to_lower s)
unfolding to_lower
lower-HasNoPlus [] h = tt
lower-HasNoPlus (c ∷ s) (other, h) = (λ e. other (ground arith), lower-HasNoPlus s h)

normalize_address-HasNoPlus :
    (chain : ℤ) (s : Bytes) → HasNoPlus s → HasNoPlus (normalize_address chain s)
unfolding normalize_address
normalize_address-HasNoPlus chain s h =
    elim (lookup evm_chains chain)
      as (λ o. HasNoPlus (elim o [ none ↦ s | some evm ↦ if evm then to_lower s else s ])) [
        | none ↦ h
        | some evm ↦ elim evm as (λ b. HasNoPlus (if b then to_lower s else s)) [
          | true ↦ lower-HasNoPlus s h
          | false ↦ h
        ]
      ]

-- The JSON key of a token whose address has no plus sign, on a chain of any 64-bit number, is read back
-- as the token, and its string as the token with its address normalized.
pub from_json_key-as_json_key :
    (t : TokenChainAddress)
    → HasNoPlus t.address
    → in_int64 t.chain ≡ true
    → (from_json_key (as_json_key t) ≡ ok t)
      × (from_json_key (token_string t)
          ≡ ok (record t { address = normalize_address t.chain t.address }))
unfolding as_json_key token_string
from_json_key-as_json_key t plain small = (
  key_read t.address t.chain plain small,
  key_read (normalize_address t.chain t.address) t.chain
      (normalize_address-HasNoPlus t.chain t.address plain) small,
)

scan_parts_fails : (l : List Bytes) (result : TokenChainAddress) → scan_parts l ≢ ok result
scan_parts_fails [] result h = cc
scan_parts_fails (p ∷ []) result h = cc
scan_parts_fails (p ∷ q ∷ parts) result h = cc

-- `Scan` reads no string: it panics on one without a plus sign, and gives an error for what `Value` of
-- a token writes whose address has none.
pub token_scan_fails :
    (s : Bytes) (t : TokenChainAddress)
    → HasNoPlus t.address
    → ((result : TokenChainAddress) → token_scan (a_string s) ≢ ok result)
      × (HasNoPlus s → token_scan (a_string s) ≡ panics)
      × (token_scan (a_string (token_string t)) ≡ err invalid_token_chain_address)
unfolding token_scan token_string
token_scan_fails s t plain = (
  λ result. scan_parts_fails (split b'+' s) result,
  λ h. rw (split-piece b'+' s h) refl,
  rw
      (split-append b'+' (normalize_address t.chain t.address) (write_ℤ 10 t.chain)
        (normalize_address-HasNoPlus t.chain t.address plain) (number-HasNoPlus t.chain))
      refl,
)
