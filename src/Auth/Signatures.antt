-- ===== src/Auth/Signatures.antt =====
-- service/multichain/multichain.go and service/eth/eth.go: whether a signature is that of an address. The
-- functions of go-ethereum and the contract of a Safe are a parameter.
use go_mutuals.Prelude.{
  ℕ, ◌+◌, ◌-◌, Bool, true, false, ◌||◌, Option, none, some, List, [], ◌∷◌, ◌++◌, length, take, ◌==◌,
  if◌then◌else◌, get_elem?, set_elem, ℤ, Outcome, ok, err, panics, ◌>>=◌,
}
use go_mutuals.Cursor.Bytes.{Bytes, eq_bytes}
use go_mutuals.Numerals.{write_ℕ}
use go_mutuals.Wallets.{
  chain_eth, chain_optimism, chain_arbitrum, chain_base, chain_polygon, lookup, to_lower,
  ChainPubKey,
}
use go_mutuals.Auth.{AuthFailure, verifying_failed, address_signature_mismatch}

pub data WalletType : Type 0 where
  wallet_type_eoa wallet_type_gnosis : WalletType

-- `hexutil.Decode`, `crypto.Keccak256`, `SigToPub`, `PubkeyToAddress` with `Hex`, `CompressPubkey`,
-- `VerifySignature`, and the call `IsValidSignature` of the contract at an address; none is an error.
pub record Crypto : Type 0 where
  pub decode : Bytes → Option Bytes
  pub keccak256 : Bytes → Bytes
  pub sig_to_pub : Bytes → Bytes → Option Bytes
  pub pubkey_to_address_hex : Bytes → Bytes
  pub compress_pubkey : Bytes → Bytes
  pub verify_signature : Bytes → Bytes → Bytes → Bool
  pub new_validator_fails : Bytes → Bool
  pub is_valid_signature : Bytes → Bytes → Bytes → Option Bytes

abbrev pub eip1271_magic_value : Bytes
eip1271_magic_value = 0x16 ∷ 0x26 ∷ 0xba ∷ 0x7e ∷ []

module _ (crypto : Crypto) where
  -- `verifySignature`: the text that is hashed, the last byte of the signature, and the two kinds of
  -- wallet. A signature of fewer than 65 bytes has no such byte.
  unfoldable pub signed_data : Bool → Bytes → Bytes
  signed_data use_header text =
      if use_header
      then 0x19
          ∷ b'E'
          ∷ b't'
          ∷ b'h'
          ∷ b'e'
          ∷ b'r'
          ∷ b'e'
          ∷ b'u'
          ∷ b'm'
          ∷ b' '
          ∷ b'S'
          ∷ b'i'
          ∷ b'g'
          ∷ b'n'
          ∷ b'e'
          ∷ b'd'
          ∷ b' '
          ∷ b'M'
          ∷ b'e'
          ∷ b's'
          ∷ b's'
          ∷ b'a'
          ∷ b'g'
          ∷ b'e'
          ∷ b':'
          ∷ 0x0a
          ∷ write_ℕ 10 (length text)
        ++ text
      else text

  unfoldable pub normal_v : ℕ → Outcome AuthFailure ℕ
  normal_v v =
      let v' = if v == 0 || v == 1 then v + 27 else v in
      if v' == 27 || v' == 28 then ok (v' - 27) else err (verifying_failed 0)

  unfoldable pub check_recovered : Bytes → Bytes → Bytes → Option Bytes → Outcome AuthFailure Bool
  check_recovered address hash sig none = err (verifying_failed 1)
  check_recovered address hash sig (some key) =
      if eq_bytes (to_lower (crypto.pubkey_to_address_hex key)) (to_lower address)
      then ok
          (crypto.verify_signature (crypto.compress_pubkey key) hash (take (length sig - 1) sig))
      else err address_signature_mismatch

  unfoldable pub verify_eoa : Bytes → Bytes → Option Bytes → Outcome AuthFailure Bool
  verify_eoa address hash none = err (verifying_failed 2)
  verify_eoa address hash (some sig) = elim (get_elem? sig 64) [
    | none ↦ panics
    | some last ↦ do
      v ← normal_v last
      check_recovered address hash (set_elem sig 64 v) (crypto.sig_to_pub hash (set_elem sig 64 v))
  ]

  unfoldable pub verify_gnosis : Bytes → Bytes → Outcome AuthFailure Bool
  verify_gnosis address hash =
      if crypto.new_validator_fails address
      then err (verifying_failed 3)
      else (elim (crypto.is_valid_signature address hash []) [
        | none ↦ ok false
        | some result ↦ ok (eq_bytes result eip1271_magic_value)
      ])

  unfoldable pub verify_once : Bytes → Bytes → Bytes → WalletType → Bool → Outcome AuthFailure Bool
  verify_once signature text address wallet_type_eoa use_header =
      verify_eoa address (crypto.keccak256 (signed_data use_header text)) (crypto.decode signature)
  verify_once signature text address wallet_type_gnosis use_header =
      verify_gnosis address (crypto.keccak256 (signed_data use_header text))

  -- `Verifier.VerifySignature`: with the header, and then without it.
  abbrev pub or_else :
      Outcome AuthFailure Bool → Outcome AuthFailure Bool → Outcome AuthFailure Bool
  or_else (ok true) second_try = ok true
  or_else (ok false) second_try = second_try
  or_else (err e) second_try = second_try
  or_else panics second_try = panics

  unfoldable pub verifier_verify_signature :
      Bytes → WalletType → Bytes → Bytes → Outcome AuthFailure Bool
  verifier_verify_signature pub_key wallet_type message signature =
      or_else (verify_once signature message pub_key wallet_type true)
        (verify_once signature message pub_key wallet_type false)

  -- `newProviderLookup`: the providers by chain. Only that of Ethereum has a `common.Verifier`.
  abbrev pub Verifier : Type 0
  Verifier = Bytes → WalletType → Bytes → Bytes → Outcome AuthFailure Bool

  abbrev pub new_provider_lookup : List (ℤ × Option Verifier)
  new_provider_lookup =
      (chain_eth, some verifier_verify_signature)
      ∷ (chain_optimism, none)
      ∷ (chain_arbitrum, none)
      ∷ (chain_base, none)
      ∷ (chain_polygon, none)
      ∷ []

  -- `Provider.VerifySignature`, with the type assertion on what the lookup gives.
  abbrev pub asserted : Option (Option Verifier) → Option Verifier
  asserted none = none
  asserted (some provider) = provider

  abbrev pub verify_with :
      Option Verifier → Bytes → Bytes → ChainPubKey → WalletType → Outcome AuthFailure Bool
  verify_with none signature message key wallet_type = ok true
  verify_with (some verifier) signature message key wallet_type =
      verifier key.pub_key wallet_type message signature

  unfoldable pub provider_verify_signature :
      Bytes → Bytes → ChainPubKey → WalletType → Outcome AuthFailure Bool
  provider_verify_signature signature message key wallet_type =
      verify_with (asserted (lookup new_provider_lookup key.chain)) signature message key
        wallet_type
