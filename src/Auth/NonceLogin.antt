-- ===== src/Auth/NonceLogin.antt =====
-- service/auth/auth.go: logins with nonces, and the nonces that are given out.
use go_mutuals.Prelude.{
  ℕ, zero, suc, ◌+◌, ◌/◌, ◌%◌, Bool, true, false, Option, none, some, List, [], ◌∷◌, ◌++◌,
  if◌then◌else◌, Outcome, ok, err, panics, ◌>>=◌,
}
use go_mutuals.Cursor.Bytes.{Bytes, bytes_eq}
use go_mutuals.Numerals.{digit}
use go_mutuals.Wallets.{
  Refusal, ChainAddress, L1ChainAddress, ChainPubKey, to_chain_address, to_l1_chain_address,
}
use go_mutuals.Auth.{
  AuthFailure, message_does_not_contain_nonce, signature_invalid, signature_verification_failed,
  no_such_nonce, no_rows, too_many_failures, User,
}
use go_mutuals.Auth.Cookies.{contains_text}
use go_mutuals.Auth.Tables.{Nonce, insert_nonce, consume_nonce}
use go_mutuals.Auth.Signatures.{Crypto, WalletType, provider_verify_signature}
use go_mutuals.Auth.Issuing.{unless_fault}
use go_mutuals.Auth.Directory.{AuthResult, Directory, get_user_by_address_and_l1}

-- `ConsumeAuthNonce`, with the rows that it leaves.
abbrev pub renamed :
    List Nonce → Outcome AuthFailure (List Nonce) → List Nonce × Outcome AuthFailure (Unit {0})
renamed rows (ok rows') = (rows', ok tt)
renamed rows panics = (rows, panics)
renamed rows (err no_rows) = (rows, err no_such_nonce)
renamed rows (err e) = (rows, err e)

unfoldable pub consume_auth_nonce :
    Directory → ℕ → Bytes → List Nonce → List Nonce × Outcome AuthFailure (Unit {0})
consume_auth_nonce d now nonce rows =
    renamed rows (unless_fault d.nonce_fault (consume_nonce now nonce rows))

-- An address has no chain of the first layer only by a panic.
abbrev pub or_panic : {A : Type 0} → Outcome Refusal A → Outcome AuthFailure A
or_panic (ok a) = ok a
or_panic (err e) = panics
or_panic panics = panics

-- `NonceAuthenticator`
pub record NonceAuthenticator : Type 0 where
  pub chain_pub_key : ChainPubKey
  pub nonce : Bytes
  pub message : Bytes
  pub signature : Bytes
  pub wallet_type : WalletType

-- A missing row is no user, any other error one of the call.
abbrev pub user_or_none : Outcome AuthFailure User → Outcome AuthFailure (Option User)
user_or_none (ok u) = ok (some u)
user_or_none (err no_rows) = ok none
user_or_none (err e) = err e
user_or_none panics = panics

abbrev pub NonceAnswer : Type 0
NonceAnswer = List Nonce × Outcome AuthFailure AuthResult

module _ (crypto : Crypto) (d : Directory) (now : ℕ) (a : NonceAuthenticator) where
  unfoldable pub nonce_user : ChainAddress → L1ChainAddress → Outcome AuthFailure AuthResult
  nonce_user address l1 = do
    user ← user_or_none (get_user_by_address_and_l1 d l1.address l1.l1_chain)
    ok (record {
      user = user;
      addresses = (record { chain_address = address; wallet_type = a.wallet_type }) ∷ [];
      email = none;
    })

  abbrev pub after_consume :
      ChainAddress → L1ChainAddress → List Nonce × Outcome AuthFailure (Unit {0}) → NonceAnswer
  after_consume address l1 (rows, ok consumed) = (rows, nonce_user address l1)
  after_consume address l1 (rows, err e) = (rows, err e)
  after_consume address l1 (rows, panics) = (rows, panics)

  abbrev pub after_verify :
      ChainAddress → L1ChainAddress → Outcome AuthFailure Bool → List Nonce → NonceAnswer
  after_verify address l1 (ok true) rows =
      after_consume address l1 (consume_auth_nonce d now a.nonce rows)
  after_verify address l1 (ok false) rows =
      (rows, err (signature_verification_failed signature_invalid))
  after_verify address l1 (err e) rows = (rows, err (signature_verification_failed e))
  after_verify address l1 panics rows = (rows, panics)

  abbrev pub with_l1 : ChainAddress → Outcome AuthFailure L1ChainAddress → List Nonce → NonceAnswer
  with_l1 address (err e) rows = (rows, err e)
  with_l1 address panics rows = (rows, panics)
  with_l1 address (ok l1) rows =
      if contains_text a.message a.nonce
      then after_verify address l1
          (provider_verify_signature crypto a.signature a.message a.chain_pub_key a.wallet_type)
          rows
      else (rows, err message_does_not_contain_nonce)

  abbrev pub with_address : Outcome AuthFailure ChainAddress → List Nonce → NonceAnswer
  with_address (ok address) rows = with_l1 address (or_panic (to_l1_chain_address address)) rows
  with_address (err e) rows = (rows, err e)
  with_address panics rows = (rows, panics)

  unfoldable pub nonce_authenticate : List Nonce → NonceAnswer
  nonce_authenticate rows = with_address (or_panic (to_chain_address a.chain_pub_key)) rows

-- `GenerateNonce`, from the 16 bytes that `rand.Read` fills, and `hex.EncodeToString`.
unfoldable pub encode_to_string : Bytes → Bytes
encode_to_string [] = []
encode_to_string (c ∷ bs) = digit (c / 16) ∷ digit (c % 16) ∷ encode_to_string bs

unfoldable pub generate_nonce : Outcome AuthFailure Bytes → Outcome AuthFailure Bytes
generate_nonce read = do nonce_bytes ← read; ok (encode_to_string nonce_bytes)

-- `GenerateAuthNonce`: each try has what `rand.Read` gave it, its time, the id of its row, and
-- whether the statement fails.
pub record NonceTry : Type 0 where
  pub random_read : Outcome AuthFailure Bytes
  pub at_time : ℕ
  pub row_id : Bytes
  pub insert_fault : Option ℕ

abbrev pub nonce_prepend : Bytes
nonce_prepend =
    b'S' ∷ b'p' ∷ b'l' ∷ b'i' ∷ b't' ∷ b'F' ∷ b'i' ∷ b' ' ∷ b'u' ∷ b's' ∷ b'e' ∷ b's' ∷ b' ' ∷ b't'
    ∷ b'h' ∷ b'i' ∷ b's' ∷ b' ' ∷ b'c' ∷ b'r' ∷ b'y' ∷ b'p' ∷ b't' ∷ b'o' ∷ b'g' ∷ b'r' ∷ b'a'
    ∷ b'p' ∷ b'h' ∷ b'i' ∷ b'c' ∷ b' ' ∷ b's' ∷ b'i' ∷ b'g' ∷ b'n' ∷ b'a' ∷ b't' ∷ b'u' ∷ b'r'
    ∷ b'e' ∷ b' ' ∷ b'i' ∷ b'n' ∷ b' ' ∷ b'p' ∷ b'l' ∷ b'a' ∷ b'c' ∷ b'e' ∷ b' ' ∷ b'o' ∷ b'f'
    ∷ b' ' ∷ b'a' ∷ b' ' ∷ b'p' ∷ b'a' ∷ b's' ∷ b's' ∷ b'w' ∷ b'o' ∷ b'r' ∷ b'd' ∷ b':' ∷ b' ' ∷ []

abbrev pub NonceGiven : Type 0
NonceGiven = List Nonce × Outcome AuthFailure (Bytes × Bytes)

abbrev pub inserted_or_next :
    Bytes → List Nonce → Outcome AuthFailure (List Nonce) → NonceGiven → NonceGiven
inserted_or_next nonce rows (ok rows') next = (rows', ok (nonce, nonce_prepend ++ nonce))
inserted_or_next nonce rows (err e) next = next
inserted_or_next nonce rows panics next = (rows, panics)

abbrev pub generated_or_next :
    NonceTry → Outcome AuthFailure Bytes → List Nonce → NonceGiven → NonceGiven
generated_or_next attempt (ok nonce) rows next =
    inserted_or_next nonce rows
      (unless_fault attempt.insert_fault (insert_nonce attempt.at_time attempt.row_id nonce rows))
      next
generated_or_next attempt (err e) rows next = next
generated_or_next attempt panics rows next = (rows, panics)

unfoldable pub nonce_loop : ℕ → (ℕ → NonceTry) → ℕ → List Nonce → NonceGiven
nonce_loop zero attempts i rows = (rows, err too_many_failures)
nonce_loop (suc n) attempts i rows =
    generated_or_next (attempts i) (generate_nonce (attempts i).random_read) rows
      (nonce_loop n attempts (i + 1) rows)

unfoldable pub generate_auth_nonce : (ℕ → NonceTry) → List Nonce → NonceGiven
generate_auth_nonce attempts rows = nonce_loop 4 attempts 0 rows
