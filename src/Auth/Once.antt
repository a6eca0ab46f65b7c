-- ===== src/Auth/Once.antt =====
-- service/auth/auth.go: a nonce authenticates once.
use go_mutuals.Prelude.{
  arith, ℕ, ◌≡◌, ◌≢◌, sym, subst, Bool, true, false, List, inl, inr, Bool-cases, Outcome, ok, err,
  panics,
}
use go_mutuals.Cursor.Bytes.{Bytes}
use go_mutuals.Wallets.{ChainAddress, L1ChainAddress, to_chain_address, to_l1_chain_address}
use go_mutuals.Auth.{AuthFailure}
use go_mutuals.Auth.Cookies.{contains_text}
use go_mutuals.Auth.Tables.{Nonce, consume_nonce}
use go_mutuals.Auth.Signatures.{Crypto, provider_verify_signature}
use go_mutuals.Auth.Issuing.{unless_fault}
use go_mutuals.Auth.Directory.{AuthResult, Directory}
use go_mutuals.Auth.NonceLogin.{
  NonceAuthenticator, renamed, consume_auth_nonce, or_panic, after_consume, after_verify, with_l1,
  with_address, nonce_authenticate,
}
use go_mutuals.Auth.Spent.{
  IsSpent, IsUnique, NonceMove, consume_nonce-spends, consume_nonce-spent, play_nonces,
  play_nonces-IsSpent,
}

-- `Authenticate` succeeds only by consuming the nonce.
module _ (crypto : Crypto) (d : Directory) (now : ℕ) (a : NonceAuthenticator) (rows : List Nonce)
    (rows' : List Nonce) (result : AuthResult) where
  renamed_ok :
      (o : Outcome AuthFailure (List Nonce)) → renamed rows o ≡ (rows', ok tt) → o ≡ ok rows'
  renamed_ok (ok z) h = cc
  renamed_ok panics h = cc
  renamed_ok (err e) h = ground (arith, h)

  after_consume_ok :
      (address : ChainAddress) (l1 : L1ChainAddress)
      (p : List Nonce × Outcome AuthFailure (Unit {0}))
      → after_consume crypto d now a address l1 p ≡ (rows', ok result)
      → p ≡ (rows', ok tt)
  after_consume_ok address l1 (z, ok done) h = cc
  after_consume_ok address l1 (z, err e) h = cc
  after_consume_ok address l1 (z, panics) h = cc

  after_verify_ok :
      (address : ChainAddress) (l1 : L1ChainAddress) (o : Outcome AuthFailure Bool)
      → after_verify crypto d now a address l1 o rows ≡ (rows', ok result)
      → consume_nonce now a.nonce rows ≡ ok rows'
  unfolding consume_auth_nonce
  after_verify_ok address l1 (ok true) h = ground (
    arith,
    renamed_ok (unless_fault d.nonce_fault (consume_nonce now a.nonce rows))
        (after_consume_ok address l1 (consume_auth_nonce d now a.nonce rows) h),
  )
  after_verify_ok address l1 (ok false) h = cc
  after_verify_ok address l1 (err e) h = cc
  after_verify_ok address l1 panics h = cc

  with_l1_ok :
      (address : ChainAddress) (o : Outcome AuthFailure L1ChainAddress)
      → with_l1 crypto d now a address o rows ≡ (rows', ok result)
      → consume_nonce now a.nonce rows ≡ ok rows'
  with_l1_ok address (err e) h = cc
  with_l1_ok address panics h = cc
  with_l1_ok address (ok l1) h = elim (Bool-cases (contains_text a.message a.nonce)) [
    | inl part ↦
        after_verify_ok address l1
          (provider_verify_signature crypto a.signature a.message a.chain_pub_key a.wallet_type)
          (rw part at h)
    | inr other ↦ let refused = rw other at h in cc
  ]

  with_address_ok :
      (o : Outcome AuthFailure ChainAddress)
      → with_address crypto d now a o rows ≡ (rows', ok result)
      → consume_nonce now a.nonce rows ≡ ok rows'
  with_address_ok (ok address) h = with_l1_ok address (or_panic (to_l1_chain_address address)) h
  with_address_ok (err e) h = cc
  with_address_ok panics h = cc

  nonce_authenticate_consumes :
      nonce_authenticate crypto d now a rows ≡ (rows', ok result)
      → consume_nonce now a.nonce rows ≡ ok rows'
  unfolding nonce_authenticate
  nonce_authenticate_consumes h = with_address_ok (or_panic (to_chain_address a.chain_pub_key)) h

-- Once a nonce has authenticated somebody, it never does so again: whatever is inserted and consumed in
-- between, at whatever times, and whatever key, message and signature come with it. The values of the
-- nonces must be unique, as the index has them.
pub nonce_authenticate-Once :
    (crypto : Crypto) (d d' : Directory) (now later : ℕ) (a a' : NonceAuthenticator)
    (rows rows' rows'' : List Nonce) (moves : List NonceMove) (result result' : AuthResult)
    → IsUnique rows
    → nonce_authenticate crypto d now a rows ≡ (rows', ok result)
    → a'.nonce ≡ a.nonce
    → nonce_authenticate crypto d' later a' (play_nonces moves rows') ≢ (rows'', ok result')
nonce_authenticate-Once crypto d d' now later a a' rows rows' rows'' moves result result' unique
      first same again =
    let spent = play_nonces-IsSpent a.nonce moves rows' (
      consume_nonce-spends a.nonce now rows rows' unique
        (nonce_authenticate_consumes crypto d now a rows rows' result first)) in
    let refused =
      consume_nonce-spent a'.nonce later (play_nonces moves rows')
        (subst (λ (v : Bytes). IsSpent v (play_nonces moves rows')) (sym same) spent) in
    cc (
      nonce_authenticate_consumes crypto d' later a' (play_nonces moves rows') rows'' result' again)
