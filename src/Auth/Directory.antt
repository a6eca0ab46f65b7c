-- ===== src/Auth/Directory.antt =====
-- service/auth/auth.go: the users and wallets that a login looks up, and its result.
use go_mutuals.Prelude.{
  ℕ, Bool, true, false, not, ◌&&◌, Option, none, some, List, [], ◌∷◌, if◌then◌else◌, ℤ, Outcome, ok,
  err,
}
use go_mutuals.Cursor.Bytes.{Bytes, eq_bytes, bytes_eq}
use go_mutuals.Slices.{contains}
use go_mutuals.Wallets.{eq_ℤ, to_lower, ChainAddress}
use go_mutuals.Auth.{AuthFailure, no_rows, User, Wallet}
use go_mutuals.Auth.Signatures.{WalletType}
use go_mutuals.Auth.Issuing.{unless_fault}

pub record AuthenticatedAddress : Type 0 where
  pub chain_address : ChainAddress
  pub wallet_type : WalletType

pub record AuthResult : Type 0 where
  pub user : Option User
  pub addresses : List AuthenticatedAddress
  pub email : Option Bytes

-- The tables of users and wallets, and which of the statements fail.
pub record Directory : Type 0 where
  pub users : List User
  pub wallets : List Wallet
  pub user_fault : Option ℕ
  pub nonce_fault : Option ℕ

-- `GetUserById`, `GetUserByVerifiedEmailAddress` and `GetUserByAddressAndL1`: the first row.
unfoldable pub find_user : (User → Bool) → List User → Outcome AuthFailure User
find_user test [] = err no_rows
find_user test (u ∷ users) =
    let rest = find_user test users in if test u && not u.deleted then ok u else rest

unfoldable pub get_user_by_id : Directory → Bytes → Outcome AuthFailure User
get_user_by_id d user_id =
    unless_fault d.user_fault (find_user (λ u. eq_bytes u.id user_id) d.users)

abbrev pub has_email : Bytes → Option Bytes → Bool
has_email email none = false
has_email email (some verified) = eq_bytes verified (to_lower email)

unfoldable pub get_user_by_verified_email_address : Directory → Bytes → Outcome AuthFailure User
get_user_by_verified_email_address d email =
    unless_fault d.user_fault (find_user (λ u. has_email email u.verified_email) d.users)

unfoldable pub has_wallet : Bytes → ℤ → List Wallet → User → Bool
has_wallet address l1 [] u = false
has_wallet address l1 (w ∷ wallets) u =
    let rest = has_wallet address l1 wallets u in
    if eq_bytes w.address address
      && (eq_ℤ w.l1_chain l1 && (contains u.wallets w.id && not w.deleted))
    then true
    else rest

unfoldable pub get_user_by_address_and_l1 : Directory → Bytes → ℤ → Outcome AuthFailure User
get_user_by_address_and_l1 d address l1 =
    unless_fault d.user_fault (find_user (has_wallet address l1 d.wallets) d.users)
