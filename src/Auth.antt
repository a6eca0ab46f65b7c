-- ===== src/Auth.antt =====
-- service/auth: what the parts of it share. A failure is the error value of a call, and the settings are
-- the variables of the environment that the package reads.
pub mod Context
pub mod Cookies
pub mod Claims
pub mod Tables
pub mod Refresh
pub mod Issuing
pub mod Sessions
pub mod Returns
pub mod States
pub mod Ended
pub mod Forced
pub mod Refused
pub mod Logout
pub mod Signatures
pub mod Directory
pub mod NonceLogin
pub mod Login
pub mod Spent
pub mod Once
pub mod Bypass
pub mod Resume
pub mod Nonces
pub mod LoginTokens
pub mod LogsIn
use go_mutuals.Prelude.{ℕ, ◌*◌, ◌^◌, Option, Bool, List, ℤ}
use go_mutuals.Cursor.Bytes.{Bytes}
use go_mutuals.Throttle.{LockFailure}

pub data AuthFailure : Type 0 where
  no_cookie invalid_jwt session_invalidated missing_values message_does_not_contain_nonce
        signature_invalid invalid_magic_link no_such_nonce nonce_exists token_already_used no_rows
        address_signature_mismatch too_many_failures :
      AuthFailure
  signature_verification_failed authentication_failed : AuthFailure → AuthFailure
  user_not_found_by_email user_not_found_by : Bytes → AuthFailure
  database_failed signing_failed reading_failed random_failed verifying_failed : ℕ → AuthFailure
  cache_failed : LockFailure → AuthFailure

-- Times are nanoseconds.
abbrev pub second : ℕ
second = 10 ^ 9

abbrev pub minute : ℕ
minute = 60 * second

abbrev pub hour : ℕ
hour = 60 * minute

-- `ENV`, the secrets, and the times to live in seconds.
pub record Settings : Type 0 where
  pub env : Bytes
  pub auth_jwt_secret : Bytes
  pub refresh_jwt_secret : Bytes
  pub one_time_login_jwt_secret : Bytes
  pub email_verification_jwt_secret : Bytes
  pub auth_jwt_ttl : ℕ
  pub refresh_jwt_ttl : ℕ
  pub email_verification_jwt_ttl : ℕ

-- Of the tables of users and wallets, what the package reads.
pub record User : Type 0 where
  pub id : Bytes
  pub universal : Bool
  pub wallets : List Bytes
  pub verified_email : Option Bytes
  pub deleted : Bool

pub record Wallet : Type 0 where
  pub id : Bytes
  pub address : Bytes
  pub l1_chain : ℤ
  pub deleted : Bool
