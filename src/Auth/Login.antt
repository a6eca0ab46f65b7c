-- ===== src/Auth/Login.antt =====
-- service/auth/auth.go: the authenticators, nonces, and Login. The check of a magic link is a parameter.
use go_mutuals.Prelude.{
  ℕ, ◌+◌, ◌-◌, Bool, true, false, Option, none, some, [], ◌∷◌, if◌then◌else◌, Outcome, ok, err,
  panics, ◌>>=◌,
}
use go_mutuals.Cursor.Bytes.{Bytes, eq_bytes, bytes_eq}
use go_mutuals.Throttle.{ClientError, Cache, client_error, prefixed_key}
use go_mutuals.Auth.{
  AuthFailure, authentication_failed, invalid_magic_link, token_already_used, no_rows,
  user_not_found_by, user_not_found_by_email, cache_failed, minute, Settings, User,
}
use go_mutuals.Auth.Context.{get_user_authed_from_ctx, get_user_id_from_ctx}
use go_mutuals.Auth.Claims.{Jwt, parse_one_time_login_token}
use go_mutuals.Auth.Issuing.{Server, Call, AuthWorld, Answered}
use go_mutuals.Auth.Sessions.{start_session, end_session}
use go_mutuals.Auth.Directory.{
  AuthResult, Directory, get_user_by_id, get_user_by_verified_email_address,
}

-- `MagicLinkAuthenticator`: the email address of the issuer of a valid token, or none.
abbrev pub found_by_email : Bytes → Outcome AuthFailure User → Outcome AuthFailure AuthResult
found_by_email email (ok u) = ok (record { user = some u; addresses = []; email = some email })
found_by_email email (err no_rows) = err (user_not_found_by_email email)
found_by_email email (err e) = err e
found_by_email email panics = panics

unfoldable pub magic_link_authenticate : Directory → Option Bytes → Outcome AuthFailure AuthResult
magic_link_authenticate d none = err invalid_magic_link
magic_link_authenticate d (some email) =
    found_by_email email (get_user_by_verified_email_address d email)

-- `OneTimeLoginTokenAuthenticator`, over `SetNX` of the client and of the cache.
abbrev pub SetNx : Type 0 → Type 0
SetNx Store = ℕ → Bytes → Bytes → ℕ → Store → Store × Outcome ClientError Bool

module _ {Store : Type 0} (cache : Cache Store) (set_nx : SetNx Store) where
  abbrev pub nx_answer : Store × Outcome ClientError Bool → Store × Outcome AuthFailure Bool
  nx_answer (s, ok done) = (s, ok done)
  nx_answer (s, err e) = (s, err (cache_failed (client_error e)))
  nx_answer (s, panics) = (s, panics)

  unfoldable pub cache_set_nx : ℕ → Bytes → Bytes → ℕ → Store → Store × Outcome AuthFailure Bool
  cache_set_nx now key value expiration s =
      nx_answer (set_nx now (prefixed_key cache key) value expiration s)

  module _ (settings : Settings) (jwt : Jwt) (d : Directory) where
    abbrev pub after_set_nx :
        Bytes → Store × Outcome AuthFailure Bool → Store × Outcome AuthFailure AuthResult
    after_set_nx user_id (s, ok true) = (
      s,
      do
        user ← get_user_by_id d user_id
        ok (record { user = some user; addresses = []; email = none }),
    )
    after_set_nx user_id (s, ok false) = (s, err token_already_used)
    after_set_nx user_id (s, err e) = (s, err e)
    after_set_nx user_id (s, panics) = (s, panics)

    abbrev pub login_with :
        ℕ → Bytes → Outcome AuthFailure (Bytes × ℕ) → Store → Store × Outcome AuthFailure AuthResult
    login_with now token (err e) s = (s, err e)
    login_with now token panics s = (s, panics)
    login_with now token (ok (user_id, expires_at)) s =
        after_set_nx user_id (cache_set_nx now token (1 ∷ []) (expires_at - now + minute) s)

    unfoldable pub one_time_login_authenticate :
        ℕ → Bytes → Store → Store × Outcome AuthFailure AuthResult
    one_time_login_authenticate now token s =
        login_with now token (parse_one_time_login_token settings jwt now token) s

-- `Login`, given what the authenticator gave, and `Logout`.
module _ {C Store : Type 0} (server : Server C Store) (call : Call) where
  abbrev pub is_same_user : Bytes → Outcome AuthFailure Bytes → Outcome AuthFailure Bool
  is_same_user user_id (ok current) = ok (eq_bytes current user_id)
  is_same_user user_id (err e) = err e
  is_same_user user_id panics = panics

  abbrev pub give_id : Bytes → Answered C Store → AuthWorld C Store × Outcome AuthFailure Bytes
  give_id user_id (w, ok done) = (w, ok user_id)
  give_id user_id (w, err e) = (w, err e)
  give_id user_id (w, panics) = (w, panics)

  abbrev pub start_unless :
      Bytes
      → Outcome AuthFailure Bool
      → AuthWorld C Store
      → AuthWorld C Store × Outcome AuthFailure Bytes
  start_unless user_id (ok true) w = (w, ok user_id)
  start_unless user_id (ok false) w = give_id user_id (start_session server call user_id w)
  start_unless user_id (err e) w = (w, err e)
  start_unless user_id panics w = (w, panics)

  abbrev pub log_in :
      Bytes → Option User → AuthWorld C Store → AuthWorld C Store × Outcome AuthFailure Bytes
  log_in description none w = (w, err (user_not_found_by description))
  log_in description (some u) w =
      if u.universal
      then (w, err (user_not_found_by description))
      else start_unless u.id
          (if get_user_authed_from_ctx server.gin w.ctx
            then is_same_user u.id (get_user_id_from_ctx server.gin w.ctx)
            else ok false)
          w

  abbrev pub login_result :
      Bytes
      → Outcome AuthFailure AuthResult
      → AuthWorld C Store
      → AuthWorld C Store × Outcome AuthFailure Bytes
  login_result description (err e) w = (w, err (authentication_failed e))
  login_result description panics w = (w, panics)
  login_result description (ok result) w = log_in description result.user w

  unfoldable pub login :
      Bytes
      → Outcome AuthFailure AuthResult
      → AuthWorld C Store
      → AuthWorld C Store × Outcome AuthFailure Bytes
  login description result w = login_result description result w

  unfoldable pub logout : AuthWorld C Store → Answered C Store
  logout w = end_session server call w
