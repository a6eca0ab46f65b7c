-- ===== src/Auth/Sessions.antt =====
-- service/auth/auth.go: starting, continuing and ending a session. A call gives back the world with its
-- outcome, on an error too.
use go_mutuals.Prelude.{
  ℕ, Bool, true, false, ◌&&◌, Option, none, some, List, [], if◌then◌else◌, Outcome, ok, err, panics,
  ◌>>=◌,
}
use go_mutuals.Cursor.Bytes.{Bytes, eq_bytes}
use go_mutuals.Auth.{AuthFailure, no_cookie}
use go_mutuals.Auth.Context.{
  get_user_authed_from_ctx, get_session_id_from_ctx, get_user_id_from_ctx,
}
use go_mutuals.Auth.Cookies.{auth_cookie_key, refresh_cookie_key, get_cookie}
use go_mutuals.Auth.Claims.{
  AuthTokenClaims, RefreshTokenClaims, parse_auth_token, parse_refresh_token,
}
use go_mutuals.Auth.Tables.{Session, invalidate_session}
use go_mutuals.Auth.Refresh.{must_refresh_auth_token, force_auth_token_refresh}
use go_mutuals.Auth.Issuing.{
  Answered, AuthWorld, Call, Server, clear_cookies, clear_state, is_invalidated, is_no_cookie,
  issue_session_tokens, set_session_state_for_ctx,
}

module _ {C Store : Type 0} (server : Server C Store) (call : Call) where
  -- `StartSession`
  abbrev pub after_start : Answered C Store → Answered C Store
  after_start (w, ok done) = (w, ok done)
  after_start (w, err e) = (clear_cookies server call (clear_state server call e w), err e)
  after_start (w, panics) = (w, panics)

  unfoldable pub start_session : Bytes → AuthWorld C Store → Answered C Store
  start_session user_id w =
      after_start (issue_session_tokens server call user_id call.session_id [] w)

  unfoldable pub get_and_parse_auth_token : Outcome AuthFailure AuthTokenClaims
  get_and_parse_auth_token = do
    token ← get_cookie call.request auth_cookie_key
    parse_auth_token server.settings server.jwt call.now token

  unfoldable pub get_and_parse_refresh_token : Outcome AuthFailure RefreshTokenClaims
  get_and_parse_refresh_token = do
    token ← get_cookie call.request refresh_cookie_key
    parse_refresh_token server.settings server.jwt call.now token

  -- `ContinueSession`, with what the auth cookie came to: its error, or none.
  abbrev pub after_continue : Answered C Store → Answered C Store
  after_continue (w, ok done) = (w, ok done)
  after_continue (w, panics) = (w, panics)
  after_continue (w, err e) = (
    if is_invalidated e
        then clear_cookies server call (clear_state server call e w)
        else clear_state server call e w,
    err e,
  )

  abbrev pub without_cookie : Option AuthFailure → AuthFailure → Bool
  without_cookie none e = false
  without_cookie (some auth_error) e = is_no_cookie auth_error && is_no_cookie e

  abbrev pub continue_by_refresh :
      Option AuthFailure
      → Outcome AuthFailure RefreshTokenClaims
      → AuthWorld C Store
      → Answered C Store
  continue_by_refresh auth_error panics w = (w, panics)
  continue_by_refresh auth_error (err e) w = (
    if without_cookie auth_error e
        then clear_state server call e w
        else clear_cookies server call (clear_state server call e w),
    err e,
  )
  continue_by_refresh auth_error (ok claims) w =
      after_continue (issue_session_tokens server call claims.user_id claims.session_id claims.id w)

  abbrev pub continue_unless_forced :
      AuthTokenClaims → Outcome AuthFailure Bool → AuthWorld C Store → Answered C Store
  continue_unless_forced claims panics w = (w, panics)
  continue_unless_forced claims (err e) w = (w, err e)
  continue_unless_forced claims (ok true) w = continue_by_refresh none get_and_parse_refresh_token w
  continue_unless_forced claims (ok false) w =
      (set_session_state_for_ctx server call claims.user_id claims.session_id claims.roles w, ok tt)

  abbrev pub continue_since : AuthTokenClaims → Option ℕ → AuthWorld C Store → Answered C Store
  continue_since claims none w = start_session claims.user_id w
  continue_since claims (some issued_at) w =
      if eq_bytes claims.session_id []
      then start_session claims.user_id w
      else continue_unless_forced claims
          (must_refresh_auth_token server.auth_refresh_cache server.scripts call.now claims.user_id
            issued_at w.store)
          w

  abbrev pub continue_by_auth :
      Outcome AuthFailure AuthTokenClaims → AuthWorld C Store → Answered C Store
  continue_by_auth panics w = (w, panics)
  continue_by_auth (err e) w = continue_by_refresh (some e) get_and_parse_refresh_token w
  continue_by_auth (ok claims) w = continue_since claims claims.registered.issued_at w

  unfoldable pub continue_session : AuthWorld C Store → Answered C Store
  continue_session w = continue_by_auth get_and_parse_auth_token w

  -- `EndSession`; the errors of the statement and of the cache are only logged.
  abbrev pub invalidated_sessions : Bytes → List Session → List Session
  invalidated_sessions session_id sessions =
      if eq_bytes session_id [] then sessions else elim call.invalidate_fault [
        | none ↦ invalidate_session call.now session_id sessions
        | some n ↦ sessions
      ]

  abbrev pub forced_store : Bytes → Store → Store
  forced_store user_id s =
      (force_auth_token_refresh server.auth_refresh_cache server.scripts server.settings call.now
        user_id s).0

  abbrev pub end_for :
      Outcome AuthFailure Bytes → Outcome AuthFailure Bytes → AuthWorld C Store → Answered C Store
  end_for (ok session_id) (ok user_id) w = (
    clear_cookies server call (
        clear_state server call no_cookie (record w {
          sessions = invalidated_sessions session_id w.sessions;
          store = forced_store user_id w.store;
        })),
    ok tt,
  )
  end_for (ok session_id) (err e) w =
      (record w { sessions = invalidated_sessions session_id w.sessions }, panics)
  end_for (ok session_id) panics w =
      (record w { sessions = invalidated_sessions session_id w.sessions }, panics)
  end_for (err e) user w = (w, panics)
  end_for panics user w = (w, panics)

  unfoldable pub end_session : AuthWorld C Store → Answered C Store
  end_session w =
      if get_user_authed_from_ctx server.gin w.ctx
      then end_for (get_session_id_from_ctx server.gin w.ctx)
          (get_user_id_from_ctx server.gin w.ctx) w
      else (clear_cookies server call (clear_state server call no_cookie w), ok tt)

  -- `ContinueSession` of middleware/middleware.go, up to `c.Next`: it logs the ids if there is no error.
  abbrev pub log_ids : Answered C Store → Answered C Store
  log_ids (w, err e) = (w, ok tt)
  log_ids (w, panics) = (w, panics)
  log_ids (w, ok done) = (
    w,
    do
      user_id ← get_user_id_from_ctx server.gin w.ctx
      session_id ← get_session_id_from_ctx server.gin w.ctx
      ok tt,
  )

  unfoldable pub continue_session_handler : AuthWorld C Store → Answered C Store
  continue_session_handler w = log_ids (continue_session w)
