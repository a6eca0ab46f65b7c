-- ===== src/Auth/Returns.antt =====
-- service/auth/auth.go: calls that do not panic.
use go_mutuals.Prelude.{ℕ, arith, ◌≡◌, ◌≢◌, List, [], ◌∷◌, ok, err, panics}
use go_mutuals.Cursor.Bytes.{Bytes}
use go_mutuals.Throttle.{prefixed_key, cache_get}
use go_mutuals.Auth.{AuthFailure}
use go_mutuals.Auth.Claims.{
  generate_jwt, generate_auth_token, generate_refresh_token, parse_auth_token, parse_refresh_token,
}
use go_mutuals.Auth.Cookies.{get_cookie}
use go_mutuals.Auth.Tables.{Session, SessionParams, upsert_session, get_user_roles_by_user_id}
use go_mutuals.Auth.Refresh.{must_refresh_auth_token, get_time}
use go_mutuals.Auth.Issuing.{session_params, Server, Call, Issued, issue, roles_by_user_id}
use go_mutuals.Auth.Sessions.{get_and_parse_auth_token, get_and_parse_refresh_token}

upsert_session-returns :
    (now : ℕ) (p : SessionParams) (rows : List Session) → upsert_session now p rows ≢ panics
unfolding upsert_session
upsert_session-returns now p [] = ground arith
upsert_session-returns now p (s ∷ rows) = ground (arith, upsert_session-returns now p rows)

module _ {C Store : Type 0} (server : Server C Store) (call : Call) where
  -- The roles are those of the table.
  pub issue-roles :
      (user_id session_id parent_refresh_id : Bytes) (rows : List Session) (issued : Issued)
      → issue server call user_id session_id parent_refresh_id rows ≡ ok issued
      → issued.roles ≡ get_user_roles_by_user_id user_id call.user_roles
  unfolding issue generate_refresh_token generate_auth_token roles_by_user_id generate_jwt
  issue-roles user_id session_id parent_refresh_id rows issued h = ground (arith, h)

  pub issue-returns :
      (user_id session_id parent_refresh_id : Bytes) (rows : List Session)
      → issue server call user_id session_id parent_refresh_id rows ≢ panics
  unfolding issue generate_refresh_token generate_auth_token roles_by_user_id generate_jwt
  issue-returns user_id session_id parent_refresh_id rows =
      ground (
        arith,
        upsert_session-returns call.now (session_params server call user_id session_id) rows,
      )

  pub get_and_parse_auth_token-returns : get_and_parse_auth_token server call ≢ panics
  unfolding get_and_parse_auth_token get_cookie parse_auth_token
  get_and_parse_auth_token-returns = ground arith

  pub get_and_parse_refresh_token-returns : get_and_parse_refresh_token server call ≢ panics
  unfolding get_and_parse_refresh_token get_cookie parse_refresh_token
  get_and_parse_refresh_token-returns = ground arith

  pub must_refresh-returns :
      ((t : ℕ) (key : Bytes) (s : Store) → server.auth_refresh_cache.client.get t key s ≢ panics)
      → (now issued_at : ℕ) (user_id : Bytes) (s : Store)
      → must_refresh_auth_token server.auth_refresh_cache server.scripts now user_id issued_at s
        ≢ panics
  unfolding must_refresh_auth_token get_time cache_get
  must_refresh-returns returns now issued_at user_id s =
      ground (arith, returns now (prefixed_key server.auth_refresh_cache user_id) s)

  pub must_refresh-answers :
      (now issued_at : ℕ) (user_id : Bytes) (s : Store) (e : AuthFailure)
      → must_refresh_auth_token server.auth_refresh_cache server.scripts now user_id issued_at s
        ≢ err e
  unfolding must_refresh_auth_token
  must_refresh-answers now issued_at user_id s e = ground arith
