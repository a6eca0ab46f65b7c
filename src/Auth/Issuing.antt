-- ===== src/Auth/Issuing.antt =====
-- service/auth/auth.go: the tokens, the row and the state of a session. A call gives back the world
-- with its outcome, on an error too.
use go_mutuals.Prelude.{
  ℕ, Bool, true, false, ◌||◌, Option, none, some, List, [], ◌∷◌, if◌then◌else◌, Outcome, ok, err,
  panics, ◌>>=◌,
}
use go_mutuals.Cursor.Bytes.{Bytes, eq_bytes}
use go_mutuals.Throttle.{Cache}
use go_mutuals.Auth.{
  AuthFailure, no_cookie, session_invalidated, missing_values, database_failed, Settings,
}
use go_mutuals.Auth.Context.{Gin, clear_session_state_for_ctx, write_session_state}
use go_mutuals.Auth.Cookies.{Request, Cookie, set_session_cookies, clear_session_cookies}
use go_mutuals.Auth.Claims.{Jwt, generate_auth_token, generate_refresh_token, refresh_expires_at}
use go_mutuals.Auth.Tables.{
  Session, SessionParams, UserRole, upsert_session, get_user_roles_by_user_id,
}
use go_mutuals.Auth.Refresh.{Scripts}

-- What stays the same from call to call.
pub record Server (C Store : Type 0) : Type 0 where
  pub gin : Gin C
  pub settings : Settings
  pub jwt : Jwt
  pub auth_refresh_cache : Cache Store
  pub scripts : Scripts Store

-- A call: its request and time, the ids that it generates, the table of roles, and which statements fail.
pub record Call : Type 0 where
  pub request : Request
  pub now : ℕ
  pub session_id : Bytes
  pub refresh_id : Bytes
  pub user_roles : List UserRole
  pub roles_fault : Option ℕ
  pub upsert_fault : Option ℕ
  pub invalidate_fault : Option ℕ

-- The context and the cookies of the request, the table of sessions, and the cache.
pub record AuthWorld (C Store : Type 0) : Type 0 where
  pub ctx : C
  pub cookies : List Cookie
  pub sessions : List Session
  pub store : Store

abbrev pub Answered : Type 0 → Type 0 → Type 0
Answered C Store = AuthWorld C Store × Outcome AuthFailure (Unit {0})

abbrev pub unless_fault {ℓ} :
    {A : Type ℓ} → Option ℕ → Outcome AuthFailure A → Outcome AuthFailure A
unless_fault none o = o
unless_fault (some n) o = err (database_failed n)

-- The tokens and the row of `issueSessionTokens`.
pub record Issued : Type 0 where
  pub refresh_token : Bytes
  pub roles : List Bytes
  pub auth_token : Bytes
  pub row : Session
  pub rows : List Session

abbrev pub is_no_cookie : AuthFailure → Bool
is_no_cookie no_cookie = true
is_no_cookie e = false

abbrev pub is_invalidated : AuthFailure → Bool
is_invalidated session_invalidated = true
is_invalidated e = false

module _ {C Store : Type 0} (server : Server C Store) (call : Call) where
  abbrev pub clear_state : AuthFailure → AuthWorld C Store → AuthWorld C Store
  clear_state e w = record w { ctx = clear_session_state_for_ctx server.gin e w.ctx }

  abbrev pub clear_cookies : AuthWorld C Store → AuthWorld C Store
  clear_cookies w = record w {
    cookies = clear_session_cookies server.settings call.request call.now w.cookies;
  }

  unfoldable pub set_session_state_for_ctx :
      Bytes → Bytes → List Bytes → AuthWorld C Store → AuthWorld C Store
  set_session_state_for_ctx user_id session_id roles w =
      if eq_bytes user_id [] || eq_bytes session_id []
      then clear_cookies (clear_state missing_values w)
      else record w { ctx = write_session_state server.gin user_id session_id roles w.ctx }

  -- `RolesByUserID`
  unfoldable pub roles_by_user_id : Bytes → Outcome AuthFailure (List Bytes)
  roles_by_user_id user_id =
      unless_fault call.roles_fault (ok (get_user_roles_by_user_id user_id call.user_roles))

  -- `issueSessionTokens`, up to the upsert.
  unfoldable pub session_params : Bytes → Bytes → SessionParams
  session_params user_id session_id = record {
    id = session_id;
    user_id = user_id;
    user_agent =
        call.request.header
          (b'U' ∷ b's' ∷ b'e' ∷ b'r' ∷ b'-' ∷ b'A' ∷ b'g' ∷ b'e' ∷ b'n' ∷ b't' ∷ []);
    platform =
        call.request.header
          (b'X' ∷ b'-' ∷ b'P' ∷ b'l' ∷ b'a' ∷ b't' ∷ b'f' ∷ b'o' ∷ b'r' ∷ b'm' ∷ []);
    os = call.request.header (b'X' ∷ b'-' ∷ b'O' ∷ b'S' ∷ []);
    current_refresh_id = call.refresh_id;
    active_until = refresh_expires_at server.settings call.now;
  }

  unfoldable pub issue : Bytes → Bytes → Bytes → List Session → Outcome AuthFailure Issued
  issue user_id session_id parent_refresh_id sessions = do
    refresh_token ←
        generate_refresh_token server.settings server.jwt call.now call.refresh_id parent_refresh_id
          user_id session_id
    roles ← roles_by_user_id user_id
    auth_token ←
        generate_auth_token server.settings server.jwt call.now user_id session_id parent_refresh_id
          roles
    upserted ←
        unless_fault call.upsert_fault
          (upsert_session call.now (session_params user_id session_id) sessions)
    ok (record {
      refresh_token = refresh_token;
      roles = roles;
      auth_token = auth_token;
      row = upserted.0;
      rows = upserted.1;
    })

  -- What it does with them.
  abbrev pub after_issue :
      Bytes → Bytes → Outcome AuthFailure Issued → AuthWorld C Store → Answered C Store
  after_issue user_id session_id (err e) w = (w, err e)
  after_issue user_id session_id panics w = (w, panics)
  after_issue user_id session_id (ok issued) w =
      let w' = record w { sessions = issued.rows } in
      let set = set_session_state_for_ctx user_id session_id issued.roles w' in
      if issued.row.invalidated then (w', err session_invalidated) else (
        record set {
          cookies =
              set_session_cookies server.settings call.request call.now issued.auth_token
                issued.refresh_token set.cookies;
        },
        ok tt,
      )

  unfoldable pub issue_session_tokens : Bytes → Bytes → Bytes → AuthWorld C Store → Answered C Store
  issue_session_tokens user_id session_id parent_refresh_id w =
      after_issue user_id session_id (issue user_id session_id parent_refresh_id w.sessions) w
