-- ===== src/Auth/Refused.antt =====
-- service/auth/auth.go: the tokens of a session that was ended are refused.
use go_mutuals.Prelude.{
  arith, ℕ, ◌≡◌, ◌≢◌, ◌<◌, refl, sym, subst, true, Option, none, some, List, [], Outcome, ok, err,
  panics,
}
use go_mutuals.Cursor.Bytes.{eq_bytes_apart, Bytes}
use go_mutuals.Auth.{AuthFailure}
use go_mutuals.Auth.Context.{IsCleared}
use go_mutuals.Auth.Claims.{
  AuthTokenClaims, RefreshTokenClaims, numeric_date, generate_jwt, generate_refresh_token,
  generate_auth_token,
}
use go_mutuals.Auth.Tables.{Session}
use go_mutuals.Auth.Refresh.{unix, must_refresh_auth_token}
use go_mutuals.Auth.Issuing.{
  Server, Call, AuthWorld, Answered, Issued, roles_by_user_id, issue, session_params, after_issue,
  issue_session_tokens,
}
use go_mutuals.Auth.Sessions.{
  continue_by_refresh, after_continue, continue_session, continue_by_auth, get_and_parse_auth_token,
  get_and_parse_refresh_token,
}
use go_mutuals.Auth.States.{Settled}
use go_mutuals.Auth.Ended.{IsEnded, upsert_session-ended}

module _ {C Store : Type 0} (server : Server C Store) (call : Call) where
  -- No tokens are issued for a session that was ended.
  issue-ended :
      (user_id session_id parent_refresh_id : Bytes) (rows : List Session) (issued : Issued)
      → IsEnded session_id rows
      → issue server call user_id session_id parent_refresh_id rows ≡ ok issued
      → issued.row.invalidated ≡ true
  unfolding issue session_params generate_refresh_token generate_auth_token roles_by_user_id
      generate_jwt
  issue-ended user_id session_id parent_refresh_id rows issued ended h = ground (
    arith,
    upsert_session-ended session_id call.now (session_params server call user_id session_id) rows
        refl ended,
  )

  issue_session_tokens-ended :
      (user_id session_id parent_refresh_id : Bytes) (w : AuthWorld C Store)
      → IsEnded session_id w.sessions
      → (issue_session_tokens server call user_id session_id parent_refresh_id w).1 ≢ ok tt
  unfolding issue_session_tokens
  issue_session_tokens-ended user_id session_id parent_refresh_id w ended h =
      after_issue-ended (issue server call user_id session_id parent_refresh_id w.sessions) refl h
    where
      after_issue-ended :
          (o : Outcome AuthFailure Issued)
          → issue server call user_id session_id parent_refresh_id w.sessions ≡ o
          → (after_issue server call user_id session_id o w).1 ≢ ok tt
      after_issue-ended (err e) is k = cc
      after_issue-ended panics is k = cc
      after_issue-ended (ok issued) is k =
          let gone = issue-ended user_id session_id parent_refresh_id w.sessions issued ended is in
          let refused = rw gone at k in cc

  after_continue-fails :
      (a : Answered C Store) → a.1 ≢ ok tt → (after_continue server call a).1 ≢ ok tt
  after_continue-fails (w, ok done) h k = h k
  after_continue-fails (w, err e) h k = cc
  after_continue-fails (w, panics) h k = cc

  -- A request that has only tokens of a session that was ended is not continued.
  continue_by_refresh-ended :
      (auth_error : Option AuthFailure) (session_id : Bytes)
      (o : Outcome AuthFailure RefreshTokenClaims) (w : AuthWorld C Store)
      → ((claims : RefreshTokenClaims) → o ≡ ok claims → claims.session_id ≡ session_id)
      → IsEnded session_id w.sessions
      → (continue_by_refresh server call auth_error o w).1 ≢ ok tt
  continue_by_refresh-ended auth_error session_id (err e) w only ended h = cc
  continue_by_refresh-ended auth_error session_id panics w only ended h = cc
  continue_by_refresh-ended auth_error session_id (ok claims) w only ended h =
      after_continue-fails
        (issue_session_tokens server call claims.user_id claims.session_id claims.id w)
        (issue_session_tokens-ended claims.user_id claims.session_id claims.id w
          (subst (λ (i : Bytes). IsEnded i w.sessions) (sym (only claims refl)) ended))
        h

  -- The auth token of a request, if it has a valid one: the user's, of some session, and issued in a second
  -- before `forced`. And its refresh token: the session's.
  abbrev pub OldAuth : Bytes → ℕ → Type 0
  OldAuth user_id forced =
      (claims : AuthTokenClaims)
      → get_and_parse_auth_token server call ≡ ok claims
      → (issued : ℕ) × (claims.registered.issued_at ≡ some (numeric_date issued))
        × (unix issued < unix forced)
        × (claims.user_id ≡ user_id)
        × (claims.session_id ≢ [])

  abbrev pub OnlyRefresh : Bytes → Type 0
  OnlyRefresh session_id =
      (claims : RefreshTokenClaims)
      → get_and_parse_refresh_token server call ≡ ok claims
      → claims.session_id ≡ session_id

  continue_by_auth-ended :
      (user_id session_id : Bytes) (forced : ℕ) (o : Outcome AuthFailure AuthTokenClaims)
      (w : AuthWorld C Store)
      → get_and_parse_auth_token server call ≡ o
      → OldAuth user_id forced
      → OnlyRefresh session_id
      → ((issued : ℕ)
          → unix issued < unix forced
          → must_refresh_auth_token server.auth_refresh_cache server.scripts call.now user_id
              (numeric_date issued)
              w.store
            ≡ ok true)
      → IsEnded session_id w.sessions
      → (continue_by_auth server call o w).1 ≢ ok tt
  continue_by_auth-ended user_id session_id forced panics w is old only must ended h = cc
  continue_by_auth-ended user_id session_id forced (err e) w is old only must ended h =
      continue_by_refresh-ended (some e) session_id (get_and_parse_refresh_token server call) w only
        ended h
  continue_by_auth-ended user_id session_id forced (ok claims) w is old only must ended h =
      let auth = old claims is in
      let forced_now : must_refresh_auth_token server.auth_refresh_cache server.scripts call.now
            claims.user_id (numeric_date auth.0) w.store
          ≡ ok true =
        subst
          (λ (u : Bytes).
            must_refresh_auth_token server.auth_refresh_cache server.scripts call.now u
              (numeric_date auth.0) w.store
            ≡ ok true)
          (sym auth.3) (must auth.0 auth.2) in
      let h' = rw (auth.1, eq_bytes_apart claims.session_id [] auth.4, forced_now) at h in
      continue_by_refresh-ended none session_id (get_and_parse_refresh_token server call) w only
        ended h'

  pub continue_session-ended :
      (user_id session_id : Bytes) (forced : ℕ) (w : AuthWorld C Store)
      → OldAuth user_id forced
      → OnlyRefresh session_id
      → ((issued : ℕ)
          → unix issued < unix forced
          → must_refresh_auth_token server.auth_refresh_cache server.scripts call.now user_id
              (numeric_date issued)
              w.store
            ≡ ok true)
      → IsEnded session_id w.sessions
      → (continue_session server call w).1 ≢ ok tt
  unfolding continue_session
  continue_session-ended user_id session_id forced w old only must ended =
      continue_by_auth-ended user_id session_id forced (get_and_parse_auth_token server call) w refl
        old only must ended

  -- A call that has settled, and did not succeed, has an error.
  pub failed :
      (a : Answered C Store)
      → Settled server call a
      → a.1 ≢ ok tt
      → (e : AuthFailure) × (a.1 ≡ err e) × IsCleared server.gin e a.0.ctx
  failed (w, ok done) h k = absurd (k refl)
  failed (w, err e) h k = (e, refl, h)
  failed (w, panics) h k = absurd h
