-- ===== src/Auth/States.antt =====
-- service/auth/auth.go: what a call leaves in the context of its request.
use go_mutuals.Prelude.{
  ℕ, ◌≡◌, ◌≢◌, ◌⊎◌, refl, sym, subst, Bool, true, false, Option, none, some, List, [], inl, inr,
  Bool-cases, Outcome, ok, err, panics,
}
use go_mutuals.Cursor.Bytes.{Bytes, eq_bytes}
use go_mutuals.Auth.{AuthFailure, missing_values}
use go_mutuals.Auth.Context.{
  GinLaws, IsAuthed, IsCleared, write_session_state-IsAuthed, clear_session_state_for_ctx-IsCleared,
}
use go_mutuals.Auth.Claims.{AuthTokenClaims, RefreshTokenClaims}
use go_mutuals.Auth.Tables.{get_user_roles_by_user_id}
use go_mutuals.Auth.Refresh.{must_refresh_auth_token}
use go_mutuals.Auth.Issuing.{
  Server, Call, AuthWorld, Answered, Issued, set_session_state_for_ctx, issue, after_issue,
  issue_session_tokens, is_invalidated,
}
use go_mutuals.Auth.Sessions.{
  after_start, start_session, without_cookie, after_continue, continue_by_refresh,
  continue_unless_forced, continue_since, continue_by_auth, continue_session,
  continue_session_handler, log_ids, get_and_parse_auth_token, get_and_parse_refresh_token,
}
use go_mutuals.Auth.Returns.{
  get_and_parse_auth_token-returns, get_and_parse_refresh_token-returns, issue-returns, issue-roles,
  must_refresh-answers, must_refresh-returns,
}

module _ {C Store : Type 0} (server : Server C Store) (call : Call) where
  -- Whose session a request continues: the user, session and roles of its auth token; or the user of one
  -- token, in its session or, for an auth token, perhaps in a new one, with the roles that the user has now.
  abbrev IsOwnSession : Bytes → Bytes → List Bytes → Type 0
  IsOwnSession user_id session_id roles =
      (claims : AuthTokenClaims) × (get_and_parse_auth_token server call ≡ ok claims)
      × (claims.user_id ≡ user_id)
      × (((claims.session_id ≡ session_id) × (claims.roles ≡ roles))
          ⊎ ((call.session_id ≡ session_id)
              × (get_user_roles_by_user_id user_id call.user_roles ≡ roles)))

  abbrev IsRefreshed : Bytes → Bytes → List Bytes → Type 0
  IsRefreshed user_id session_id roles =
      (claims : RefreshTokenClaims) × (get_and_parse_refresh_token server call ≡ ok claims)
      × (claims.user_id ≡ user_id)
      × (claims.session_id ≡ session_id)
      × (get_user_roles_by_user_id user_id call.user_roles ≡ roles)

  abbrev IsBrought : Bytes → Bytes → List Bytes → Type 0
  IsBrought user_id session_id roles =
      IsOwnSession user_id session_id roles ⊎ IsRefreshed user_id session_id roles

  -- Such a user is logged in, under ids that are not empty.
  abbrev pub SomeAuthed : C → Type 0
  SomeAuthed c =
      (user_id : Bytes) × (session_id : Bytes) × (roles : List Bytes) × IsBrought user_id session_id
        roles
      × (user_id ≢ [])
      × (session_id ≢ [])
      × IsAuthed server.gin user_id session_id roles c

  -- What a call leaves: a user, or the error for which nobody is logged in. A call that succeeds may leave
  -- the error that an id was missing.
  abbrev pub Settled : Answered C Store → Type 0
  Settled (w, ok done) = SomeAuthed w.ctx ⊎ IsCleared server.gin missing_values w.ctx
  Settled (w, err e) = IsCleared server.gin e w.ctx
  Settled (w, panics) = ⊥

  -- And what the middleware makes of it: it goes on, save where an id was missing, which it does not find
  -- in the context.
  abbrev pub Served : Answered C Store → Answered C Store → Type 0
  Served (w, ok done) after =
      (SomeAuthed w.ctx × (after ≡ (w, ok tt)))
      ⊎ (IsCleared server.gin missing_values w.ctx × (after ≡ (w, panics)))
  Served (w, err e) after = IsCleared server.gin e w.ctx × (after ≡ (w, ok tt))
  Served (w, panics) after = ⊥

  -- Before its caller has dealt with an error.
  abbrev Issuing : Answered C Store → Type 0
  Issuing (w, ok done) = SomeAuthed w.ctx ⊎ IsCleared server.gin missing_values w.ctx
  Issuing (w, err e) = Unit
  Issuing (w, panics) = ⊥

  not_empty : (s : Bytes) → eq_bytes s [] ≡ false → s ≢ []
  not_empty s h e = cc (subst (λ z. eq_bytes z [] ≡ false) e h)

  module _ (laws : GinLaws C server.gin) where
    set_session_state :
        (user_id session_id : Bytes) (roles : List Bytes) (w : AuthWorld C Store)
        → IsBrought user_id session_id roles
        → (let set = (set_session_state_for_ctx server call user_id session_id roles w).ctx in
            SomeAuthed set ⊎ IsCleared server.gin missing_values set)
    unfolding set_session_state_for_ctx
    set_session_state user_id session_id roles w brought = elim (Bool-cases (eq_bytes user_id [])) [
      | inl no_user ↦
          rw no_user
            (inr (clear_session_state_for_ctx-IsCleared server.gin laws missing_values w.ctx))
      | inr user ↦ elim (Bool-cases (eq_bytes session_id [])) [
        | inl no_session ↦
            rw (user, no_session)
              (inr (clear_session_state_for_ctx-IsCleared server.gin laws missing_values w.ctx))
        | inr session ↦
            rw (user, session)
              (inl (
                user_id,
                session_id,
                roles,
                brought,
                not_empty user_id user,
                not_empty session_id session,
                write_session_state-IsAuthed server.gin laws user_id session_id roles w.ctx,
              ))
      ]
    ]

    after_issue-Issuing :
        (user_id session_id : Bytes) (o : Outcome AuthFailure Issued) (w : AuthWorld C Store)
        → o ≢ panics
        → ((issued : Issued) → o ≡ ok issued → IsBrought user_id session_id issued.roles)
        → Issuing (after_issue server call user_id session_id o w)
    after_issue-Issuing user_id session_id panics w h brought = absurd (h refl)
    after_issue-Issuing user_id session_id (err e) w h brought = tt
    after_issue-Issuing user_id session_id (ok issued) w h brought =
        elim (Bool-cases issued.row.invalidated) [
          | inl gone ↦ rw gone tt
          | inr live ↦ rw live (
              set_session_state user_id session_id issued.roles
                (record w { sessions = issued.rows }) (brought issued refl))
        ]

    issue_session_tokens-Issuing :
        (user_id session_id parent_refresh_id : Bytes) (w : AuthWorld C Store)
        → IsBrought user_id session_id (get_user_roles_by_user_id user_id call.user_roles)
        → Issuing (issue_session_tokens server call user_id session_id parent_refresh_id w)
    unfolding issue_session_tokens
    issue_session_tokens-Issuing user_id session_id parent_refresh_id w brought =
        after_issue-Issuing user_id session_id
          (issue server call user_id session_id parent_refresh_id w.sessions) w
          (issue-returns server call user_id session_id parent_refresh_id w.sessions)
          (λ issued is.
            subst (IsBrought user_id session_id)
              (sym
                (issue-roles server call user_id session_id parent_refresh_id w.sessions issued is))
              brought)

    after_start-Settled : (a : Answered C Store) → Issuing a → Settled (after_start server call a)
    after_start-Settled (w, ok done) h = h
    after_start-Settled (w, err e) h = clear_session_state_for_ctx-IsCleared server.gin laws e w.ctx
    after_start-Settled (w, panics) h = h

    pub start_session-Settled :
        (claims : AuthTokenClaims) (w : AuthWorld C Store)
        → get_and_parse_auth_token server call ≡ ok claims
        → Settled (start_session server call claims.user_id w)
    unfolding start_session
    start_session-Settled claims w is =
        after_start-Settled (issue_session_tokens server call claims.user_id call.session_id [] w) (
          issue_session_tokens-Issuing claims.user_id call.session_id [] w
            (inl (claims, is, refl, inr (refl, refl))))

    after_continue-Settled :
        (a : Answered C Store) → Issuing a → Settled (after_continue server call a)
    after_continue-Settled (w, ok done) h = h
    after_continue-Settled (w, panics) h = h
    after_continue-Settled (w, err e) h = elim (Bool-cases (is_invalidated e)) [
      | inl gone ↦ rw gone (clear_session_state_for_ctx-IsCleared server.gin laws e w.ctx)
      | inr other ↦ rw other (clear_session_state_for_ctx-IsCleared server.gin laws e w.ctx)
    ]

    continue_by_refresh-Settled :
        (auth_error : Option AuthFailure) (o : Outcome AuthFailure RefreshTokenClaims)
        (w : AuthWorld C Store)
        → get_and_parse_refresh_token server call ≡ o
        → o ≢ panics
        → Settled (continue_by_refresh server call auth_error o w)
    continue_by_refresh-Settled auth_error panics w is h = absurd (h refl)
    continue_by_refresh-Settled auth_error (err e) w is h =
        elim (Bool-cases (without_cookie server call auth_error e)) [
          | inl nothing ↦ rw nothing (clear_session_state_for_ctx-IsCleared server.gin laws e w.ctx)
          | inr cookie ↦ rw cookie (clear_session_state_for_ctx-IsCleared server.gin laws e w.ctx)
        ]
    continue_by_refresh-Settled auth_error (ok claims) w is h =
        after_continue-Settled
          (issue_session_tokens server call claims.user_id claims.session_id claims.id w)
          (issue_session_tokens-Issuing claims.user_id claims.session_id claims.id w
            (inr (claims, is, refl, refl, refl)))

    continue_unless_forced-Settled :
        (claims : AuthTokenClaims) (o : Outcome AuthFailure Bool) (w : AuthWorld C Store)
        → get_and_parse_auth_token server call ≡ ok claims
        → o ≢ panics
        → ((e : AuthFailure) → o ≢ err e)
        → Settled (continue_unless_forced server call claims o w)
    continue_unless_forced-Settled claims panics w is h never = absurd (h refl)
    continue_unless_forced-Settled claims (err e) w is h never = absurd (never e refl)
    continue_unless_forced-Settled claims (ok true) w is h never =
        continue_by_refresh-Settled none (get_and_parse_refresh_token server call) w refl
          (get_and_parse_refresh_token-returns server call)
    continue_unless_forced-Settled claims (ok false) w is h never =
        set_session_state claims.user_id claims.session_id claims.roles w
          (inl (claims, is, refl, inl (refl, refl)))

  module _ (laws : GinLaws C server.gin)
      (returns : (t : ℕ) (key : Bytes) (s : Store)
        → server.auth_refresh_cache.client.get t key s ≢ panics) where
    continue_since-Settled :
        (claims : AuthTokenClaims) (issued : Option ℕ) (w : AuthWorld C Store)
        → get_and_parse_auth_token server call ≡ ok claims
        → Settled (continue_since server call claims issued w)
    continue_since-Settled claims none w is = start_session-Settled laws claims w is
    continue_since-Settled claims (some issued_at) w is =
        elim (Bool-cases (eq_bytes claims.session_id [])) [
          | inl old ↦ rw old (start_session-Settled laws claims w is)
          | inr session ↦ rw session (
              continue_unless_forced-Settled laws claims
                (must_refresh_auth_token server.auth_refresh_cache server.scripts call.now
                  claims.user_id issued_at w.store)
                w is
                (must_refresh-returns server call returns call.now issued_at claims.user_id w.store)
                (must_refresh-answers server call call.now issued_at claims.user_id w.store))
        ]

    continue_by_auth-Settled :
        (o : Outcome AuthFailure AuthTokenClaims) (w : AuthWorld C Store)
        → get_and_parse_auth_token server call ≡ o
        → o ≢ panics
        → Settled (continue_by_auth server call o w)
    continue_by_auth-Settled panics w is h = absurd (h refl)
    continue_by_auth-Settled (err e) w is h =
        continue_by_refresh-Settled laws (some e) (get_and_parse_refresh_token server call) w refl
          (get_and_parse_refresh_token-returns server call)
    continue_by_auth-Settled (ok claims) w is h =
        continue_since-Settled claims claims.registered.issued_at w is

    pub continue_session-Settled :
        (w : AuthWorld C Store) → Settled (continue_session server call w)
    unfolding continue_session
    continue_session-Settled w =
        continue_by_auth-Settled (get_and_parse_auth_token server call) w refl
          (get_and_parse_auth_token-returns server call)

    log_ids-Served : (a : Answered C Store) → Settled a → Served a (log_ids server call a)
    log_ids-Served (w, err e) h = (h, refl)
    log_ids-Served (w, panics) h = absurd h
    log_ids-Served (w, ok done) (inl (user_id, session_id, roles, b, u, s, authed)) =
        inl ((user_id, session_id, roles, b, u, s, authed), rw (authed.user, authed.session) refl)
    log_ids-Served (w, ok done) (inr cleared) = inr (cleared, rw cleared.no_user refl)

    -- Whatever a request brings, `ContinueSession` returns. If it fails, nobody is logged in, the context
    -- has its error, and the middleware that calls it goes on. If it succeeds, then either the context has a
    -- user, a session and roles, the ids not empty, without an error, and the middleware goes on; or an id
    -- was missing, the context has that error, and the middleware panics. The user, the session and the
    -- roles are those of the request's auth token; or the user is the auth token's, with the new session; or
    -- the user and the session are the refresh token's; in the last two cases the roles are those that the
    -- table has for the user. Reading the cache must not panic, and gin must keep what is set.
    pub continue_session-Served :
        (w : AuthWorld C Store)
        → Served (continue_session server call w) (continue_session_handler server call w)
    unfolding continue_session_handler
    continue_session-Served w =
        log_ids-Served (continue_session server call w) (continue_session-Settled w)
