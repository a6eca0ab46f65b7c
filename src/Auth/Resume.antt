-- ===== src/Auth/Resume.antt =====
-- service/auth/auth.go: a session that was started is continued by the cookies that it set.
use go_mutuals.Prelude.{
  arith, ℕ, ◌+◌, ◌*◌, ◌≡◌, ◌≢◌, ◌≤◌, ◌<◌, refl, sym, ap, ◌∙◌, subst, false, Option, none, some,
  List, [], ◌∷◌, ◌++◌, if◌then◌else◌, inl, inr, Bool-cases, Option-cases, Outcome, ok, err, panics,
}
use go_mutuals.Cursor.Bytes.{eq_bytes_apart, Bytes, eq_bytes}
use go_mutuals.Auth.{AuthFailure, second, Settings}
use go_mutuals.Auth.Context.{GinLaws, IsAuthed, write_session_state, write_session_state-IsAuthed}
use go_mutuals.Auth.Cookies.{
  Request, Cookie, auth_cookie_key, refresh_cookie_key, set_cookie, set_session_cookies, get_cookie,
}
use go_mutuals.Auth.Claims.{
  AuthTokenClaims, SignerLaws, generate_jwt, generate_auth_token, generate_refresh_token,
  auth_claims_for, new_split_fi_claims, numeric_date, parse_auth_token,
}
use go_mutuals.Auth.Tables.{get_user_roles_by_user_id}
use go_mutuals.Auth.Refresh.{must_refresh_auth_token}
use go_mutuals.Auth.Issuing.{
  Server, Call, AuthWorld, Answered, Issued, roles_by_user_id, set_session_state_for_ctx, issue,
  after_issue, issue_session_tokens,
}
use go_mutuals.Auth.Sessions.{
  after_start, start_session, get_and_parse_auth_token, continue_session,
}

-- What a client keeps of the cookies that were set: the last of each name.
abbrev pub later_cookie : Option Bytes → Option Bytes → Option Bytes
later_cookie (some v) earlier = some v
later_cookie none earlier = earlier

abbrev pub cookie_in : Bytes → List Cookie → Option Bytes
cookie_in name [] = none
cookie_in name (k ∷ cookies) =
    later_cookie (cookie_in name cookies) (if eq_bytes k.name name then some k.value else none)

cookie_in-append :
    (name : Bytes) (ks ls : List Cookie)
    → cookie_in name (ks ++ ls) ≡ later_cookie (cookie_in name ls) (cookie_in name ks)
cookie_in-append name [] ls = elim (Option-cases (cookie_in name ls)) [
  | inl missing ↦ rw missing refl
  | inr found ↦ rw found.1 refl
]
cookie_in-append name (k ∷ ks) ls = elim (Option-cases (cookie_in name ls)) [
  | inl missing ↦ rw (cookie_in-append name ks ls) (rw missing refl)
  | inr found ↦ rw (cookie_in-append name ks ls) (rw found.1 refl)
]

module _ (settings : Settings) (request : Request) (now : ℕ) where
  cookie_in-set_cookie :
      (name other value : Bytes) (cookies : List Cookie)
      → cookie_in name (set_cookie settings request now other value cookies)
        ≡ later_cookie (if eq_bytes other name then some value else none) (cookie_in name cookies)
  unfolding set_cookie
  cookie_in-set_cookie name other value cookies = cookie_in-append name cookies _

  cookie_in-set_session_cookies :
      (auth_token refresh_token : Bytes) (cookies : List Cookie)
      → cookie_in auth_cookie_key
          (set_session_cookies settings request now auth_token refresh_token cookies)
        ≡ some auth_token
  unfolding set_session_cookies
  cookie_in-set_session_cookies auth_token refresh_token cookies =
      cookie_in-set_cookie auth_cookie_key refresh_cookie_key refresh_token
        (set_cookie settings request now auth_cookie_key auth_token cookies)
      ∙ cookie_in-set_cookie auth_cookie_key auth_cookie_key auth_token cookies

numeric_date_le : (t now : ℕ) → t ≤ now → numeric_date t ≤ now
unfolding numeric_date
numeric_date_le t now h = omega arith

module _ {C Store : Type 0} (server : Server C Store) (call : Call) (user_id : Bytes)
    (named : user_id ≢ []) (in_session : call.session_id ≢ []) where
  abbrev pub own_roles : List Bytes
  own_roles = get_user_roles_by_user_id user_id call.user_roles

  issued_as :
      (session_id parent_refresh_id : Bytes) (w : AuthWorld C Store) (issued : Issued)
      → issue server call user_id session_id parent_refresh_id w.sessions ≡ ok issued
      → (issued.roles ≡ own_roles)
        × (server.jwt.auth_signer.signed_string
              (auth_claims_for server.settings call.now user_id session_id parent_refresh_id
                own_roles)
              server.settings.auth_jwt_secret
            ≡ inl issued.auth_token)
  unfolding issue generate_refresh_token generate_auth_token roles_by_user_id generate_jwt
  issued_as session_id parent_refresh_id w issued h = ground (arith, h)

  is_named : eq_bytes user_id [] ≡ false
  is_named = eq_bytes_apart user_id [] named

  is_in_session : eq_bytes call.session_id [] ≡ false
  is_in_session = eq_bytes_apart call.session_id [] in_session

  -- The state and the cookie that a started session leaves.
  abbrev pub Started : AuthWorld C Store → Type 0
  Started w' =
      (token : Bytes) × (cookie_in auth_cookie_key w'.cookies ≡ some token)
      × (server.jwt.auth_signer.signed_string
            (auth_claims_for server.settings call.now user_id call.session_id [] own_roles)
            server.settings.auth_jwt_secret
          ≡ inl token)
      × IsAuthed server.gin user_id call.session_id own_roles w'.ctx

  module _ (laws : GinLaws C server.gin) where
    after_start-Started :
        (o : Outcome AuthFailure Issued) (w w' : AuthWorld C Store)
        → issue server call user_id call.session_id [] w.sessions ≡ o
        → after_start server call (after_issue server call user_id call.session_id o w)
          ≡ (w', ok tt)
        → Started w'
    unfolding set_session_state_for_ctx
    after_start-Started (err e) w w' is h = cc
    after_start-Started panics w w' is h = cc
    after_start-Started (ok issued) w w' is h = elim (Bool-cases issued.row.invalidated) [
      | inl gone ↦ let refused = rw gone at h in cc
      | inr live ↦
          let made = ap (λ a. a.0) (rw (live, is_named, is_in_session) at h) in
          let facts = issued_as call.session_id [] w issued is in
          subst (λ (z : AuthWorld C Store). Started z) made
            (
              issued.auth_token,
              cookie_in-set_session_cookies server.settings call.request call.now issued.auth_token
                  issued.refresh_token w.cookies,
              facts.1,
              subst
                  (λ (r : List Bytes).
                    IsAuthed server.gin user_id call.session_id own_roles
                      (write_session_state server.gin user_id call.session_id r w.ctx))
                  (sym facts.0)
                  (write_session_state-IsAuthed server.gin laws user_id call.session_id own_roles
                    w.ctx),
            )
    ]

    pub start_session-Started :
        (w w' : AuthWorld C Store) → start_session server call user_id w ≡ (w', ok tt) → Started w'
    unfolding start_session issue_session_tokens
    start_session-Started w w' h =
        after_start-Started (issue server call user_id call.session_id [] w.sessions) w w' refl h

    -- A session that was started is resumed: the context that StartSession leaves has the user, the new
    -- session and the user's roles, and a later request that brings the auth cookie that it set, before the
    -- token expires and while no refresh is forced, gets the same user, session and roles in its context
    -- by ContinueSession. The ids must not be empty.
    pub start_session-Resumes :
        (next : Call) (w w' w2 : AuthWorld C Store)
        → SignerLaws AuthTokenClaims (λ c. c.registered) server.jwt.auth_signer
        → start_session server call user_id w ≡ (w', ok tt)
        → ((token : Bytes)
            → cookie_in auth_cookie_key w'.cookies ≡ some token
            → get_cookie next.request auth_cookie_key ≡ ok token)
        → call.now ≤ next.now
        → next.now < numeric_date (call.now + server.settings.auth_jwt_ttl * second)
        → must_refresh_auth_token server.auth_refresh_cache server.scripts next.now user_id
            (numeric_date call.now)
            w2.store
          ≡ ok false
        → IsAuthed server.gin user_id call.session_id own_roles w'.ctx
          × ((continue_session server next w2).1 ≡ ok tt)
          × IsAuthed server.gin user_id call.session_id own_roles
              (continue_session server next w2).0.ctx
    unfolding continue_session get_and_parse_auth_token parse_auth_token set_session_state_for_ctx
        auth_claims_for new_split_fi_claims
    start_session-Resumes next w w' w2 signer_laws started brings after before unforced =
        let left = start_session-Started w w' started in
        let parsed =
          signer_laws.parse_signed next.now
            (numeric_date (call.now + server.settings.auth_jwt_ttl * second))
            (numeric_date call.now)
            (auth_claims_for server.settings call.now user_id call.session_id [] own_roles)
            server.settings.auth_jwt_secret left.0 left.2 refl refl
            (numeric_date_le call.now next.now after) before in
        let continued : continue_session server next w2 ≡ (
          record w2 {
            ctx = write_session_state server.gin user_id call.session_id own_roles w2.ctx;
          },
          ok tt,
        ) =
          rw (brings left.0 left.1)
            (rw parsed (rw is_in_session (rw unforced (rw is_named (rw is_in_session refl))))) in
        (
          left.3,
          ap (λ a. a.1) continued,
          subst
              (λ (a : Answered C Store).
                IsAuthed server.gin user_id call.session_id own_roles a.0.ctx)
              (sym continued)
              (write_session_state-IsAuthed server.gin laws user_id call.session_id own_roles
                w2.ctx),
        )
