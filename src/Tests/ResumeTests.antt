-- ===== src/Tests/ResumeTests.antt =====
-- A session that is started and resumed, with a signer that knows one token.
use go_mutuals.Prelude.{
  arith, ℕ, ◌+◌, ◌*◌, ◌≡◌, ◌<◌, ◌⊎◌, refl, sym, ap, ◌∙◌, false, Option, none, some, [], ◌∷◌, ltb,
  ltb→lt, lt→ltb, if◌then◌else◌, inl, inr, Bool-cases, Outcome, ok,
}
use native.Mathlib.Decide.{ℕ_discrete}
use go_mutuals.Cursor.Bytes.{Bytes}
use go_mutuals.Auth.{AuthFailure, second}
use go_mutuals.Auth.Context.{IsAuthed}
use go_mutuals.Auth.Cookies.{get_cookie, auth_cookie_key, set_cookie, set_session_cookies}
use go_mutuals.Auth.Claims.{
  AuthTokenClaims, TokenType, Signer, SignerLaws, auth_claims_for, new_split_fi_claims,
  numeric_date, generate_jwt, generate_auth_token, generate_refresh_token,
}
use go_mutuals.Auth.Tables.{upsert_session, new_session, get_user_roles_by_user_id}
use go_mutuals.Auth.Refresh.{must_refresh_auth_token, get_time}
use go_mutuals.Throttle.{cache_get, prefixed_key}
use go_mutuals.Auth.Issuing.{
  Server, Call, AuthWorld, issue_session_tokens, issue, roles_by_user_id, session_params,
  set_session_state_for_ctx, Issued, after_issue,
}
use go_mutuals.Auth.Sessions.{start_session, continue_session, after_start}
use go_mutuals.Auth.Resume.{cookie_in, start_session-Resumes}
use go_mutuals.Tests.ThrottleTests.{Store}
use go_mutuals.Tests.AuthTests.{
  Ctx, gin, gin-GinLaws, user, settings, jwt, server, call_at, world, session_row,
}

TokenType-discrete : Discrete TokenType
TokenType-discrete = hlevel

AuthTokenClaims-discrete : Discrete AuthTokenClaims
AuthTokenClaims-discrete = hlevel (TokenType-discrete, ℕ_discrete)

-- The call that starts the session, of a user with a role, and the claims of its auth token.
abbrev start_call : Call
start_call = record (call_at (100 * second)) {
  user_roles = (record { user_id = user; role = b'R' ∷ []; deleted = false }) ∷ [];
}

abbrev the_claims : AuthTokenClaims
the_claims =
    auth_claims_for settings (100 * second) user start_call.session_id []
      (get_user_roles_by_user_id user start_call.user_roles)

abbrev sign_if : {claims : AuthTokenClaims} → Dec (claims ≡ the_claims) → Bytes ⊎ ℕ
sign_if (yes e) = inl (b'c' ∷ [])
sign_if (no n) = inr 0

abbrev one_signer : Signer AuthTokenClaims
one_signer = record {
  signed_string = λ claims secret. sign_if (AuthTokenClaims-discrete claims the_claims);
  parse_with_claims = λ now token secret. if ltb now (400 * second) then some the_claims else none;
}

signs : (d : Dec (the_claims ≡ the_claims)) → sign_if d ≡ inl (b'c' ∷ [])
signs (yes e) = refl
signs (no n) = absurd (n refl)

signed_as :
    {claims : AuthTokenClaims} (d : Dec (claims ≡ the_claims)) (token : Bytes)
    → sign_if d ≡ inl token
    → claims ≡ the_claims
signed_as (yes e) token h = e
signed_as (no n) token h = cc

expires : the_claims.registered.expires_at ≡ some (400 * second)
unfolding auth_claims_for new_split_fi_claims numeric_date
expires = refl

one_signer-SignerLaws : SignerLaws AuthTokenClaims (λ c. c.registered) one_signer
one_signer-SignerLaws = record {
  parse_signed = λ now expiry issued claims secret token h expiry_is issued_is after before.
      let is : claims ≡ the_claims =
        signed_as (AuthTokenClaims-discrete claims the_claims) token h in
      let until : some expiry ≡ some (400 * second) =
        sym expiry_is ∙ ap (λ (c : AuthTokenClaims). c.registered.expires_at) is ∙ expires in
      let same : expiry ≡ 400 * second = cc in
      rw (lt→ltb now (400 * second) (omega arith)) (ap (λ (c : AuthTokenClaims). some c) (sym is));
  parse_expired = λ now expiry claims secret token h expiry_is.
      elim (Bool-cases (ltb now (400 * second))) [
        | inl early ↦
            let made : some the_claims ≡ some claims = rw early at h in
            let is : the_claims ≡ claims = cc in
            let until : some expiry ≡ some (400 * second) =
              sym expiry_is
              ∙ ap (λ (c : AuthTokenClaims). c.registered.expires_at) (sym is)
              ∙ expires in
            let same : expiry ≡ 400 * second = cc in
            let soon = ltb→lt now (400 * second) early in omega arith
        | inr late ↦ let refused = rw late at h in cc
      ];
}

abbrev resuming : Server Ctx Store
resuming = record server { jwt = record jwt { auth_signer = one_signer } }

generated :
    (signer : Signer AuthTokenClaims) (claims : AuthTokenClaims) (secret token : Bytes)
    → signer.signed_string claims secret ≡ inl token
    → generate_jwt signer claims secret ≡ ok token
unfolding generate_jwt
generated signer claims secret token h = rw (h, generate_jwt) refl

auth_token :
    generate_auth_token settings resuming.jwt
      (100 * second)
      user
      start_call.session_id
      []
      (get_user_roles_by_user_id user start_call.user_roles)
    ≡ ok (b'c' ∷ [])
unfolding generate_auth_token
auth_token =
    generated one_signer the_claims settings.auth_jwt_secret (b'c' ∷ [])
      (signs (AuthTokenClaims-discrete the_claims the_claims))

abbrev issued : Outcome AuthFailure Issued
issued = ok (record {
  refresh_token = b'r' ∷ [];
  roles = get_user_roles_by_user_id user start_call.user_roles;
  auth_token = b'c' ∷ [];
  row = new_session (100 * second) (session_params resuming start_call user start_call.session_id);
  rows =
      session_row
      ∷ new_session (100 * second) (session_params resuming start_call user start_call.session_id)
      ∷ [];
})

issued_is : issue resuming start_call user start_call.session_id [] world.sessions ≡ issued
unfolding issue roles_by_user_id generate_jwt generate_refresh_token upsert_session session_params
issued_is = rw (auth_token) refl

abbrev started_world : AuthWorld Ctx Store
started_world =
    (after_start resuming start_call
      (after_issue resuming start_call user start_call.session_id issued world)).0

started : start_session resuming start_call user world ≡ (started_world, ok tt)
unfolding start_session issue_session_tokens new_session
started = rw (issued_is) refl

abbrev resumed_call : Call
resumed_call = call_at (300 * second)

abbrev from_some : Option Bytes → Bytes
from_some none = []
from_some (some b) = b

brings :
    (token : Bytes)
    → cookie_in auth_cookie_key started_world.cookies ≡ some token
    → get_cookie resumed_call.request auth_cookie_key ≡ ok token
unfolding get_cookie set_session_cookies set_cookie new_session set_session_state_for_ctx
brings token h = ap (λ o. ok (from_some o)) h

in_time : 300 * second < numeric_date (100 * second + 300 * second)
unfolding numeric_date
in_time = omega arith

unforced :
    must_refresh_auth_token resuming.auth_refresh_cache resuming.scripts
      (300 * second)
      user
      (numeric_date (100 * second))
      []
    ≡ ok false
unfolding must_refresh_auth_token get_time cache_get prefixed_key
unforced = refl

start_session-Resumes_example :
    IsAuthed gin user start_call.session_id
      (get_user_roles_by_user_id user start_call.user_roles)
      started_world.ctx
    × ((continue_session resuming resumed_call world).1 ≡ ok tt)
    × IsAuthed gin user start_call.session_id
        (get_user_roles_by_user_id user start_call.user_roles)
        (continue_session resuming resumed_call world).0.ctx
start_session-Resumes_example =
    start_session-Resumes resuming start_call user (λ e. cc) (λ e. cc) gin-GinLaws resumed_call
      world started_world world one_signer-SignerLaws started brings (omega arith) in_time unforced
