-- ===== src/Auth/Claims.antt =====
-- service/auth/jwt.go: the claims of the tokens. Signing and checking a token are the jwt library's, a
-- parameter; times in a token are whole seconds.
use go_mutuals.Prelude.{
  ℕ, ◌+◌, ◌*◌, ◌/◌, ◌≡◌, ◌≤◌, ◌<◌, ◌⊎◌, inl, inr, Option, none, some, List, [], ◌∷◌, Outcome, ok,
  err, panics,
}
use go_mutuals.Cursor.Bytes.{Bytes}
use go_mutuals.Auth.{AuthFailure, invalid_jwt, signing_failed, second, Settings}

pub data TokenType : Type 0 where
  token_type_auth token_type_refresh token_type_one_time_login token_type_email_verification :
      TokenType

-- `SplitFiClaims` with its `jwt.RegisteredClaims`; a time that a token does not have is none.
pub record SplitFiClaims : Type 0 where
  pub token_type : TokenType
  pub expires_at : Option ℕ
  pub issuer : Bytes
  pub issued_at : Option ℕ

pub record AuthTokenClaims : Type 0 where
  pub user_id : Bytes
  pub session_id : Bytes
  pub refresh_id : Bytes
  pub roles : List Bytes
  pub registered : SplitFiClaims

pub record RefreshTokenClaims : Type 0 where
  pub id : Bytes
  pub parent_id : Bytes
  pub user_id : Bytes
  pub session_id : Bytes
  pub registered : SplitFiClaims

pub record OneTimeLoginClaims : Type 0 where
  pub user_id : Bytes
  pub source : Bytes
  pub registered : SplitFiClaims

pub record EmailVerificationClaims : Type 0 where
  pub user_id : Bytes
  pub email : Bytes
  pub registered : SplitFiClaims

-- `SignedString`, and `ParseWithClaims` for each of the types; none if the token is not valid at that
-- time.
pub record Signer (T : Type 0) : Type 0 where
  pub signed_string : T → Bytes → Bytes ⊎ ℕ
  pub parse_with_claims : ℕ → Bytes → Bytes → Option T

pub record Jwt : Type 0 where
  pub auth_signer : Signer AuthTokenClaims
  pub refresh_signer : Signer RefreshTokenClaims
  pub one_time_login_signer : Signer OneTimeLoginClaims
  pub email_verification_signer : Signer EmailVerificationClaims

-- What the library documents: a signed token gives its claims back under the same secret, from the time
-- at which it was issued and before the one at which it expires; then it is not valid.
pub record SignerLaws (T : Type 0) (registered : T → SplitFiClaims) (signer : Signer T)
    : Type 0 where
  pub parse_signed :
      (now expiry issued : ℕ) (claims : T) (secret token : Bytes)
      → signer.signed_string claims secret ≡ inl token
      → (registered claims).expires_at ≡ some expiry
      → (registered claims).issued_at ≡ some issued
      → issued ≤ now
      → now < expiry
      → signer.parse_with_claims now token secret ≡ some claims
  pub parse_expired :
      (now expiry : ℕ) (claims : T) (secret token : Bytes)
      → signer.parse_with_claims now token secret ≡ some claims
      → (registered claims).expires_at ≡ some expiry
      → now < expiry

-- `jwt.NewNumericDate`
unfoldable pub numeric_date : ℕ → ℕ
numeric_date t = t / second * second

unfoldable pub new_split_fi_claims : ℕ → TokenType → ℕ → SplitFiClaims
new_split_fi_claims now token_type valid_for = record {
  token_type = token_type;
  expires_at = some (numeric_date (now + valid_for));
  issuer = b's' ∷ b'p' ∷ b'l' ∷ b'i' ∷ b't' ∷ b'f' ∷ b'i' ∷ [];
  issued_at = some (numeric_date now);
}

-- `generateJWT`
unfoldable pub generate_jwt : {T : Type 0} → Signer T → T → Bytes → Outcome AuthFailure Bytes
generate_jwt signer claims secret = elim (signer.signed_string claims secret) [
  | inl token ↦ ok token
  | inr n ↦ err (signing_failed n)
]

-- The `Parse` functions give an error for a token that is not valid.
abbrev pub valid_claims : {T : Type 0} → Option T → Outcome AuthFailure T
valid_claims none = err invalid_jwt
valid_claims (some claims) = ok claims

module _ (settings : Settings) where
  unfoldable pub auth_claims_for : ℕ → Bytes → Bytes → Bytes → List Bytes → AuthTokenClaims
  auth_claims_for now user_id session_id refresh_id roles = record {
    user_id = user_id;
    session_id = session_id;
    refresh_id = refresh_id;
    roles = roles;
    registered = new_split_fi_claims now token_type_auth (settings.auth_jwt_ttl * second);
  }

  unfoldable pub refresh_claims_for : ℕ → Bytes → Bytes → Bytes → Bytes → RefreshTokenClaims
  refresh_claims_for now id parent_id user_id session_id = record {
    id = id;
    parent_id = parent_id;
    user_id = user_id;
    session_id = session_id;
    registered = new_split_fi_claims now token_type_refresh (settings.refresh_jwt_ttl * second);
  }

  -- The time that `GenerateRefreshToken` gives with the token.
  unfoldable pub refresh_expires_at : ℕ → ℕ
  refresh_expires_at now = now + settings.refresh_jwt_ttl * second

module _ (settings : Settings) (jwt : Jwt) where
  unfoldable pub generate_auth_token :
      ℕ → Bytes → Bytes → Bytes → List Bytes → Outcome AuthFailure Bytes
  generate_auth_token now user_id session_id refresh_id roles =
      generate_jwt jwt.auth_signer
        (auth_claims_for settings now user_id session_id refresh_id roles) settings.auth_jwt_secret

  unfoldable pub parse_auth_token : ℕ → Bytes → Outcome AuthFailure AuthTokenClaims
  parse_auth_token now token =
      valid_claims (jwt.auth_signer.parse_with_claims now token settings.auth_jwt_secret)

  unfoldable pub generate_refresh_token :
      ℕ → Bytes → Bytes → Bytes → Bytes → Outcome AuthFailure Bytes
  generate_refresh_token now id parent_id user_id session_id =
      generate_jwt jwt.refresh_signer
        (refresh_claims_for settings now id parent_id user_id session_id)
        settings.refresh_jwt_secret

  unfoldable pub parse_refresh_token : ℕ → Bytes → Outcome AuthFailure RefreshTokenClaims
  parse_refresh_token now token =
      valid_claims (jwt.refresh_signer.parse_with_claims now token settings.refresh_jwt_secret)

  unfoldable pub generate_one_time_login_token : ℕ → Bytes → Bytes → ℕ → Outcome AuthFailure Bytes
  generate_one_time_login_token now user_id source valid_for =
      generate_jwt jwt.one_time_login_signer
        (record {
          user_id = user_id;
          source = source;
          registered = new_split_fi_claims now token_type_one_time_login valid_for;
        })
        settings.one_time_login_jwt_secret

  -- `ParseOneTimeLoginToken` reads through the pointer `ExpiresAt`.
  abbrev pub login_of : Outcome AuthFailure OneTimeLoginClaims → Outcome AuthFailure (Bytes × ℕ)
  login_of panics = panics
  login_of (err e) = err e
  login_of (ok claims) = elim claims.registered.expires_at [
    | none ↦ panics
    | some t ↦ ok (claims.user_id, t)
  ]

  unfoldable pub parse_one_time_login_token : ℕ → Bytes → Outcome AuthFailure (Bytes × ℕ)
  parse_one_time_login_token now token = login_of (
      valid_claims
        (jwt.one_time_login_signer.parse_with_claims now token settings.one_time_login_jwt_secret))

  unfoldable pub generate_email_verification_token : ℕ → Bytes → Bytes → Outcome AuthFailure Bytes
  generate_email_verification_token now user_id email =
      generate_jwt jwt.email_verification_signer
        (record {
          user_id = user_id;
          email = email;
          registered =
              new_split_fi_claims now token_type_email_verification
                (settings.email_verification_jwt_ttl * second);
        })
        settings.email_verification_jwt_secret

  abbrev pub verification_of :
      Outcome AuthFailure EmailVerificationClaims → Outcome AuthFailure (Bytes × Bytes)
  verification_of panics = panics
  verification_of (err e) = err e
  verification_of (ok claims) = ok (claims.user_id, claims.email)

  unfoldable pub parse_email_verification_token : ℕ → Bytes → Outcome AuthFailure (Bytes × Bytes)
  parse_email_verification_token now token = verification_of (
      valid_claims (
        jwt.email_verification_signer.parse_with_claims now token
          settings.email_verification_jwt_secret))
