-- ===== src/Auth/Context.antt =====
-- service/auth/auth.go: the state of a session in the context of a request. The context is gin's, a
-- parameter; its values are of a dynamic type, which the getters assert.
use go_mutuals.Prelude.{
  ◌≡◌, refl, ap, ◌∙◌, Bool, true, false, Option, none, some, List, [], ◌∷◌, Outcome, ok, err,
  panics, ◌>>=◌,
}
use go_mutuals.Cursor.Bytes.{Bytes, eq_bytes}
use go_mutuals.Auth.{AuthFailure}

-- What the package puts into a context: a `persist.DBID`, a `string`, a `bool`, an `error`, which may be
-- nil, and a `[]persist.Role`.
pub data ContextValue : Type 0 where
  dbid : Bytes → ContextValue
  untyped_text : Bytes → ContextValue
  flag : Bool → ContextValue
  failure : Option AuthFailure → ContextValue
  role_list : List Bytes → ContextValue

-- `Set`, `MustGet` and `GetBool` of gin's context.
pub record Gin (C : Type 0) : Type 0 where
  pub set : Bytes → ContextValue → C → C
  pub must_get : Bytes → C → Outcome AuthFailure ContextValue
  pub get_bool : Bytes → C → Bool

-- What gin documents: a key has the value that was set last.
pub record GinLaws (C : Type 0) (gin : Gin C) : Type 0 where
  pub must_get_set :
      (key : Bytes) (v : ContextValue) (c : C) → gin.must_get key (gin.set key v c) ≡ ok v
  pub must_get_other :
      (key other : Bytes) (v : ContextValue) (c : C)
      → eq_bytes key other ≡ false
      → gin.must_get key (gin.set other v c) ≡ gin.must_get key c
  pub get_bool_set :
      (key : Bytes) (b : Bool) (c : C) → gin.get_bool key (gin.set key (flag b) c) ≡ b
  pub get_bool_other :
      (key other : Bytes) (v : ContextValue) (c : C)
      → eq_bytes key other ≡ false
      → gin.get_bool key (gin.set other v c) ≡ gin.get_bool key c

-- `auth.authenticated` and the others.
abbrev pub user_authed_context_key : Bytes
user_authed_context_key =
    b'a' ∷ b'u' ∷ b't' ∷ b'h' ∷ b'.' ∷ b'a' ∷ b'u' ∷ b't' ∷ b'h' ∷ b'e' ∷ b'n' ∷ b't' ∷ b'i' ∷ b'c'
    ∷ b'a' ∷ b't' ∷ b'e' ∷ b'd' ∷ []

abbrev pub user_id_context_key : Bytes
user_id_context_key =
    b'a' ∷ b'u' ∷ b't' ∷ b'h' ∷ b'.' ∷ b'u' ∷ b's' ∷ b'e' ∷ b'r' ∷ b'_' ∷ b'i' ∷ b'd' ∷ []

abbrev pub session_id_context_key : Bytes
session_id_context_key =
    b'a' ∷ b'u' ∷ b't' ∷ b'h' ∷ b'.' ∷ b's' ∷ b'e' ∷ b's' ∷ b's' ∷ b'i' ∷ b'o' ∷ b'n' ∷ b'_' ∷ b'i'
    ∷ b'd' ∷ []

abbrev pub auth_error_context_key : Bytes
auth_error_context_key =
    b'a' ∷ b'u' ∷ b't' ∷ b'h' ∷ b'.' ∷ b'a' ∷ b'u' ∷ b't' ∷ b'h' ∷ b'_' ∷ b'e' ∷ b'r' ∷ b'r' ∷ b'o'
    ∷ b'r' ∷ []

abbrev pub user_roles_context_key : Bytes
user_roles_context_key = b'a' ∷ b'u' ∷ b't' ∷ b'h' ∷ b'.' ∷ b'r' ∷ b'o' ∷ b'l' ∷ b'e' ∷ b's' ∷ []

-- The type assertions `.(persist.DBID)`, `.(error)` after the test for nil, and `.([]persist.Role)`.
abbrev pub as_dbid : ContextValue → Outcome AuthFailure Bytes
as_dbid (dbid id) = ok id
as_dbid v = panics

abbrev pub as_error : ContextValue → Outcome AuthFailure (Option AuthFailure)
as_error (failure e) = ok e
as_error v = panics

abbrev pub as_roles : ContextValue → Outcome AuthFailure (List Bytes)
as_roles (role_list roles) = ok roles
as_roles v = panics

module _ {C : Type 0} (gin : Gin C) where
  unfoldable pub get_session_id_from_ctx : C → Outcome AuthFailure Bytes
  get_session_id_from_ctx c = gin.must_get session_id_context_key c >>= as_dbid

  unfoldable pub get_user_id_from_ctx : C → Outcome AuthFailure Bytes
  get_user_id_from_ctx c = gin.must_get user_id_context_key c >>= as_dbid

  unfoldable pub get_user_authed_from_ctx : C → Bool
  get_user_authed_from_ctx c = gin.get_bool user_authed_context_key c

  unfoldable pub get_auth_error_from_ctx : C → Outcome AuthFailure (Option AuthFailure)
  get_auth_error_from_ctx c = gin.must_get auth_error_context_key c >>= as_error

  unfoldable pub get_roles_from_ctx : C → Outcome AuthFailure (List Bytes)
  get_roles_from_ctx c = gin.must_get user_roles_context_key c >>= as_roles

  -- The five calls of `Set` that both setters of the state make.
  abbrev pub set_state :
      ContextValue → ContextValue → Option AuthFailure → Bool → List Bytes → C → C
  set_state user_id session_id e authed roles c = gin.set user_roles_context_key (role_list roles) (
      gin.set user_authed_context_key (flag authed) (
        gin.set auth_error_context_key (failure e)
          (gin.set session_id_context_key session_id (gin.set user_id_context_key user_id c))))

  -- `clearSessionStateForCtx`, which sets the ids to the constant "", a `string`.
  unfoldable pub clear_session_state_for_ctx : AuthFailure → C → C
  clear_session_state_for_ctx e c =
      set_state (untyped_text []) (untyped_text []) (some e) false [] c

  -- What `setSessionStateForCtx` does to the context, if it has both ids.
  unfoldable pub write_session_state : Bytes → Bytes → List Bytes → C → C
  write_session_state user_id session_id roles c =
      set_state (dbid user_id) (dbid session_id) none true roles c

  -- `getAuthenticatedUserID` of publicapi/publicapi.go
  abbrev pub user_id_unless : C → Option AuthFailure → Outcome AuthFailure Bytes
  user_id_unless c none = get_user_id_from_ctx c
  user_id_unless c (some e) = err e

  unfoldable pub get_authenticated_user_id : C → Outcome AuthFailure Bytes
  get_authenticated_user_id c = get_auth_error_from_ctx c >>= user_id_unless c

  -- A context in which a user is logged in, and one in which nobody is: its ids are not to be read.
  pub record IsAuthed (user_id session_id : Bytes) (roles : List Bytes) (c : C) : Type 0 where
    pub authed : get_user_authed_from_ctx c ≡ true
    pub no_error : get_auth_error_from_ctx c ≡ ok none
    pub user : get_user_id_from_ctx c ≡ ok user_id
    pub session : get_session_id_from_ctx c ≡ ok session_id
    pub has_roles : get_roles_from_ctx c ≡ ok roles

  pub record IsCleared (e : AuthFailure) (c : C) : Type 0 where
    pub not_authed : get_user_authed_from_ctx c ≡ false
    pub has_error : get_auth_error_from_ctx c ≡ ok (some e)
    pub no_user : get_user_id_from_ctx c ≡ panics
    pub no_session : get_session_id_from_ctx c ≡ panics
    pub no_roles : get_roles_from_ctx c ≡ ok []

  module _ (laws : GinLaws C gin) (u i : ContextValue) (e : Option AuthFailure) (authed : Bool)
      (roles : List Bytes) (c : C) where
    state_authed : get_user_authed_from_ctx (set_state u i e authed roles c) ≡ authed
    unfolding get_user_authed_from_ctx
    state_authed = laws.get_bool_other _ _ _ _ refl ∙ laws.get_bool_set _ _ _

    state_error : get_auth_error_from_ctx (set_state u i e authed roles c) ≡ ok e
    unfolding get_auth_error_from_ctx
    state_error =
        ap (λ v. v >>= as_error)
          (laws.must_get_other auth_error_context_key _ _ _ refl
            ∙ laws.must_get_other _ _ _ _ refl
            ∙ laws.must_get_set _ _ _)

    state_user : get_user_id_from_ctx (set_state u i e authed roles c) ≡ as_dbid u
    unfolding get_user_id_from_ctx
    state_user =
        ap (λ v. v >>= as_dbid)
          (laws.must_get_other user_id_context_key _ _ _ refl
            ∙ laws.must_get_other _ _ _ _ refl
            ∙ laws.must_get_other _ _ _ _ refl
            ∙ laws.must_get_other _ _ _ _ refl
            ∙ laws.must_get_set _ _ _)

    state_session : get_session_id_from_ctx (set_state u i e authed roles c) ≡ as_dbid i
    unfolding get_session_id_from_ctx
    state_session =
        ap (λ v. v >>= as_dbid)
          (laws.must_get_other session_id_context_key _ _ _ refl
            ∙ laws.must_get_other _ _ _ _ refl
            ∙ laws.must_get_other _ _ _ _ refl
            ∙ laws.must_get_set _ _ _)

    state_roles : get_roles_from_ctx (set_state u i e authed roles c) ≡ ok roles
    unfolding get_roles_from_ctx
    state_roles = ap (λ v. v >>= as_roles) (laws.must_get_set _ _ _)

  pub write_session_state-IsAuthed :
      GinLaws C gin
      → (user_id session_id : Bytes) (roles : List Bytes) (c : C)
      → IsAuthed user_id session_id roles (write_session_state user_id session_id roles c)
  unfolding write_session_state
  write_session_state-IsAuthed laws user_id session_id roles c = record {
    authed = state_authed laws (dbid user_id) (dbid session_id) none true roles c;
    no_error = state_error laws (dbid user_id) (dbid session_id) none true roles c;
    user = state_user laws (dbid user_id) (dbid session_id) none true roles c;
    session = state_session laws (dbid user_id) (dbid session_id) none true roles c;
    has_roles = state_roles laws (dbid user_id) (dbid session_id) none true roles c;
  }

  pub clear_session_state_for_ctx-IsCleared :
      GinLaws C gin → (e : AuthFailure) (c : C) → IsCleared e (clear_session_state_for_ctx e c)
  unfolding clear_session_state_for_ctx
  clear_session_state_for_ctx-IsCleared laws e c = record {
    not_authed = state_authed laws (untyped_text []) (untyped_text []) (some e) false [] c;
    has_error = state_error laws (untyped_text []) (untyped_text []) (some e) false [] c;
    no_user = state_user laws (untyped_text []) (untyped_text []) (some e) false [] c;
    no_session = state_session laws (untyped_text []) (untyped_text []) (some e) false [] c;
    no_roles = state_roles laws (untyped_text []) (untyped_text []) (some e) false [] c;
  }
