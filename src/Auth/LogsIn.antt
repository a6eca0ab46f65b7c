-- ===== src/Auth/LogsIn.antt =====
-- service/auth/auth.go: whom Login logs in.
use go_mutuals.Prelude.{
  ◌≡◌, ◌≢◌, ◌⊎◌, refl, sym, ap, ◌∙◌, subst, true, false, Option, none, some, [], inl, inr,
  Bool-cases, Outcome, ok, err, panics,
}
use go_mutuals.Cursor.Bytes.{Bytes, eq_bytes, eq_bytes→eq, eq_bytes_self}
use go_mutuals.Auth.{AuthFailure, User}
use go_mutuals.Auth.Context.{GinLaws, get_user_authed_from_ctx, get_user_id_from_ctx}
use go_mutuals.Auth.Issuing.{Server, Call, AuthWorld, Answered}
use go_mutuals.Auth.Sessions.{start_session}
use go_mutuals.Auth.Directory.{AuthResult}
use go_mutuals.Auth.Login.{is_same_user, give_id, start_unless, log_in, login}
use go_mutuals.Auth.Resume.{start_session-Started}

module _ {C Store : Type 0} (server : Server C Store) (call : Call) where
  -- The context has the user, who is logged in.
  abbrev IsLoggedIn : Bytes → AuthWorld C Store → Type 0
  IsLoggedIn user_id w =
      (get_user_authed_from_ctx server.gin w.ctx ≡ true)
      × (get_user_id_from_ctx server.gin w.ctx ≡ ok user_id)

  -- Whether this user was logged in already, and nothing is done, or a session is started.
  abbrev GoesOnOrStarts : Bytes → AuthWorld C Store → AuthWorld C Store → Type 0
  GoesOnOrStarts user_id w w' =
      (IsLoggedIn user_id w × (w' ≡ w))
      ⊎ (((get_user_authed_from_ctx server.gin w.ctx ≡ false)
            ⊎ (get_user_id_from_ctx server.gin w.ctx ≢ ok user_id))
          × (start_session server call user_id w ≡ (w', ok tt)))

  -- A login gives the user's id and leaves the user logged in, by either way.
  abbrev pub LogsIn : Bytes → Bytes → AuthWorld C Store → AuthWorld C Store → Type 0
  LogsIn id user_id w w' = (id ≡ user_id) × IsLoggedIn user_id w' × GoesOnOrStarts user_id w w'

module _ {C Store : Type 0} (server : Server C Store) (call : Call) (laws : GinLaws C server.gin)
    (in_session : call.session_id ≢ []) where
  started_ok :
      (user_id id : Bytes) (a : Answered C Store) (w' : AuthWorld C Store)
      → give_id server call user_id a ≡ (w', ok id)
      → (a ≡ (w', ok tt)) × (user_id ≡ id)
  started_ok user_id id (z, ok done) w' h = (cc, cc)
  started_ok user_id id (z, err e) w' h = cc
  started_ok user_id id (z, panics) w' h = cc

  started_as :
      (user_id id : Bytes) (w w' : AuthWorld C Store)
      → user_id ≢ []
      → (get_user_authed_from_ctx server.gin w.ctx ≡ false)
        ⊎ (get_user_id_from_ctx server.gin w.ctx ≢ ok user_id)
      → start_unless server call user_id (ok false) w ≡ (w', ok id)
      → LogsIn server call id user_id w w'
  started_as user_id id w w' named fresh h =
      let done = started_ok user_id id (start_session server call user_id w) w' h in
      let left = start_session-Started server call user_id named in_session laws w w' done.0 in
      (sym done.1, (left.3.authed, left.3.user), inr (fresh, done.0))

  start_unless_same :
      (user_id id : Bytes) (current : Outcome AuthFailure Bytes) (w w' : AuthWorld C Store)
      → user_id ≢ []
      → get_user_authed_from_ctx server.gin w.ctx ≡ true
      → get_user_id_from_ctx server.gin w.ctx ≡ current
      → start_unless server call user_id (is_same_user server call user_id current) w ≡ (w', ok id)
      → LogsIn server call id user_id w w'
  start_unless_same user_id id (err e) w w' named authed is h = cc
  start_unless_same user_id id panics w w' named authed is h = cc
  start_unless_same user_id id (ok current) w w' named authed is h =
      elim (Bool-cases (eq_bytes current user_id)) [
        | inl same ↦
            let stays = rw same at h in
            let here : w ≡ w' = cc in
            let it : user_id ≡ id = cc in
            let before : IsLoggedIn server call user_id w =
              (authed, is ∙ ap (λ (b : Bytes). ok b) (eq_bytes→eq current user_id same)) in
            (
              sym it,
              subst (λ (z : AuthWorld C Store). IsLoggedIn server call user_id z) here before,
              inl (before, sym here),
            )
        | inr other ↦
            started_as user_id id w w' named
              (inr (λ same.
                let held : current ≡ user_id = cc in
                cc (subst (λ z. eq_bytes z user_id ≡ false) held other, eq_bytes_self user_id)))
              (rw other at h)
      ]

  log_in_ok :
      (description : Bytes) (user : Option User) (w w' : AuthWorld C Store) (id : Bytes)
      → ((u : User) → user ≡ some u → u.id ≢ [])
      → log_in server call description user w ≡ (w', ok id)
      → (u : User) × (user ≡ some u) × (u.universal ≡ false) × LogsIn server call id u.id w w'
  log_in_ok description none w w' id named h = cc
  log_in_ok description (some u) w w' id named h = elim (Bool-cases u.universal) [
    | inl universal ↦ let refused = rw universal at h in cc
    | inr own ↦
        let goes_on = rw own at h in
        elim (Bool-cases (get_user_authed_from_ctx server.gin w.ctx)) [
          | inl authed ↦
              let made =
                start_unless_same u.id id (get_user_id_from_ctx server.gin w.ctx) w w'
                  (named u refl) authed refl (rw authed at goes_on) in
              (u, refl, own, made)
          | inr fresh ↦
              let made = started_as u.id id w w' (named u refl) (inl fresh) (rw fresh at goes_on) in
              (u, refl, own, made)
        ]
  ]

  -- Where Login succeeds, its authenticator gave a user who is not universal, whose id it gives, and
  -- afterwards the context has that user logged in. Either the same user was logged in already, and the
  -- world stays as it was, its session and cookies too; or nobody was, or somebody else, and what is left is
  -- what StartSession made for the user. The ids of users and of the new session must not be empty.
  pub login-LogsIn :
      (description : Bytes) (result : AuthResult) (w w' : AuthWorld C Store) (id : Bytes)
      → ((u : User) → result.user ≡ some u → u.id ≢ [])
      → login server call description (ok result) w ≡ (w', ok id)
      → (u : User) × (result.user ≡ some u)
        × (u.universal ≡ false)
        × LogsIn server call id u.id w w'
  unfolding login
  login-LogsIn description result w w' id named h =
      log_in_ok description result.user w w' id named h
