-- ===== src/Auth/LoginTokens.antt =====
-- service/auth/auth.go: a one-time login token logs in once.
use go_mutuals.Prelude.{
  arith, ℕ, ◌+◌, ◌-◌, ◌≡◌, ◌≢◌, ◌<◌, refl, sym, ap, subst, Bool, true, false, List, [], ◌∷◌, All,
  Outcome, ok, err, panics,
}
use go_mutuals.Cursor.Bytes.{Bytes}
use go_mutuals.Throttle.{ClientError, Client, Cache, prefixed_key}
use go_mutuals.Auth.{AuthFailure, minute, Settings}
use go_mutuals.Auth.Claims.{Jwt, parse_one_time_login_token}
use go_mutuals.Auth.Directory.{AuthResult, Directory}
use go_mutuals.Auth.Login.{
  SetNx, nx_answer, cache_set_nx, after_set_nx, login_with, one_time_login_authenticate,
}

-- What Redis documents of SET with NX: it sets a key that is not there, until it expires, changes nothing
-- where the key is there, and leaves the other keys.
pub record NxLaws (Store : Type 0) (client : Client Store) (set_nx : SetNx Store) : Type 0 where
  pub nx_set :
      (now ttl t : ℕ) (key value : Bytes) (s s' : Store)
      → set_nx now key value ttl s ≡ (s', ok true)
      → t < now + ttl
      → client.get t key s' ≡ ok value
  pub nx_there :
      (now ttl : ℕ) (key value found : Bytes) (s s' : Store) (done : Bool)
      → client.get now key s ≡ ok found
      → set_nx now key value ttl s ≡ (s', ok done)
      → done ≡ false
  pub nx_kept :
      (now ttl t : ℕ) (key value other found : Bytes) (s : Store)
      → client.get now other s ≡ ok found
      → client.get t other s ≡ ok found
      → client.get t other (set_nx now key value ttl s).0 ≡ ok found

module _ {Store : Type 0} (cache : Cache Store) (set_nx : SetNx Store) (settings : Settings)
    (jwt : Jwt) where
  -- A key that is there until a time.
  abbrev IsUsed : Bytes → ℕ → Store → Type 0
  IsUsed token until s =
      (t : ℕ) → t < until → cache.client.get t (prefixed_key cache token) s ≡ ok (1 ∷ [])

  -- Logins by other requests: a time, a token, and the tables.
  abbrev pub play_logins : List (ℕ × Bytes × Directory) → Store → Store
  play_logins [] s = s
  play_logins ((now, token, d) ∷ logins) s =
      play_logins logins (one_time_login_authenticate cache set_nx settings jwt d now token s).0

  module _ (laws : NxLaws Store cache.client set_nx) (token : Bytes) (until : ℕ) where
    nx_answer-IsUsed :
        (p : Store × Outcome ClientError Bool)
        → IsUsed token until p.0
        → IsUsed token until (nx_answer cache set_nx p).0
    nx_answer-IsUsed (s, ok done) h = h
    nx_answer-IsUsed (s, err e) h = h
    nx_answer-IsUsed (s, panics) h = h

    after_set_nx-store :
        (d : Directory) (user_id : Bytes) (p : Store × Outcome AuthFailure Bool)
        → (after_set_nx cache set_nx settings jwt d user_id p).0 ≡ p.0
    after_set_nx-store d user_id (s, ok true) = refl
    after_set_nx-store d user_id (s, ok false) = refl
    after_set_nx-store d user_id (s, err e) = refl
    after_set_nx-store d user_id (s, panics) = refl

    login_with-IsUsed :
        (d : Directory) (now : ℕ) (other : Bytes) (o : Outcome AuthFailure (Bytes × ℕ)) (s : Store)
        → now < until
        → IsUsed token until s
        → IsUsed token until (login_with cache set_nx settings jwt d now other o s).0
    unfolding cache_set_nx
    login_with-IsUsed d now other (err e) s before h = h
    login_with-IsUsed d now other panics s before h = h
    login_with-IsUsed d now other (ok (user_id, expires_at)) s before h =
        subst (λ (z : Store). IsUsed token until z)
          (sym (
            after_set_nx-store d user_id
              (cache_set_nx cache set_nx now other (1 ∷ []) (expires_at - now + minute) s)))
          (nx_answer-IsUsed
            (set_nx now (prefixed_key cache other) (1 ∷ []) (expires_at - now + minute) s)
            (λ t soon.
              laws.nx_kept now (expires_at - now + minute) t (prefixed_key cache other) (1 ∷ [])
                (prefixed_key cache token) (1 ∷ []) s (h now before) (h t soon)))

    play_logins-IsUsed :
        (logins : List (ℕ × Bytes × Directory)) (s : Store)
        → All (λ l. l.0 < until) logins
        → IsUsed token until s
        → IsUsed token until (play_logins logins s)
    unfolding one_time_login_authenticate
    play_logins-IsUsed [] s before h = h
    play_logins-IsUsed ((now, other, d) ∷ logins) s (soon, before) h =
        play_logins-IsUsed logins
          (one_time_login_authenticate cache set_nx settings jwt d now other s).0 before
          (login_with-IsUsed d now other (parse_one_time_login_token settings jwt now other) s soon
            h)

    nx_refused :
        (now ttl : ℕ) (s : Store) (p : Store × Outcome ClientError Bool)
        → set_nx now (prefixed_key cache token) (1 ∷ []) ttl s ≡ p
        → now < until
        → IsUsed token until s
        → p.1 ≢ ok true
    nx_refused now ttl s (s', ok done) is before h e =
        let refused =
          laws.nx_there now ttl (prefixed_key cache token) (1 ∷ []) (1 ∷ []) s s' done
            (h now before) is in
        cc
    nx_refused now ttl s (s', err x) is before h e = cc
    nx_refused now ttl s (s', panics) is before h e = cc

    after_set_nx_ok :
        (d : Directory) (user_id : Bytes) (p : Store × Outcome ClientError Bool) (s' : Store)
        (result : AuthResult)
        → after_set_nx cache set_nx settings jwt d user_id (nx_answer cache set_nx p)
          ≡ (s', ok result)
        → p ≡ (s', ok true)
    after_set_nx_ok d user_id (z, ok true) s' result h = cc
    after_set_nx_ok d user_id (z, ok false) s' result h = cc
    after_set_nx_ok d user_id (z, err e) s' result h = cc
    after_set_nx_ok d user_id (z, panics) s' result h = cc

    login_with-refused :
        (d : Directory) (now : ℕ) (o : Outcome AuthFailure (Bytes × ℕ)) (s s' : Store)
        (result : AuthResult)
        → now < until
        → IsUsed token until s
        → login_with cache set_nx settings jwt d now token o s ≢ (s', ok result)
    unfolding cache_set_nx
    login_with-refused d now (err e) s s' result before h k = cc
    login_with-refused d now panics s s' result before h k = cc
    login_with-refused d now (ok (user_id, expires_at)) s s' result before h k =
        let answer =
          after_set_nx_ok d user_id
            (set_nx now (prefixed_key cache token) (1 ∷ []) (expires_at - now + minute) s) s' result
            k in
        nx_refused now (expires_at - now + minute) s
          (set_nx now (prefixed_key cache token) (1 ∷ []) (expires_at - now + minute) s) refl before
          h (ap (λ p. p.1) answer)

  -- A one-time login token logs in once: after it did, no login with it succeeds until a minute after it
  -- expires, whoever logs in with whatever tokens in between.
  pub one_time_login_authenticate-Once :
      NxLaws Store cache.client set_nx
      → (d d' : Directory) (now later expires_at : ℕ) (token user_id : Bytes) (s s' s'' : Store)
        (logins : List (ℕ × Bytes × Directory)) (result result' : AuthResult)
      → parse_one_time_login_token settings jwt now token ≡ ok (user_id, expires_at)
      → one_time_login_authenticate cache set_nx settings jwt d now token s ≡ (s', ok result)
      → All (λ l. l.0 < expires_at + minute) logins
      → later < expires_at + minute
      → one_time_login_authenticate cache set_nx settings jwt d' later token (play_logins logins s')
        ≢ (s'', ok result')
  unfolding one_time_login_authenticate cache_set_nx
  one_time_login_authenticate-Once laws d d' now later expires_at token user_id s s' s'' logins
        result result' parsed first before soon =
      let until = expires_at + minute in
      let taken =
        after_set_nx_ok laws token until d user_id
          (set_nx now (prefixed_key cache token) (1 ∷ []) (expires_at - now + minute) s) s' result
          (rw parsed at first) in
      let used : IsUsed token until s' = λ t early.
        laws.nx_set now (expires_at - now + minute) t (prefixed_key cache token) (1 ∷ []) s s' taken
          (omega arith) in
      login_with-refused laws token until d' later
        (parse_one_time_login_token settings jwt later token) (play_logins logins s') s'' result'
        soon (play_logins-IsUsed laws token until logins s' before used)
