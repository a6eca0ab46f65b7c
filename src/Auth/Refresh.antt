-- ===== src/Auth/Refresh.antt =====
-- service/auth/auth.go: tokens that have to be refreshed, over `SetTime` and `GetTime` of the cache of
-- service/redis/redis.go. What a script calls in Redis is a parameter.
use go_mutuals.Prelude.{
  ℕ, ◌+◌, ◌*◌, ◌/◌, ◌<◌, ◌≡◌, ◌≢◌, Bool, true, false, Option, none, some, ltb, if◌then◌else◌, ℤ,
  pos, negsuc, ltb_ℤ, Outcome, ok, err, panics, ◌>>=◌,
}
use go_mutuals.Cursor.Bytes.{Bytes}
use go_mutuals.Numerals.{write_ℤ, atoi}
use go_mutuals.Throttle.{
  other_error, Client, Cache, LockFailure, key_not_found, throttle_locked, client_error,
  prefixed_key, cache_get, cache_set,
}
use go_mutuals.Auth.{AuthFailure, second, minute, Settings}

-- The calls GET, SET and EXPIREAT, and which runs of a script fail before it starts.
pub record Scripts (Store : Type 0) : Type 0 where
  pub call_get : ℕ → Bytes → Store → Option Bytes
  pub call_set : Bytes → Bytes → Store → Store
  pub call_expire_at : Bytes → ℕ → Store → Store
  pub run_fault : ℕ → Store → Option ℕ

-- What Redis documents: GET in a script reads what the client reads, and a key that was set has its value
-- until it expires, while the other keys stay.
pub record ScriptLaws (Store : Type 0) (client : Client Store) (scripts : Scripts Store)
    : Type 0 where
  pub call_get_some :
      (t : ℕ) (key text : Bytes) (s : Store)
      → scripts.call_get t key s ≡ some text
      → client.get t key s ≡ ok text
  pub set_kept :
      (t until : ℕ) (key text : Bytes) (s : Store)
      → t < until * second
      → client.get t key (scripts.call_expire_at key until (scripts.call_set key text s)) ≡ ok text
  pub set_others :
      (t until : ℕ) (key text key' : Bytes) (s : Store)
      → key' ≢ key
      → client.get t key' (scripts.call_expire_at key until (scripts.call_set key text s))
        ≡ client.get t key' s

-- `Time.Unix`
abbrev pub unix : ℕ → ℕ
unix t = t / second

module _ {Store : Type 0} (cache : Cache Store) (scripts : Scripts Store) where
  -- `setTimeScript`. Comparing what is not a number is an error; `tonumber` is read as decimals.
  abbrev pub script_write : Bytes → ℕ → ℕ → Store → Store × Outcome LockFailure (Unit {0})
  script_write key timestamp until s = (
    scripts.call_expire_at key until (scripts.call_set key (write_ℤ 10 (pos timestamp)) s),
    ok tt,
  )

  abbrev pub script_compare :
      Bytes → ℕ → ℕ → Option ℤ → Store → Store × Outcome LockFailure (Unit {0})
  script_compare key timestamp until none s = (s, err (client_error (other_error 0)))
  script_compare key timestamp until (some current) s =
      if ltb_ℤ current (pos timestamp) then script_write key timestamp until s else (s, ok tt)

  abbrev pub script_after_get :
      Bytes → ℕ → ℕ → Option Bytes → Store → Store × Outcome LockFailure (Unit {0})
  script_after_get key timestamp until none s = script_write key timestamp until s
  script_after_get key timestamp until (some text) s =
      script_compare key timestamp until (atoi text) s

  abbrev pub run_script :
      ℕ → Bytes → ℕ → ℕ → Option ℕ → Store → Store × Outcome LockFailure (Unit {0})
  run_script now key timestamp until (some n) s = (s, err (client_error (other_error n)))
  run_script now key timestamp until none s =
      script_after_get key timestamp until (scripts.call_get now key s) s

  unfoldable pub set_time :
      ℕ → Bytes → ℕ → ℕ → Bool → Store → Store × Outcome LockFailure (Unit {0})
  set_time now key value expiration only_if_later s =
      if only_if_later
      then run_script now (prefixed_key cache key) (unix value) (unix (now + expiration))
          (scripts.run_fault now s) s
      else cache_set cache now key (write_ℤ 10 (pos (unix value))) expiration s

  -- `GetTime`, in seconds. A text that is no number is an error other than ErrKeyNotFound.
  abbrev pub parsed_time : Option ℤ → Outcome LockFailure ℤ
  parsed_time none = err (client_error (other_error 0))
  parsed_time (some t) = ok t

  unfoldable pub get_time : ℕ → Bytes → Store → Outcome LockFailure ℤ
  get_time now key s = do text ← cache_get cache now key s; parsed_time (atoi text)

  -- `ForceAuthTokenRefresh`
  unfoldable pub force_auth_token_refresh :
      Settings → ℕ → Bytes → Store → Store × Outcome LockFailure (Unit {0})
  force_auth_token_refresh settings now user_id s =
      set_time now user_id now (settings.auth_jwt_ttl * second + minute) true s

  -- `mustRefreshAuthToken`
  abbrev pub is_before : ℕ → ℤ → Bool
  is_before issued_at (pos t) = ltb issued_at (t * second)
  is_before issued_at (negsuc t) = false

  abbrev pub refresh_needed : ℕ → Outcome LockFailure ℤ → Outcome AuthFailure Bool
  refresh_needed issued_at (ok forced) = ok (is_before issued_at forced)
  refresh_needed issued_at (err (key_not_found key)) = ok false
  refresh_needed issued_at (err (throttle_locked key)) = ok true
  refresh_needed issued_at (err (client_error e)) = ok true
  refresh_needed issued_at panics = panics

  unfoldable pub must_refresh_auth_token : ℕ → Bytes → ℕ → Store → Outcome AuthFailure Bool
  must_refresh_auth_token now user_id issued_at s =
      refresh_needed issued_at (get_time now user_id s)
