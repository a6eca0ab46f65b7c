-- ===== src/Throttle.antt =====
-- service/throttle/throttle.go: locks in a shared store, over the cache of service/redis/redis.go. The
-- client of the store is a parameter.
pub mod Exclusion
use go_mutuals.Prelude.{
  ℕ, ◌+◌, ◌≤◌, ◌<◌, ◌≡◌, ◌≢◌, Bool, true, false, List, [], ◌∷◌, ◌++◌, length, ◌==◌, if◌then◌else◌,
  Outcome, ok, err, panics,
}
use go_mutuals.Cursor.Bytes.{Bytes}

-- What the client answers when there is no such key, and its other errors.
pub data ClientError : Type 0 where
  redis_nil : ClientError
  other_error : ℕ → ClientError

-- The client: its calls take the time, and `set` how long the key is kept.
pub record Client (Store : Type 0) : Type 0 where
  pub get : ℕ → Bytes → Store → Outcome ClientError Bytes
  pub set : ℕ → Bytes → Bytes → ℕ → Store → Store × Outcome ClientError (Unit {0})
  pub del : ℕ → Bytes → Store → Store × Outcome ClientError (Unit {0})

-- What Redis documents: a key that was set is there until it expires, one that was deleted is not, and
-- other keys stay.
pub record ClientLaws (Store : Type 0) (client : Client Store) : Type 0 where
  pub set_kept :
      (now t : ℕ) (key value : Bytes) (expiry : ℕ) (s s' : Store)
      → client.set now key value expiry s ≡ (s', ok tt)
      → now ≤ t
      → t < now + expiry
      → client.get t key s' ≡ ok value
  pub set_others :
      (now t : ℕ) (key value : Bytes) (expiry : ℕ) (s s' : Store) (key' : Bytes)
      → client.set now key value expiry s ≡ (s', ok tt)
      → key' ≢ key
      → client.get t key' s' ≡ client.get t key' s
  pub del_gone :
      (now t : ℕ) (key : Bytes) (s s' : Store)
      → client.del now key s ≡ (s', ok tt)
      → client.get t key s' ≡ err redis_nil

-- `Cache`: a client and the prefix of its keys; and `getPrefixedKey`, `Get`, `Set` and `Delete`.
pub record Cache (Store : Type 0) : Type 0 where
  pub client : Client Store
  pub key_prefix : Bytes

pub data LockFailure : Type 0 where
  key_not_found : Bytes → LockFailure
  throttle_locked : Bytes → LockFailure
  client_error : ClientError → LockFailure

abbrev pub get_answer : {A : Type 0} → Bytes → Outcome ClientError A → Outcome LockFailure A
get_answer key (ok bs) = ok bs
get_answer key (err redis_nil) = err (key_not_found key)
get_answer key (err (other_error n)) = err (client_error (other_error n))
get_answer key panics = panics

module _ {Store : Type 0} where
  unfoldable pub prefixed_key : Cache Store → Bytes → Bytes
  prefixed_key c key = if length c.key_prefix == 0 then key else c.key_prefix ++ b':' ∷ key

  abbrev pub answer :
      Store × Outcome ClientError (Unit {0}) → Store × Outcome LockFailure (Unit {0})
  answer (s, ok done) = (s, ok done)
  answer (s, err e) = (s, err (client_error e))
  answer (s, panics) = (s, panics)

  unfoldable pub cache_get : Cache Store → ℕ → Bytes → Store → Outcome LockFailure Bytes
  cache_get c now key s = get_answer key (c.client.get now (prefixed_key c key) s)

  unfoldable pub cache_set :
      Cache Store → ℕ → Bytes → Bytes → ℕ → Store → Store × Outcome LockFailure (Unit {0})
  cache_set c now key value expiry s = answer (c.client.set now (prefixed_key c key) value expiry s)

  unfoldable pub cache_delete :
      Cache Store → ℕ → Bytes → Store → Store × Outcome LockFailure (Unit {0})
  cache_delete c now key s = answer (c.client.del now (prefixed_key c key) s)

-- `Locker`, `IsLocked`, `Lock` and `Unlock`.
pub record Locker (Store : Type 0) : Type 0 where
  pub memstore : Cache Store
  pub expiry : ℕ

abbrev pub found : Outcome LockFailure Bytes → Outcome LockFailure Bool
found (ok bs) = ok true
found (err (key_not_found key)) = ok false
found (err (throttle_locked key)) = err (throttle_locked key)
found (err (client_error e)) = err (client_error e)
found panics = panics

module _ {Store : Type 0} where
  unfoldable pub is_locked : Locker Store → ℕ → Bytes → Store → Outcome LockFailure Bool
  is_locked t now key s = found (cache_get t.memstore now key s)

  -- The second half of `Lock`, after what `IsLocked` gave.
  abbrev pub lock_unless :
      Locker Store
      → ℕ
      → Bytes
      → Outcome LockFailure Bool
      → Store
      → Store × Outcome LockFailure (Unit {0})
  lock_unless t now key (err e) s = (s, err e)
  lock_unless t now key panics s = (s, panics)
  lock_unless t now key (ok true) s = (s, err (throttle_locked key))
  lock_unless t now key (ok false) s = cache_set t.memstore now key [] t.expiry s

  unfoldable pub lock : Locker Store → ℕ → Bytes → Store → Store × Outcome LockFailure (Unit {0})
  lock t now key s = lock_unless t now key (is_locked t now key s) s

  unfoldable pub unlock : Locker Store → ℕ → Bytes → Store → Store × Outcome LockFailure (Unit {0})
  unlock t now key s = cache_delete t.memstore now key s
