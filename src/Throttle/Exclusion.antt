-- ===== src/Throttle/Exclusion.antt =====
-- service/throttle/throttle.go: whom a lock keeps out.
use go_mutuals.Prelude.{
  ℕ, ◌+◌, ◌≤◌, ◌<◌, ◌≡◌, ◌≢◌, refl, sym, subst, Bool, true, false, [], ◌∷◌, ◌++◌, length, ◌==◌,
  Bool-cases, inl, inr, Outcome, ok, err, panics,
}
use go_mutuals.Cursor.Bytes.{Bytes}
use go_mutuals.Throttle.{
  ClientError, ClientLaws, Cache, LockFailure, throttle_locked, prefixed_key, answer, cache_get,
  cache_set, cache_delete, Locker, is_locked, lock_unless, lock, unlock,
}

suffix_cancel : (prefix s t : Bytes) → prefix ++ s ≡ prefix ++ t → s ≡ t
suffix_cancel [] s t h = h
suffix_cancel (c ∷ prefix) s t h = suffix_cancel prefix s t cc

module _ {Store : Type 0} where
  prefixed_cancel :
      (c : Cache Store) (key key' : Bytes) → prefixed_key c key ≡ prefixed_key c key' → key ≡ key'
  unfolding prefixed_key
  prefixed_cancel c key key' h = elim (Bool-cases (length c.key_prefix == 0)) [
    | inl bare ↦ rw bare at h
    | inr prefixed ↦
        let h' : c.key_prefix ++ 58 ∷ key ≡ c.key_prefix ++ 58 ∷ key' = simp prefixed at h in
        let tail : 58 ∷ key ≡ 58 ∷ key' = suffix_cancel c.key_prefix (58 ∷ key) (58 ∷ key') h' in cc
  ]

  answer_ok :
      (a : Store × Outcome ClientError (Unit {0})) (s' : Store)
      → answer a ≡ (s', ok tt)
      → a ≡ (s', ok tt)
  answer_ok (s, ok done) s' h = cc
  answer_ok (s, err e) s' h = cc
  answer_ok (s, panics) s' h = cc

  lock_unless_ok :
      (t : Locker Store) (now : ℕ) (key : Bytes) (held : Outcome LockFailure Bool) (s s' : Store)
      → lock_unless t now key held s ≡ (s', ok tt)
      → (held ≡ ok false) × (cache_set t.memstore now key [] t.expiry s ≡ (s', ok tt))
  lock_unless_ok t now key (ok true) s s' h = cc
  lock_unless_ok t now key (ok false) s s' h = (refl, h)
  lock_unless_ok t now key (err e) s s' h = cc
  lock_unless_ok t now key panics s s' h = cc

  -- A lock that was taken keeps every later call of `Lock` out until it expires, leaves the other keys as
  -- they are, and is gone once it is unlocked. But a caller that looked before it was taken is not kept
  -- out: whoever has seen the key free takes the lock as well, if the store takes its key.
  pub lock_excludes :
      (t : Locker Store)
      → ClientLaws Store t.memstore.client
      → (now later : ℕ) (key key' : Bytes) (s s' s'' : Store) → lock t now key s ≡ (s', ok tt)
      → now ≤ later
      → later < now + t.expiry
      → (lock t later key s' ≡ (s', err (throttle_locked key)))
        × (key' ≢ key → is_locked t later key' s' ≡ is_locked t later key' s)
        × (unlock t later key s' ≡ (s'', ok tt) → is_locked t later key s'' ≡ ok false)
        × (cache_set t.memstore later key [] t.expiry s' ≡ (s'', ok tt)
            → lock_unless t later key (is_locked t now key s) s' ≡ (s'', ok tt))
  unfolding lock is_locked unlock cache_get cache_set cache_delete
  lock_excludes t laws now later key key' s s' s'' taken after before =
      let took = lock_unless_ok t now key (is_locked t now key s) s s' taken in
      let stored =
        answer_ok (t.memstore.client.set now (prefixed_key t.memstore key) [] t.expiry s) s'
          took.1 in
      let kept =
        laws.set_kept now later (prefixed_key t.memstore key) [] t.expiry s s' stored after
          before in
      (
        rw kept refl,
        λ other.
            rw
              (laws.set_others now later (prefixed_key t.memstore key) [] t.expiry s s'
                (prefixed_key t.memstore key') stored
                (λ e. other (prefixed_cancel t.memstore key' key e)))
              refl,
        λ freed.
            rw
              (laws.del_gone later later (prefixed_key t.memstore key) s' s'' (
                answer_ok (t.memstore.client.del later (prefixed_key t.memstore key) s') s'' freed))
              refl,
        λ taken_too.
            subst (λ o. lock_unless t later key o s' ≡ (s'', ok tt)) (sym took.0) taken_too,
      )
