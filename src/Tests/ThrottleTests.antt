-- ===== src/Tests/ThrottleTests.antt =====
-- A store that is a list of keys with the times at which they expire.
use go_mutuals.Prelude.{
  ℕ, ◌+◌, ◌≡◌, ◌≢◌, refl, sym, subst, false, List, [], ◌∷◌, arith, ltb, if◌then◌else◌, Bool-cases,
  inl, inr, Outcome, ok, err, lt→ltb,
}
use go_mutuals.Cursor.Bytes.{eq_bytes_apart, Bytes, eq_bytes, eq_bytes_self}
use go_mutuals.Throttle.{
  ClientError, redis_nil, Client, ClientLaws, Locker, throttle_locked, cache_get, cache_set,
  prefixed_key, lock_unless, is_locked, lock, unlock,
}
use go_mutuals.Throttle.Exclusion.{lock_excludes}

abbrev pub Store : Type 0
Store = List (Bytes × Bytes × ℕ)

abbrev pub read : ℕ → Bytes → Store → Outcome ClientError Bytes
read now key [] = err redis_nil
read now key ((k, value, until) ∷ s) =
    let rest = read now key s in
    if eq_bytes k key then (if ltb now until then ok value else err redis_nil) else rest

abbrev without : Bytes → Store → Store
without key [] = []
without key ((k, value, until) ∷ s) =
    let rest = without key s in if eq_bytes k key then rest else (k, value, until) ∷ rest

abbrev pub client : Client Store
client = record {
  get = read;
  set = λ now key value expiry s. ((key, value, now + expiry) ∷ s, ok tt);
  del = λ now key s. (without key s, ok tt);
}

read-without : (now : ℕ) (key : Bytes) (s : Store) → read now key (without key s) ≡ err redis_nil
read-without now key [] = refl
read-without now key ((k, value, until) ∷ s) = elim (Bool-cases (eq_bytes k key)) [
  | inl same ↦ rw same (read-without now key s)
  | inr other ↦ rw other (rw other (read-without now key s))
]

client-ClientLaws : ClientLaws Store client
client-ClientLaws = record {
  set_kept = λ now t key value expiry s s' h after before.
      let stored : (key, value, now + expiry) ∷ s ≡ s' = cc in
      subst (λ (z : Store). read t key z ≡ ok value) stored
        (rw (eq_bytes_self key, lt→ltb t (now + expiry) before) refl);
  set_others = λ now t key value expiry s s' key' h other.
      let stored : (key, value, now + expiry) ∷ s ≡ s' = cc in
      let differs = eq_bytes_apart key key' (λ e. other (sym e)) in
      subst (λ (z : Store). read t key' z ≡ read t key' s) stored (rw differs refl);
  del_gone = λ now t key s s' h.
      let stored : without key s ≡ s' = cc in
      subst (λ (z : Store). read t key z ≡ err redis_nil) stored (read-without t key s);
}

abbrev locker : Locker Store
locker = record { memstore = record { client = client; key_prefix = b't' ∷ [] }; expiry = 60 }

-- A lock taken at 100 for a minute, as it stands at 110.
abbrev after_lock : Store
after_lock = (b't' ∷ b':' ∷ b'k' ∷ [], [], 160) ∷ []

abbrev job : Bytes
job = b'k' ∷ []

abbrev other_job : Bytes
other_job = b'j' ∷ []

lock_excludes_example :
    (lock locker 110 job after_lock ≡ (after_lock, err (throttle_locked job)))
    × (other_job ≢ job
        → is_locked locker 110 other_job after_lock ≡ is_locked locker 110 other_job [])
    × (unlock locker 110 job after_lock ≡ ([], ok tt) → is_locked locker 110 job [] ≡ ok false)
    × (cache_set locker.memstore 110 job [] locker.expiry after_lock ≡ ([], ok tt)
        → lock_unless locker 110 job (is_locked locker 100 job []) after_lock ≡ ([], ok tt))
unfolding lock is_locked cache_get cache_set prefixed_key
lock_excludes_example =
    lock_excludes locker client-ClientLaws 100 110 job other_job [] after_lock [] refl (omega arith)
      (omega arith)
