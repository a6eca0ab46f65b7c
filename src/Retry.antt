-- ===== src/Retry.antt =====
-- util/retry/retry.go: how long a retry waits, and the loop of `RetryFunc`. The answers of the function
-- that is tried are given by the number of the try, and the random jitter by the number of the try.
pub mod Waits
use go_mutuals.Prelude.{
  ℕ, zero, suc, ◌+◌, ◌-◌, ◌%◌, ◌^◌, ◌≡◌, Bool, true, false, Option, none, some, List, [], ◌∷◌, ◌++◌,
  ltb, leb, ◌==◌, if◌then◌else◌, ℤ, pos, negsuc, ◌+ℤ◌, ltb_ℤ, leb_ℤ, Outcome, ok, err, panics,
  ◌>>=◌,
}

pub record Retry : Type 0 where
  pub min_wait : ℤ
  pub max_wait : ℤ
  pub max_retries : ℤ

abbrev pub default_retry : Retry
default_retry = record { min_wait = pos 0; max_wait = pos 64; max_retries = pos 8 }

-- An int of 64 bits, after an operation that may be out of range.
abbrev pub to_int64 : ℤ → ℤ
to_int64 (pos n) = let w = n % 2 ^ 64 in if ltb w (2 ^ 63) then pos w else negsuc (2 ^ 64 - w - 1)
to_int64 (negsuc n) =
    let w = n % 2 ^ 64 in if ltb w (2 ^ 63) then negsuc w else pos (2 ^ 64 - w - 1)

-- The loop that doubles `r`.
unfoldable pub doubled : ℕ → ℤ → ℤ
doubled zero r = r
doubled (suc n) r = doubled n (to_int64 (r +ℤ r))

-- `rand.Intn` of one more than a tenth of `maxWait` panics where that is not above 0.
unfoldable pub has_jitter : ℤ → Bool
has_jitter (pos n) = true
has_jitter (negsuc n) = ltb n 9

-- `WaitTime`, in seconds, with the random number that it draws.
unfoldable pub wait_time : {E : Type 0} → ℕ → ℤ → ℤ → ℤ → Outcome E ℤ
wait_time jitter min_wait max_wait (negsuc n) = ok (pos 0)
wait_time jitter min_wait max_wait (pos zero) = ok (pos 0)
wait_time jitter min_wait max_wait (pos (suc n)) =
    let r = doubled (suc n) (pos 1) in
    let iter_wait = to_int64 (to_int64 (min_wait +ℤ r) +ℤ pos jitter) in
    if has_jitter max_wait
    then ok (if ltb_ℤ iter_wait max_wait then iter_wait else max_wait)
    else panics

pub data RetryError (E : Type 0) : Type 0 where
  of_call : E → RetryError E
  out_of_retries : RetryError E

-- What `RetryFunc` returns, and the waits before it does.
pub record Tried (E : Type 0) : Type 0 where
  pub result : Option (RetryError E)
  pub calls : ℕ
  pub waits : List ℤ

-- The rounds of a loop up to `MaxRetries`.
unfoldable pub rounds : ℤ → ℕ
rounds (pos n) = n
rounds (negsuc n) = 0

module _ {E : Type 0} (f : ℕ → Option E) (should_retry : E → Bool) (jitter : ℕ → ℕ)
    (c : Retry) where
  -- The wait behind a failed try, none behind the last; the code has `MinWait` for `maxWait` too.
  unfoldable pub wait_after : ℕ → ℕ → Outcome E (List ℤ)
  wait_after zero i = ok []
  wait_after (suc left) i = do w ← wait_time (jitter i) c.min_wait c.min_wait (pos i); ok (w ∷ [])

  -- A failed try, with the wait behind it and the tries that are left.
  unfoldable pub after_failure : E → Outcome E (List ℤ) → Outcome E (Tried E) → Outcome E (Tried E)
  after_failure e waiting again =
      if should_retry e
      then (waiting >>= λ waited. again >>= λ rest.
          ok (record rest { calls = rest.calls + 1; waits = waited ++ rest.waits }))
      else ok (record { result = some (of_call e); calls = 1; waits = [] })

  -- The loop from the try of number `i`, with so many tries left.
  unfoldable pub retry_loop : ℕ → ℕ → Outcome E (Tried E)
  retry_loop zero i = ok (record { result = some out_of_retries; calls = 0; waits = [] })
  retry_loop (suc left) i =
      let again = retry_loop left (i + 1) in
      elim (f i) [
        | none ↦ ok (record { result = none; calls = 1; waits = [] })
        | some e ↦ after_failure e (wait_after left i) again
      ]

  unfoldable pub retry_func : Outcome E (Tried E)
  retry_func = retry_loop (rounds c.max_retries) 0
