-- ===== src/Retry/Waits.antt =====
-- util/retry/retry.go: the bound of a wait, and the tries and waits of `RetryFunc`.
use go_mutuals.Prelude.{
  ℕ, zero, suc, ◌+◌, ◌≤◌, ◌<◌, ◌≡◌, refl, ap, Bool, true, Option, none, some, List, [], ◌∷◌, ◌++◌,
  arith, if◌then◌else◌, ℤ, pos, negsuc, ◌≤ℤ◌, ◌+ℤ◌, ltb_ℤ, All, All-append, Outcome, ok, Bool-cases,
  Option-cases, inl, inr, subst,
}
use go_mutuals.Retry.{
  to_int64, Retry, doubled, has_jitter, wait_time, RetryError, out_of_retries, Tried, wait_after,
  after_failure, retry_loop, rounds, retry_func,
}

capped : (a : ℤ) (m : ℕ) → (if ltb_ℤ a (pos m) then a else pos m) ≤ℤ pos m
capped (pos n) m = ground arith
capped (negsuc n) m = ground arith

-- A wait is no longer than the maximum, which is not negative.
wait_time-bound :
    {E : Type 0} (jitter : ℕ) (min_wait : ℤ) (m : ℕ) (i : ℤ)
    → (w : ℤ) × (wait_time {E = E} jitter min_wait (pos m) i ≡ ok w) × (w ≤ℤ pos m)
unfolding wait_time has_jitter
wait_time-bound jitter min_wait m (negsuc n) = (pos 0, refl, omega arith)
wait_time-bound jitter min_wait m (pos zero) = (pos 0, refl, omega arith)
wait_time-bound jitter min_wait m (pos (suc n)) =
    (_, refl, capped (to_int64 (to_int64 (min_wait +ℤ doubled (suc n) (pos 1)) +ℤ pos jitter)) m)

module _ {E : Type 0} (f : ℕ → Option E) (should_retry : E → Bool) (jitter : ℕ → ℕ)
    (c : Retry) where
  -- The tries from `i` fail with errors that are worth a retry.
  abbrev pub AllFail : ℕ → ℕ → Type 0
  AllFail zero i = Unit
  AllFail (suc n) i = ((e : E) × (f i ≡ some e) × (should_retry e ≡ true)) × AllFail n (i + 1)

  -- A run that ends, within so many calls, with waits up to so many seconds.
  pub record Bounded (n m : ℕ) (outcome : Outcome E (Tried E)) : Type 0 where
    pub tried : Tried E
    pub ends : outcome ≡ ok tried
    pub few_calls : tried.calls ≤ n
    pub short_waits : All (λ w. w ≤ℤ pos m) tried.waits

  wait_after-bound :
      (m left i : ℕ)
      → c.min_wait ≡ pos m
      → (ws : List ℤ) × (wait_after f should_retry jitter c left i ≡ ok ws)
        × All (λ w. w ≤ℤ pos m) ws
  unfolding wait_after
  wait_after-bound m zero i e = ([], refl, tt)
  wait_after-bound m (suc left) i e =
      let (w, waits, short) = wait_time-bound {E = E} (jitter i) (pos m) m (pos i) in
      (w ∷ [], rw (e, waits), (short, tt))

  retry_loop-Bounded :
      (m n i : ℕ) → c.min_wait ≡ pos m → Bounded n m (retry_loop f should_retry jitter c n i)
  unfolding retry_loop after_failure
  retry_loop-Bounded m zero i e = record {
    tried = _;
    ends = refl;
    few_calls = omega arith;
    short_waits = tt;
  }
  retry_loop-Bounded m (suc n) i e =
      let (ws, waited, short) = wait_after-bound m n i e in
      let rest = retry_loop-Bounded m n (i + 1) e in
      elim (Option-cases (f i)) [
        | inl fine ↦
            rw (fine, retry_loop)
              (record { tried = _; ends = refl; few_calls = omega arith; short_waits = tt })
        | inr (x, failed) ↦ elim (Bool-cases (should_retry x)) [
          | inl again ↦
              rw (failed, retry_loop, again, waited, rest.ends)
                (record {
                  tried = _;
                  ends = refl;
                  few_calls = omega (arith, rest.few_calls);
                  short_waits = All-append (λ w. w ≤ℤ pos m) ws _ short rest.short_waits;
                })
          | inr last ↦
              rw (failed, retry_loop, last)
                (record { tried = _; ends = refl; few_calls = omega arith; short_waits = tt })
        ]
      ]

  -- With a minimal wait of m seconds `RetryFunc` returns, whatever the function does, after at most
  -- `MaxRetries` calls, and never waits longer than m, whatever the maximal wait.
  pub retry_func-Bounded :
      (m : ℕ)
      → c.min_wait ≡ pos m
      → Bounded (rounds c.max_retries) m (retry_func f should_retry jitter c)
  unfolding retry_func
  retry_func-Bounded m e = retry_loop-Bounded m (rounds c.max_retries) 0 e

  -- How a run ends: with this error or none, after this many calls.
  abbrev pub EndsWith : Outcome E (Tried E) → Option (RetryError E) → ℕ → Type 0
  EndsWith outcome result n = (t : Tried E) × (outcome ≡ ok t) × (t.result ≡ result) × (t.calls ≡ n)

  retried :
      (m n i : ℕ) (x : E) (result : Option (RetryError E)) (k : ℕ)
      → c.min_wait ≡ pos m
      → f i ≡ some x
      → should_retry x ≡ true
      → EndsWith (retry_loop f should_retry jitter c n (i + 1)) result k
      → EndsWith (retry_loop f should_retry jitter c (suc n) i) result (k + 1)
  unfolding retry_loop after_failure
  retried m n i x result k e failed again (t, ends, res, count) =
      let (ws, waited, short) = wait_after-bound m n i e in
      (
        record t { calls = t.calls + 1; waits = ws ++ t.waits },
        rw (failed, retry_loop, again, waited, ends),
        res,
        ap (λ j. j + 1) count,
      )

  retry_loop_fails :
      (m n i : ℕ)
      → c.min_wait ≡ pos m
      → AllFail n i
      → EndsWith (retry_loop f should_retry jitter c n i) (some out_of_retries) n
  unfolding retry_loop
  retry_loop_fails m zero i e h = (_, refl, refl, refl)
  retry_loop_fails m (suc n) i e ((x, failed, again), h) =
      let (t, ends, res, count) =
        retried m n i x (some out_of_retries) n e failed again (retry_loop_fails m n (i + 1) e h) in
      (t, ends, res, omega (arith, count))

  retry_loop_succeeds :
      (m k n i : ℕ)
      → c.min_wait ≡ pos m
      → k < n
      → AllFail k i
      → f (i + k) ≡ none
      → EndsWith (retry_loop f should_retry jitter c n i) none (k + 1)
  unfolding retry_loop
  retry_loop_succeeds m k zero i e less h fine = absurd (omega arith)
  retry_loop_succeeds m zero (suc n) i e less h fine =
      let here : i + 0 ≡ i = omega arith in
      (
        record { result = none; calls = 1; waits = [] },
        rw (subst (λ j. f j ≡ none) here fine, retry_loop),
        refl,
        refl,
      )
  retry_loop_succeeds m (suc k) (suc n) i e less ((x, failed, again), h) fine =
      let here : i + suc k ≡ i + 1 + k = omega arith in
      let (t, ends, res, count) =
        retried m n i x none (k + 1) e failed again (
          retry_loop_succeeds m k n (i + 1) e (omega arith) h
            (subst (λ j. f j ≡ none) here fine)) in
      (t, ends, res, omega (arith, count))

  -- If the first k tries, fewer than `MaxRetries`, fail with errors that are worth a retry and the next
  -- one succeeds, `RetryFunc` succeeds with just these calls; the minimal wait is not negative.
  pub retry_func_succeeds :
      (m k : ℕ)
      → c.min_wait ≡ pos m
      → k < rounds c.max_retries
      → AllFail k 0
      → f k ≡ none
      → EndsWith (retry_func f should_retry jitter c) none (k + 1)
  unfolding retry_func
  retry_func_succeeds m k e less h fine =
      let here : k ≡ 0 + k = omega arith in
      retry_loop_succeeds m k (rounds c.max_retries) 0 e less h (subst (λ j. f j ≡ none) here fine)

  -- If every try up to `MaxRetries` fails with an error that is worth a retry, `RetryFunc` makes them
  -- all and is out of retries; the minimal wait is not negative.
  pub retry_func_exhausted :
      (m : ℕ)
      → c.min_wait ≡ pos m
      → AllFail (rounds c.max_retries) 0
      → EndsWith (retry_func f should_retry jitter c) (some out_of_retries) (rounds c.max_retries)
  unfolding retry_func
  retry_func_exhausted m e h = retry_loop_fails m (rounds c.max_retries) 0 e h
