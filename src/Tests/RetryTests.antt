-- ===== src/Tests/RetryTests.antt =====
-- Tries that fail and succeed, with the default configuration.
use go_mutuals.Prelude.{
  ℕ, zero, suc, ◌≡◌, refl, Bool, true, Option, none, some, [], ◌∷◌, arith, pos, ◌+ℤ◌, ok,
}
use go_mutuals.Retry.{
  default_retry, Retry, retry_func, retry_loop, after_failure, wait_after, wait_time, has_jitter,
  doubled, rounds, out_of_retries,
}
use go_mutuals.Retry.Waits.{
  Bounded, EndsWith, retry_func-Bounded, retry_func_succeeds, retry_func_exhausted,
}

-- The first two tries fail.
abbrev answers : ℕ → Option ℕ
answers zero = some 429
answers (suc zero) = some 429
answers (suc (suc n)) = none

abbrev fails : ℕ → Option ℕ
fails n = some 429

abbrev always : ℕ → Bool
always e = true

abbrev no_jitter : ℕ → ℕ
no_jitter n = 0

waits_are_zero :
    retry_func answers always no_jitter default_retry
    ≡ ok (record { result = none; calls = 3; waits = pos 0 ∷ pos 0 ∷ [] })
unfolding retry_func retry_loop after_failure wait_after wait_time rounds has_jitter ◌+ℤ◌ doubled
waits_are_zero = refl

retry_func-Bounded_example :
    Bounded answers always no_jitter default_retry
      (rounds (pos 8))
      0
      (retry_func answers always no_jitter default_retry)
retry_func-Bounded_example = retry_func-Bounded answers always no_jitter default_retry 0 refl

retry_func_succeeds_example :
    EndsWith answers always no_jitter default_retry
      (retry_func answers always no_jitter default_retry)
      none
      3
unfolding rounds
retry_func_succeeds_example =
    retry_func_succeeds answers always no_jitter default_retry 0 2 refl (omega arith)
      ((429, refl, refl), ((429, refl, refl), tt)) refl

abbrev twice : Retry
twice = record { min_wait = pos 1; max_wait = pos 64; max_retries = pos 2 }

retry_func_exhausted_example :
    EndsWith fails always no_jitter twice
      (retry_func fails always no_jitter twice)
      (some out_of_retries)
      2
unfolding rounds
retry_func_exhausted_example =
    retry_func_exhausted fails always no_jitter twice 1 refl
      ((429, refl, refl), ((429, refl, refl), tt))
