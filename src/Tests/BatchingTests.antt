-- ===== src/Tests/BatchingTests.antt =====
-- Two callers and a batch of two.
use go_mutuals.Prelude.{
  ℕ, zero, suc, ◌+◌, ◌≡◌, refl, true, Option, none, some, List, [], ◌∷◌, ◌==◌, ==_iff, arith, All,
  Outcome, ok, err, panics,
}
use go_mutuals.Batching.{
  Batcher, Thread, returned, sleeping, new_batch, new_batcher, put, next_batch, index_of, publish,
  submit_batch, append_param, add_param_locked, close_after_timeout, run, run_nth, Move, arrives,
  runs, play,
}
use go_mutuals.Batching.Answers.{
  Survives, play-Survives_all, each, each-paired, OwnAnswer, thunk-OwnAnswer,
}

abbrev result_of : ℕ → ℕ
result_of n = 10 + n

abbrev error_of : ℕ → Option ℕ
error_of zero = some 404
error_of (suc n) = none

same : (m n : ℕ) → (m == n) ≡ true → m ≡ n
same m n = (==_iff m n).0

-- Both calls join the first batch, the second fills it and submits it.
abbrev moves : List (Move ℕ)
moves =
    arrives 7
    ∷ runs 0
    ∷ runs 0
    ∷ runs 0
    ∷ arrives 8
    ∷ runs 0
    ∷ runs 0
    ∷ runs 0
    ∷ runs 0
    ∷ runs 0
    ∷ []

abbrev after_or :
    Batcher ℕ ℕ ℕ × List (Thread ℕ)
    → Outcome ℕ (Batcher ℕ ℕ ℕ × List (Thread ℕ))
    → Batcher ℕ ℕ ℕ × List (Thread ℕ)
after_or default (ok w) = w
after_or default (err e) = default
after_or default panics = default

-- The batcher and the goroutines after the moves.
world : Batcher ℕ ℕ ℕ × List (Thread ℕ)
unfolding play
world =
    after_or (new_batcher, [])
      (play (λ n m. n == m) 2 true (each result_of error_of) moves [] new_batcher)

played : play (λ n m. n == m) 2 true (each result_of error_of) moves [] new_batcher ≡ ok world
unfolding world play run_nth run submit_batch append_param add_param_locked close_after_timeout
    new_batcher new_batch put next_batch index_of publish
played = refl

world_threads : world.1 ≡ returned 8 0 1 ∷ returned 7 0 0 ∷ sleeping 0 ∷ []
unfolding world play run_nth run submit_batch append_param add_param_locked close_after_timeout
    new_batcher new_batch put next_batch index_of publish
world_threads = refl

play-Survives_all_example :
    Survives
      (λ n m. n == m)
      same
      2
      true
      (each result_of error_of)
      (each-paired result_of error_of)
      (λ id. 0)
      new_batcher
      (play (λ n m. n == m) 2 true (each result_of error_of) moves [] new_batcher)
play-Survives_all_example =
    play-Survives_all (λ n m. n == m) same 2 true (each result_of error_of)
      (each-paired result_of error_of) (omega arith) moves

thunk-OwnAnswer_example :
    All (OwnAnswer (λ n m. n == m) same 2 true result_of error_of 0 (world.0)) (world.1)
thunk-OwnAnswer_example =
    thunk-OwnAnswer (λ n m. n == m) same 2 true result_of error_of 0 (omega arith) moves played
