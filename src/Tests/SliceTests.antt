-- ===== src/Tests/SliceTests.antt =====
-- The helpers on slices of a few numbers.
use go_mutuals.Prelude.{
  ℕ, ◌+◌, ◌%◌, ◌<◌, ◌≡◌, refl, none, some, List, [], ◌∷◌, ◌++◌, drop, length, ltb, get_elem?,
  set_elem, ok, nat_eq,
}
use go_mutuals.Slices.{
  keep, keep_in_place, dedupe_with_translate, dedupe_in_place, filter, filter_in_place, chunk_loop,
  chunk_by_loop,
}
use go_mutuals.Slices.Compact.{filter_in_place-filter}
use go_mutuals.Slices.Chunks.{concat, Chunked, chunk-Chunked}

abbrev numbers : List ℕ
numbers = 3 ∷ 12 ∷ 5 ∷ 13 ∷ 15 ∷ []

abbrev last_digit : ℕ → ℕ
last_digit n = n % 10

deduped : dedupe_with_translate last_digit numbers ≡ 3 ∷ 12 ∷ 5 ∷ []
unfolding dedupe_with_translate keep
deduped = refl

deduped_in_place : dedupe_in_place {E = ℕ} last_digit numbers ≡ ok (3, 3 ∷ 12 ∷ 5 ∷ 13 ∷ 15 ∷ [])
unfolding dedupe_in_place keep_in_place get_elem? set_elem
deduped_in_place = refl

chunked_by : chunk_by_loop 2 6 numbers [] ≡ some ((3 ∷ 12 ∷ []) ∷ (5 ∷ 13 ∷ []) ∷ (15 ∷ []) ∷ [])
unfolding chunk_by_loop
chunked_by = refl

filter_in_place-filter_example :
    (filter_in_place {E = ℕ} (ltb 10) numbers
      ≡ ok (
        length (filter (ltb 10) numbers),
        filter (ltb 10) numbers ++ drop (length (filter (ltb 10) numbers)) numbers,
      ))
    × (dedupe_in_place {E = ℕ} last_digit numbers
        ≡ ok (
          length (dedupe_with_translate last_digit numbers),
          dedupe_with_translate last_digit numbers
              ++ drop (length (dedupe_with_translate last_digit numbers)) numbers,
        ))
filter_in_place-filter_example = filter_in_place-filter (ltb 10) last_digit numbers

chunk-Chunked_example :
    (0 < 2
      → (chunks : List (List ℕ)) × (chunk_loop numbers 2 (length numbers + 1) 0 ≡ some chunks)
        × (concat chunks ≡ numbers)
        × Chunked 2 chunks)
    × ((fuel : ℕ) → 0 < length numbers → chunk_loop numbers 0 fuel 0 ≡ none)
chunk-Chunked_example = chunk-Chunked numbers 2
