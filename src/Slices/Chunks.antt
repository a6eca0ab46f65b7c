-- ===== src/Slices/Chunks.antt =====
-- util/helpers.go: `Chunk` and `ChunkBy` cut a slice into pieces and lose nothing, and when they end.
use go_mutuals.Prelude.{
  ℕ, zero, suc, ◌+◌, ◌-◌, ◌≤◌, ◌<◌, ◌≡◌, refl, sym, ap, ◌∙◌, Option, none, some, List, [], ◌∷◌,
  ◌++◌, append_assoc, append-nil, arith, ltb, lt→ltb, if◌then◌else◌, length, length-take,
  length-drop, take, take-append-drop, take_all, drop, drop-drop, drop_all, Bool-cases, inl, inr,
  ◌⊎◌,
}
use go_mutuals.Slices.{chunk_loop}

abbrev pub concat : {T : Type 0} → List (List T) → List T
concat [] = []
concat (c ∷ chunks) = c ++ concat chunks

concat-append : {T : Type 0} (cs ds : List (List T)) → concat (cs ++ ds) ≡ concat cs ++ concat ds
concat-append [] ds = refl
concat-append (c ∷ cs) ds =
    ap (λ l. c ++ l) (concat-append cs ds) ∙ sym (append_assoc c (concat cs) (concat ds))

-- Pieces of `n` items, of which the last may have fewer.
abbrev pub Chunked : {T : Type 0} → ℕ → List (List T) → Type 0
Chunked n [] = Unit
Chunked n (c ∷ []) = length c ≤ n
Chunked n (c ∷ d ∷ chunks) = (length c ≡ n) × Chunked n (d ∷ chunks)

-- What is left from an index is its first items, then what is left after them.
cut-drop :
    {T : Type 0} (s : List T) (n i : ℕ)
    → i < length s
    → (take ((if ltb (length s) (i + n) then length s else i + n) - i) (drop i s)) ++ drop (i + n) s
      ≡ drop i s
cut-drop s n i h = elim (Bool-cases (ltb (length s) (i + n))) [
  | inl last ↦
      rw
        (
          last,
          drop_all (i + n) s (ground arith),
          take_all (length s - i) (drop i s) (omega (arith, length-drop i s)),
        )
        (append-nil (drop i s))
  | inr more ↦
      let size : i + n - i ≡ n = omega arith in
      let swap : i + n ≡ n + i = omega arith in
      rw (more, size) (rw (swap, ← drop-drop n i s) (take-append-drop n (drop i s)))
]

cut-length :
    {T : Type 0} (s : List T) (n i : ℕ)
    → i < length s
    → let size =
        length (take ((if ltb (length s) (i + n) then length s else i + n) - i) (drop i s)) in
      (size ≤ n) × ((length s ≤ i + n) ⊎ (size ≡ n))
cut-length s n i h = elim (Bool-cases (ltb (length s) (i + n))) [
  | inl last ↦
      rw last
        (ground (arith, length-take (length s - i) (drop i s), length-drop i s), inl (ground arith))
  | inr more ↦ rw more (
    ground (arith, length-take (i + n - i) (drop i s), length-drop i s),
    inr (ground (arith, length-take (i + n - i) (drop i s), length-drop i s)),
  )
]

Chunked-cons :
    {T : Type 0} (n : ℕ) (c : List T) (chunks : List (List T))
    → length c ≤ n
    → (chunks ≡ []) ⊎ (length c ≡ n)
    → Chunked n chunks
    → Chunked n (c ∷ chunks)
Chunked-cons n c [] small last sized = small
Chunked-cons n c (d ∷ chunks) small (inl ends) sized = cc
Chunked-cons n c (d ∷ chunks) small (inr full) sized = (full, sized)

module _ {T : Type 0} (s : List T) (n : ℕ) where
  -- A run from the index `i` that ends with pieces of the rest of the slice.
  record Cuts (i : ℕ) (outcome : Option (List (List T))) : Type 0 where
    chunks : List (List T)
    ends : outcome ≡ some chunks
    all : concat chunks ≡ drop i s
    sized : Chunked n chunks
    some_left : length s ≤ i → chunks ≡ []

  chunk_loop-Cuts :
      (fuel i : ℕ) → 0 < n → length s < fuel + i → 0 < fuel → Cuts i (chunk_loop s n fuel i)
  unfolding chunk_loop
  chunk_loop-Cuts zero i pos_n h some_fuel = absurd (omega arith)
  chunk_loop-Cuts (suc fuel) i pos_n h some_fuel = elim (Bool-cases (ltb i (length s))) [
    | inl more ↦
        let rest = chunk_loop-Cuts fuel (i + n) pos_n (omega arith) (ground arith) in
        let size = cut-length s n i (ground arith) in
        record {
          chunks =
              take ((if ltb (length s) (i + n) then length s else i + n) - i) (drop i s)
              ∷ rest.chunks;
          ends = rw (more, rest.ends);
          all = rw rest.all (cut-drop s n i (ground arith));
          sized =
              Chunked-cons n _ rest.chunks size.0
                (elim size.1 [ inl last ↦ inl (rest.some_left last) | inr full ↦ inr full ])
                rest.sized;
          some_left = λ h. absurd (ground arith);
        }
    | inr over ↦ rw over (record {
      chunks = [];
      ends = refl;
      all = sym (drop_all i s (ground arith));
      sized = tt;
      some_left = λ h. refl;
    })
  ]

chunk-stuck : {T : Type 0} (s : List T) (fuel : ℕ) → 0 < length s → chunk_loop s 0 fuel 0 ≡ none
unfolding chunk_loop
chunk-stuck s zero h = refl
chunk-stuck s (suc fuel) h = rw (lt→ltb 0 (length s) h, chunk-stuck s fuel h)

-- With a positive size `Chunk` ends, within one round more than there are items, and its pieces are the
-- slice, cut into pieces of that size of which the last may be shorter. With the size 0 it never ends
-- on a slice with items.
pub chunk-Chunked :
    {T : Type 0} (s : List T) (n : ℕ)
    → (0 < n
        → (chunks : List (List T)) × (chunk_loop s n (length s + 1) 0 ≡ some chunks)
          × (concat chunks ≡ s)
          × Chunked n chunks)
      × ((fuel : ℕ) → 0 < length s → chunk_loop s 0 fuel 0 ≡ none)
chunk-Chunked s n = (
  λ positive.
      let cuts = chunk_loop-Cuts s n (length s + 1) 0 positive (omega arith) (omega arith) in
      (cuts.chunks, cuts.ends, cuts.all, cuts.sized),
  chunk-stuck s,
)
