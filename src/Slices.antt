-- ===== src/Slices.antt =====
-- util/helpers.go: the helpers on slices. A map is a function of its keys. `Filter` and `Dedupe` write
-- into a fresh slice, or into the one that they read.
pub mod Compact
pub mod Unique
pub mod Chunks
use go_mutuals.Prelude.{
  ℕ, zero, suc, ◌+◌, ◌-◌, ◌≡◌, Bool, true, false, not, ◌||◌, Option, none, some, List, [], ◌∷◌,
  ◌++◌, ltb, leb, if◌then◌else◌, length, take, drop, get_elem?, set_elem, Outcome, ok, err, panics,
  ◌>>=◌, Eq, beq,
}

-- `Contains`
unfoldable pub contains : {A : Type 0} ⦃e : Eq A⦄ → List A → A → Bool
contains [] str = false
contains (v ∷ s) str = let rest = contains s str in if beq v str then true else rest

-- `Map`, which stops at the first error.
unfoldable pub map_err : {E T U : Type 0} → (T → Outcome E U) → List T → Outcome E (List U)
map_err f [] = ok []
map_err f (x ∷ xs) = do it ← f x; rest ← map_err f xs; ok (it ∷ rest)

unfoldable pub all_equal : {A : Type 0} ⦃e : Eq A⦄ → List A → Bool
all_equal [] = true
all_equal {A} (x ∷ xs) = loop (x ∷ xs)
  where
    loop : List A → Bool
    loop [] = true
    loop (y ∷ ys) = let rest = loop ys in if beq y x then rest else false

-- `FindFirst`, with the zero value of the type.
unfoldable pub find_first : {A : Type 0} → A → List A → (A → Bool) → A × Bool
find_first zero_value [] f = (zero_value, false)
find_first zero_value (v ∷ s) f =
    let rest = find_first zero_value s f in if f v then (v, true) else rest

-- A loop that appends each element that passes a test to a fresh slice; `st` is what it has seen.
unfoldable pub keep : {A S : Type 0} → (S → A → Bool) → (S → A → S) → S → List A → List A
keep test next st [] = []
keep test next st (x ∷ xs) = elim (test st x) [
  | true ↦ x ∷ keep test next (next st x) xs
  | false ↦ keep test next st xs
]

-- The same loop where the slice that it appends to begins as `src[:0]`: the `w`-th append writes
-- `src[w]`. It gives the length of the result, and the array.
unfoldable pub keep_in_place :
    {E A S : Type 0}
    → (S → A → Bool)
    → (S → A → S)
    → ℕ
    → ℕ
    → ℕ
    → S
    → List A
    → Outcome E (ℕ × List A)
keep_in_place test next zero i w st src = ok (w, src)
keep_in_place test next (suc n) i w st src = elim (get_elem? src i) [
  | none ↦ panics
  | some x ↦ elim (test st x) [
    | true ↦ keep_in_place test next n (i + 1) (w + 1) (next st x) (set_elem src w x)
    | false ↦ keep_in_place test next n (i + 1) w st src
  ]
]

-- `seen[x] = true`
abbrev pub mark : {A : Type 0} ⦃e : Eq A⦄ → (A → Bool) → A → A → Bool
mark seen x y = beq x y || seen y

abbrev pub unseen : {T V : Type 0} → (T → V) → (V → Bool) → T → Bool
unseen translate seen x = not (seen (translate x))

abbrev pub see : {T V : Type 0} ⦃e : Eq V⦄ → (T → V) → (V → Bool) → T → V → Bool
see translate seen x = mark seen (translate x)

-- `DedupeWithTranslate` and `Dedupe`.
unfoldable pub dedupe_with_translate : {T V : Type 0} ⦃e : Eq V⦄ → (T → V) → List T → List T
dedupe_with_translate translate src = keep (unseen translate) (see translate) (λ v. false) src

unfoldable pub dedupe : {T : Type 0} ⦃e : Eq T⦄ → List T → List T
dedupe src = dedupe_with_translate (λ x. x) src

unfoldable pub dedupe_in_place :
    {E T V : Type 0} ⦃e : Eq V⦄ → (T → V) → List T → Outcome E (ℕ × List T)
dedupe_in_place translate src =
    keep_in_place (unseen translate) (see translate) (length src) 0 0 (λ v. false) src

-- `Filter`
unfoldable pub filter : {T : Type 0} → (T → Bool) → List T → List T
filter f s = keep (λ (st : Unit {0}) x. f x) (λ st x. st) tt s

unfoldable pub filter_in_place : {E T : Type 0} → (T → Bool) → List T → Outcome E (ℕ × List T)
filter_in_place f s = keep_in_place (λ (st : Unit {0}) x. f x) (λ st x. st) (length s) 0 0 tt s

-- `Difference`
unfoldable pub difference : {T : Type 0} ⦃e : Eq T⦄ → List T → List T → List T
difference old [] = []
difference old (v ∷ new) =
    let added = difference old new in if contains old v then added else v ∷ added

-- `GroupBy`: the groups after each element, from those before.
unfoldable pub group_from : {T K : Type 0} ⦃e : Eq K⦄ → (T → K) → List T → (K → List T) → K → List T
group_from f [] m = m
group_from f (v ∷ s) m =
    let key = f v in group_from f s (λ k. if beq key k then m key ++ v ∷ [] else m k)

unfoldable pub group_by : {T K : Type 0} ⦃e : Eq K⦄ → List T → (T → K) → K → List T
group_by s f = group_from f s (λ k. [])

-- The loop of `Chunk` from the index `i`, none if the fuel runs out.
unfoldable pub chunk_loop : {T : Type 0} → List T → ℕ → ℕ → ℕ → Option (List (List T))
chunk_loop s chunk_size zero i = none
chunk_loop s chunk_size (suc fuel) i =
    let rest = chunk_loop s chunk_size fuel (i + chunk_size) in
    if ltb i (length s)
    then (let end = if ltb (length s) (i + chunk_size) then length s else i + chunk_size in
        elim rest [ none ↦ none | some chunks ↦ some (take (end - i) (drop i s) ∷ chunks) ])
    else some []

-- The loop of `ChunkBy`, which cuts the chunks off the front of `items`.
unfoldable pub chunk_by_loop :
    {T : Type 0} → ℕ → ℕ → List T → List (List T) → Option (List (List T))
chunk_by_loop chunk_size zero items chunks = none
chunk_by_loop chunk_size (suc fuel) items chunks =
    let rest =
      chunk_by_loop chunk_size fuel (drop chunk_size items)
        (chunks ++ take chunk_size items ∷ []) in
    if ltb chunk_size (length items) then rest else some (chunks ++ items ∷ [])
