-- ===== src/Slices/Unique.antt =====
-- util/helpers.go: what `Dedupe`, `Difference` and `GroupBy` give.
use go_mutuals.Prelude.{
  ◌≡◌, ◌≢◌, refl, sym, ap, ◌∙◌, Bool, true, false, not, List, [], ◌∷◌, ◌++◌, map, append_assoc,
  append-nil, arith, All, Eq, beq, beq_self, beq→eq, Bool-cases, inl, inr,
}
use go_mutuals.Slices.{
  contains, keep, mark, unseen, see, dedupe_with_translate, filter, difference, group_from,
  group_by,
}
use go_mutuals.Slices.Compact.{keep_taken, keep_passed}

-- Some of the items of a slice, in their order.
pub data Sublist {A : Type 0} : List A → List A → Type 0 where
  none_left : Sublist [] []
  skips : {xs ys : List A} (y : A) → Sublist xs ys → Sublist xs (y ∷ ys)
  takes : {xs ys : List A} (y : A) → Sublist xs ys → Sublist (y ∷ xs) (y ∷ ys)

keep-Sublist :
    {A S : Type 0} (test : S → A → Bool) (next : S → A → S) (st : S) (xs : List A)
    → Sublist (keep test next st xs) xs
unfolding keep
keep-Sublist test next st [] = none_left
keep-Sublist test next st (x ∷ xs) = elim (Bool-cases (test st x)) [
  | inl kept ↦
      rw (keep_taken test next x xs st kept) (takes x (keep-Sublist test next (next st x) xs))
  | inr left ↦ rw (keep_passed test next x xs st left) (skips x (keep-Sublist test next st xs))
]

module _ {T V : Type 0} ⦃e : Eq V⦄ (translate : T → V) where
  -- No two items have the same translation.
  abbrev pub IsUnique : List T → Type 0
  IsUnique [] = Unit
  IsUnique (x ∷ xs) = All (λ y. translate y ≢ translate x) xs × IsUnique xs

  -- What is kept after `seen` has not been seen.
  kept-unseen :
      (seen : V → Bool) (v : V) (xs : List T)
      → seen v ≡ true
      → All (λ y. translate y ≢ v) (keep (unseen translate) (see translate) seen xs)
  unfolding keep
  kept-unseen seen v [] h = tt
  kept-unseen seen v (x ∷ xs) h = elim (Bool-cases (seen (translate x))) [
    | inl old ↦
        rw (keep_passed (unseen translate) (see translate) x xs seen (rw old))
          (kept-unseen seen v xs h)
    | inr new ↦
        rw (keep_taken (unseen translate) (see translate) x xs seen (rw new))
          (λ same. cc, kept-unseen (mark seen (translate x)) v xs (ground arith))
  ]

  kept-IsUnique :
      (seen : V → Bool) (xs : List T) → IsUnique (keep (unseen translate) (see translate) seen xs)
  unfolding keep
  kept-IsUnique seen [] = tt
  kept-IsUnique seen (x ∷ xs) = elim (Bool-cases (seen (translate x))) [
    | inl old ↦
        rw (keep_passed (unseen translate) (see translate) x xs seen (rw old))
          (kept-IsUnique seen xs)
    | inr new ↦ rw (keep_taken (unseen translate) (see translate) x xs seen (rw new)) (
      kept-unseen (mark seen (translate x)) (translate x) xs (rw (beq_self (translate x))),
      kept-IsUnique (mark seen (translate x)) xs,
    )
  ]

  other_key :
      (seen : V → Bool) (x : T) (v : V)
      → seen (translate x) ≡ true
      → seen v ≡ false
      → beq (translate x) v ≡ false
  other_key seen x v old h = elim (Bool-cases (beq (translate x) v)) [
    | inl same ↦ let key = beq→eq (translate x) v same in cc
    | inr other ↦ other
  ]

  contains-kept :
      (seen : V → Bool) (v : V) (xs : List T)
      → seen v ≡ false
      → contains (map translate (keep (unseen translate) (see translate) seen xs)) v
        ≡ contains (map translate xs) v
  unfolding keep contains
  contains-kept seen v [] h = refl
  contains-kept seen v (x ∷ xs) h = elim (Bool-cases (seen (translate x))) [
    | inl old ↦
        rw (keep_passed (unseen translate) (see translate) x xs seen (rw old))
          (rw (other_key seen x v old h) (contains-kept seen v xs h))
    | inr new ↦
        rw (keep_taken (unseen translate) (see translate) x xs seen (rw new))
          (elim (Bool-cases (beq (translate x) v)) [
            | inl found ↦ rw found
            | inr other ↦ rw other (contains-kept (mark seen (translate x)) v xs (rw (other, h)))
          ])
  ]

  -- `DedupeWithTranslate` keeps some of the items in their order, no two of the same translation, and
  -- one of every translation that there is.
  pub dedupe-IsUnique :
      (src : List T)
      → IsUnique (dedupe_with_translate translate src)
        × Sublist (dedupe_with_translate translate src) src
        × ((v : V)
            → contains (map translate (dedupe_with_translate translate src)) v
              ≡ contains (map translate src) v)
  unfolding dedupe_with_translate
  dedupe-IsUnique src = (
    kept-IsUnique (λ v. false) src,
    keep-Sublist _ _ (λ v. false) src,
    λ v. contains-kept (λ v'. false) v src refl,
  )

module _ {T : Type 0} (f : T → Bool) (v : T) (s : List T) where
  filter_taken : f v ≡ true → filter f (v ∷ s) ≡ v ∷ filter f s
  unfolding filter
  filter_taken h = keep_taken _ _ v s tt h

  filter_passed : f v ≡ false → filter f (v ∷ s) ≡ filter f s
  unfolding filter
  filter_passed h = keep_passed _ _ v s tt h

-- The items of the group are those with the key, in their order.
group_from-filter :
    {T K : Type 0} ⦃e : Eq K⦄ (f : T → K) (s : List T) (m : K → List T) (k : K)
    → group_from f s m k ≡ m k ++ filter (λ v. beq (f v) k) s
unfolding group_from filter keep
group_from-filter f [] m k = sym (append-nil (m k))
group_from-filter f (v ∷ s) m k = elim (Bool-cases (beq (f v) k)) [
  | inl same ↦
      group_from-filter f s _ k
      ∙ rw (filter_taken (λ x. beq (f x) k) v s same, beq→eq (f v) k same, beq_self k)
          (append_assoc (m k) (v ∷ []) (filter (λ x. beq (f x) k) s))
  | inr other ↦ group_from-filter f s _ k ∙ rw (filter_passed (λ x. beq (f x) k) v s other, other)
]

-- `GroupBy` gives each key the items that have it, in their order.
pub group_by-filter :
    {T K : Type 0} ⦃e : Eq K⦄ (s : List T) (f : T → K) (k : K)
    → group_by s f k ≡ filter (λ v. beq (f v) k) s
unfolding group_by
group_by-filter s f k = group_from-filter f s (λ k'. []) k

-- The items of `Difference` are those of the second slice that the first does not hold.
pub difference-filter :
    {T : Type 0} ⦃e : Eq T⦄ (old new : List T)
    → difference old new ≡ filter (λ v. not (contains old v)) new
unfolding difference filter keep
difference-filter old [] = refl
difference-filter old (v ∷ new) = elim (Bool-cases (contains old v)) [
  | inl held ↦
      rw (filter_passed (λ x. not (contains old x)) v new (rw held))
        (rw held (difference-filter old new))
  | inr missing ↦
      rw (filter_taken (λ x. not (contains old x)) v new (rw missing))
        (rw missing (ap (λ l. v ∷ l) (difference-filter old new)))
]
