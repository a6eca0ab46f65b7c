-- ===== src/Batching/Params.antt =====
-- util/batch/batch.go: `indexOf`, and `publishToSubscribers` where there are enough errors.
use go_mutuals.Prelude.{
  ℕ, get_elem?, ◌≤◌, ◌≡◌, refl, sym, ap, Bool, true, Option, none, some, List, [], ◌∷◌, arith,
  length, ok, Bool-cases, Option-cases, inl, inr,
}
use go_mutuals.Batching.{index_of, publish}

module _ {A : Type 0} where
  -- What is found is the item itself.
  pub get_elem?-index_of :
      (eq : A → A → Bool) (eq→path : (x y : A) → eq x y ≡ true → x ≡ y) (xs : List A) (x : A)
      (i : ℕ)
      → index_of eq xs x ≡ some i
      → get_elem? xs i ≡ some x
  unfolding index_of get_elem?
  get_elem?-index_of eq eq→path [] x i h = cc
  get_elem?-index_of eq eq→path (y ∷ xs) x i h = elim (Bool-cases (eq x y)) [
    | inl found ↦ ground (arith, ap some (sym (eq→path x y found)))
    | inr other ↦ elim (Option-cases (index_of eq xs x)) [
      | inl missing ↦ ground arith
      | inr (j, later) ↦ ground (arith, get_elem?-index_of eq eq→path xs x j later)
    ]
  ]

pub publish_total :
    {E R X : Type 0} (results : List R) (errors : List (Option X))
    → length results ≤ length errors
    → (seen : List R) × (publish {E = E} results errors ≡ ok seen)
unfolding publish
publish_total {E = E} [] errors h = ([], refl)
publish_total {E = E} (r ∷ results) [] h = absurd (omega arith)
publish_total {E = E} (r ∷ results) (none ∷ errors) h =
    let (seen, e) = publish_total {E = E} results errors (omega arith) in (r ∷ seen, rw e)
publish_total {E = E} (r ∷ results) (some x ∷ errors) h =
    publish_total {E = E} results errors (omega arith)
