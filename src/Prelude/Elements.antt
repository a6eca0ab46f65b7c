-- ===== src/Prelude/Elements.antt =====
-- Slices by index: reading, and writing in place.
use Prim.Native.Nat.{ℕ, zero, suc}
use mathlib.Core.Path.{◌≡◌, refl, ap}
use mathlib.Core.Option.{Option, none, some}
use mathlib.Core.List.{List, [], ◌∷◌, ◌++◌}
use go_mutuals.Prelude.Lists.{length}

module _ {A : Type 0} where
  unfoldable pub get_elem? : List A → ℕ → Option A
  get_elem? [] n = none
  get_elem? (x ∷ xs) zero = some x
  get_elem? (x ∷ xs) (suc n) = get_elem? xs n

  -- `xs[n] = x`
  unfoldable pub set_elem : List A → ℕ → A → List A
  set_elem [] n x = []
  set_elem (y ∷ xs) zero x = x ∷ xs
  set_elem (y ∷ xs) (suc n) x = y ∷ set_elem xs n x

  pub get_elem?-append :
      (xs ys : List A) (i : ℕ) {x : A} → get_elem? xs i ≡ some x → get_elem? (xs ++ ys) i ≡ some x
  unfolding get_elem?
  get_elem?-append [] ys i h = cc
  get_elem?-append (y ∷ xs) ys zero h = h
  get_elem?-append (y ∷ xs) ys (suc i) h = get_elem?-append xs ys i h

  pub get_elem?-append_length :
      (xs : List A) (x : A) (ys : List A) → get_elem? (xs ++ x ∷ ys) (length xs) ≡ some x
  unfolding get_elem?
  get_elem?-append_length [] x ys = refl
  get_elem?-append_length (y ∷ xs) x ys = get_elem?-append_length xs x ys

  pub set_elem-append_length :
      (xs : List A) (y : A) (ys : List A) (x : A)
      → set_elem (xs ++ y ∷ ys) (length xs) x ≡ xs ++ x ∷ ys
  unfolding set_elem
  set_elem-append_length [] y ys x = refl
  set_elem-append_length (z ∷ xs) y ys x = ap (λ l. z ∷ l) (set_elem-append_length xs y ys x)
