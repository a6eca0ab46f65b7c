-- ===== src/Paging/Limits.antt =====
-- publicapi/pagination.go, `validatePaginationParams`, and the validators of validate/validate.go that it
-- calls. `check` is `validator.Var` with the tag "omitempty,gte=0": the reason for which it refuses a
-- value, if it does. `validator.Struct` fails where the struct's validator reports an error.
use go_mutuals.Prelude.{
  ℕ, ◌≡◌, ◌≢◌, ◌⊎◌, inl, inr, refl, Option, none, some, List, [], ◌∷◌, ℤ, pos, negsuc, subst,
}

-- `ErrInvalidInput`: parameters and reasons. The map of fields is gone through in any order; here the
-- first comes first.
pub data Parameter : Type 0 where
  first_param last_param : Parameter

pub record ErrInvalidInput (R : Type 0) : Type 0 where
  pub parameters : List Parameter
  pub reasons : List R

-- What `ConnectionPaginationParamsValidator` reports.
pub data Report : Type 0 where
  required_without excluded_with : Parameter → Report

unfoldable pub connection_reports : Option ℤ → Option ℤ → List Report
connection_reports none none = required_without first_param ∷ required_without last_param ∷ []
connection_reports (some first) (some last) =
    excluded_with first_param ∷ excluded_with last_param ∷ []
connection_reports none (some last) = []
connection_reports (some first) none = []

pub data PaginationError (R : Type 0) : Type 0 where
  invalid_input : ErrInvalidInput R → PaginationError R
  invalid_struct : List Report → PaginationError R

unfoldable pub append_reason :
    {R : Type 0} → Parameter → Option R → ErrInvalidInput R → ErrInvalidInput R
append_reason p none e = e
append_reason p (some r) e = record { parameters = p ∷ e.parameters; reasons = r ∷ e.reasons }

unfoldable pub found_errors : {R : Type 0} → List R → ErrInvalidInput R → Option (PaginationError R)
found_errors [] e = none
found_errors (r ∷ rs) e = some (invalid_input e)

-- `ValidateFields` of the two fields.
unfoldable pub validate_fields :
    {R : Type 0} → (Option ℤ → Option R) → Option ℤ → Option ℤ → Option (PaginationError R)
validate_fields check first last =
    let e =
      append_reason first_param (check first)
        (append_reason last_param (check last) (record { parameters = []; reasons = [] })) in
    found_errors e.reasons e

unfoldable pub struct_error : {R : Type 0} → List Report → Option (PaginationError R)
struct_error [] = none
struct_error (r ∷ rs) = some (invalid_struct (r ∷ rs))

unfoldable pub validate_pagination_params :
    {R : Type 0} → (Option ℤ → Option R) → Option ℤ → Option ℤ → Option (PaginationError R)
validate_pagination_params check first last = elim (validate_fields check first last) [
  | some e ↦ some e
  | none ↦ struct_error (connection_reports first last)
]

module _ {R : Type 0} (check : Option ℤ → Option R)
    (refuses : (n : ℕ) → check (some (negsuc n)) ≢ none) where
  refused : (n : ℕ) (r : Option R) → check (some (negsuc n)) ≡ r → (x : R) × (r ≡ some x)
  refused n none h = absurd (refuses n h)
  refused n (some x) h = (x, refl)

  -- The answers of the two checks and the reports, together, are no error.
  abbrev Passes : Option R → Option R → List Report → Type 0
  Passes o p reports =
      let e =
        append_reason first_param o
          (append_reason last_param p (record { parameters = []; reasons = [] })) in
      (elim (found_errors e.reasons e) [ some e' ↦ some e' | none ↦ struct_error reports ]) ≡ none

  reported : {X : Type 0} (o p : Option R) (r : Report) (rs : List Report) → Passes o p (r ∷ rs) → X
  unfolding append_reason found_errors struct_error
  reported none none r rs h = cc
  reported none (some y) r rs h = cc
  reported (some x) none r rs h = cc
  reported (some x) (some y) r rs h = cc

  first_refused : {X : Type 0} (x : R) (p : Option R) (rs : List Report) → Passes (some x) p rs → X
  unfolding append_reason found_errors
  first_refused x none rs h = cc
  first_refused x (some y) rs h = cc

  last_refused : {X : Type 0} (o : Option R) (y : R) (rs : List Report) → Passes o (some y) rs → X
  unfolding append_reason found_errors
  last_refused none y rs h = cc
  last_refused (some x) y rs h = cc

  -- Limits that are valid are one limit, forward or backward, that is not negative.
  pub validate_pagination_params-one :
      (first last : Option ℤ)
      → validate_pagination_params check first last ≡ none
      → ((n : ℕ) × (first ≡ some (pos n)) × (last ≡ none))
        ⊎ ((n : ℕ) × (first ≡ none) × (last ≡ some (pos n)))
  unfolding validate_pagination_params validate_fields found_errors append_reason connection_reports
      struct_error
  validate_pagination_params-one (some (pos n)) none h = inl (n, refl, refl)
  validate_pagination_params-one none (some (pos n)) h = inr (n, refl, refl)
  validate_pagination_params-one none none h = reported (check none) (check none) _ _ h
  validate_pagination_params-one (some a) (some b) h =
      reported (check (some a)) (check (some b)) _ _ h
  validate_pagination_params-one (some (negsuc n)) none h =
      let (x, e) = refused n (check (some (negsuc n))) refl in
      first_refused x (check none) [] (subst (λ r. Passes r (check none) []) e h)
  validate_pagination_params-one none (some (negsuc n)) h =
      let (x, e) = refused n (check (some (negsuc n))) refl in
      last_refused (check none) x [] (subst (λ r. Passes (check none) r []) e h)
