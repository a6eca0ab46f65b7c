-- ===== src/Tests/PagingTests.antt =====
-- Pages of a small table, and the paginator's theorems at it.
use go_mutuals.Prelude.{
  ℕ, ◌+◌, ◌<◌, ◌≡◌, ◌≢◌, ◌⊎◌, refl, sym, ap, Bool, true, false, Option, none, some, List, [], ◌∷◌,
  ◌++◌, arith, ℤ, pos, negsuc, reverse, take, Outcome, ok, err, panics, if◌then◌else◌, Bool-cases,
  inl, inr, subst,
}
use go_mutuals.Cursor.Bytes.{Bytes, eq_bytes, eq_bytes→eq, eq_bytes_self}
use go_mutuals.Paging.{pack_node, last_node, count_total, apply_cursors, paginate}
use go_mutuals.Paging.Limits.{
  validate_pagination_params, validate_fields, append_reason, found_errors, connection_reports,
  struct_error,
}
use go_mutuals.Paging.Returns.{validate_pagination_params-paginate}
use go_mutuals.Paging.Window.{Lacks, apply_cursors_between}
use go_mutuals.Paging.Keyset.{Serves, info_of, paginate_forward, paginate_backward}
use go_mutuals.Paging.Walk.{cursor_of, Distinct, walk, walk_complete}

-- A node is a number, and its cursor is that one byte.
abbrev name : ℕ → Bytes
name n = n ∷ []

abbrev pack : Bytes → Outcome ℕ Bytes
pack s = ok s

abbrev cursorable : ℕ → Outcome ℕ Bytes
cursorable n = ok (name n)

packs : (x : ℕ) → pack_node pack cursorable x ≡ ok (name x)
unfolding pack_node
packs x = refl

abbrev head_or : Bytes → ℕ
head_or [] = 0
head_or (c ∷ s) = c

-- A table of rows, queried by keyset.
rows_after : Option Bytes → List ℕ → List ℕ
rows_after none rows = rows
rows_after (some s) [] = []
rows_after (some s) (x ∷ rows) = if eq_bytes (name x) s then rows else rows_after (some s) rows

abbrev serve : List ℕ → ℤ → Bool → Outcome ℕ (List ℕ)
serve rows (pos n) true = ok (take n rows)
serve rows (pos n) false = ok (take n (reverse rows))
serve rows (negsuc n) forward = err 0

serve-Serves : (rows : List ℕ) → Serves rows (serve rows)
serve-Serves rows = record { forward = λ n h. refl; backward = λ n h. refl }

abbrev rows : List ℕ
rows = 97 ∷ 98 ∷ 99 ∷ []

abbrev query : Option Bytes → ℤ → Bool → Outcome ℕ (List ℕ)
query after = serve (rows_after after rows)

Lacks-last :
    (s : Bytes) (x : ℕ) (xs rest : List ℕ)
    → Lacks name s (x ∷ (xs ++ rest))
    → name (last_node x xs) ≢ s
Lacks-last s x [] rest h = h.0
Lacks-last s x (y ∷ xs) rest h = Lacks-last s y xs rest h.1

rows_after_last :
    (x : ℕ) (xs rest : List ℕ)
    → Distinct name (x ∷ (xs ++ rest))
    → rows_after (some (name (last_node x xs))) (x ∷ (xs ++ rest)) ≡ rest
unfolding rows_after
rows_after_last x [] rest h = rw (eq_bytes_self (name x))
rows_after_last x (y ∷ xs) rest h = elim (Bool-cases (eq_bytes (name x) (name (last_node y xs)))) [
  | inl e ↦ absurd (Lacks-last (name x) y xs rest h.0 (sym (eq_bytes→eq (name x) _ e)))
  | inr e ↦ rw e (rows_after_last y xs rest h.1)
]

rows_after-cursor_of :
    (seen rest : List ℕ)
    → Distinct name (seen ++ rest)
    → rows_after (cursor_of name seen) (seen ++ rest) ≡ rest
unfolding rows_after
rows_after-cursor_of [] rest h = refl
rows_after-cursor_of (x ∷ seen) rest h = rows_after_last x seen rest h

later : (a k : ℕ) → 0 < k → name (a + k) ≢ name a
later a k h e = absurd (omega (arith, ap (λ (s : Bytes). head_or s) e))

earlier : (a k : ℕ) → 0 < k → name a ≢ name (a + k)
earlier a k h e = absurd (omega (arith, ap (λ (s : Bytes). head_or s) e))

rows-Distinct : Distinct name rows
rows-Distinct = (
  (later 97 1 (omega arith), (later 97 2 (omega arith), tt)),
  ((later 98 1 (omega arith), tt), (tt, tt)),
)

query-Serves :
    (seen rest : List ℕ) → seen ++ rest ≡ rows → Serves rest (query (cursor_of name seen))
query-Serves seen rest e =
    let found = rows_after-cursor_of seen rest (subst (Distinct name) (sym e) rows-Distinct) in
    subst (λ rs. Serves rest (serve (rows_after (cursor_of name seen) rs))) e
      (rw found (serve-Serves rest))

walk_complete_example : walk pack cursorable query 2 4 none ≡ ok rows
walk_complete_example =
    walk_complete pack cursorable query 2 name packs rows rows-Distinct query-Serves (omega arith)
      (omega arith)

paginate_forward_example :
    paginate pack cursorable (serve rows) none none none (some (pos 2)) none
    ≡ ok (97 ∷ 98 ∷ [], info_of name none (97 ∷ 98 ∷ []) false true)
unfolding count_total
paginate_forward_example =
    paginate_forward pack cursorable name packs (serve-Serves rows) none none refl none none tt tt 2
      (omega arith)

paginate_backward_example :
    paginate pack cursorable (serve rows) none none none none (some (pos 2))
    ≡ ok (98 ∷ 99 ∷ [], info_of name none (98 ∷ 99 ∷ []) true false)
unfolding count_total
paginate_backward_example =
    paginate_backward pack cursorable name packs (serve-Serves rows) none none refl none none tt tt
      2 (omega arith)

apply_cursors_between_example :
    apply_cursors pack cursorable rows (some (name 99)) (some (name 97)) ≡ ok (98 ∷ [])
apply_cursors_between_example =
    apply_cursors_between pack cursorable name packs [] 97 (98 ∷ []) 99 [] tt
      (earlier 98 1 (omega arith), tt)

-- A check that refuses the negative numbers.
abbrev check_gte : Option ℤ → Option ℕ
check_gte none = none
check_gte (some (pos n)) = none
check_gte (some (negsuc n)) = some n

check_gte-refuses : (n : ℕ) → check_gte (some (negsuc n)) ≢ none
check_gte-refuses n = λ e. cc

-- The tables and the count of these pages never panic.
packs-returns : (x : ℕ) → pack_node pack cursorable x ≢ panics
unfolding pack_node
packs-returns x = λ e. cc

serve-returns : (limit : ℤ) (forward : Bool) → serve rows limit forward ≢ panics
serve-returns limit forward = ground arith

-- The first five rows behind the first.
validate_pagination_params-paginate_example :
    (((n : ℕ) × (some (pos 5) ≡ some (pos n)) × (◌≡◌ {A = Option ℤ} none none))
      ⊎ ((n : ℕ) × (some (pos 5) ≡ none) × (◌≡◌ {A = Option ℤ} none (some (pos n)))))
    × (paginate pack cursorable
          (serve rows)
          (some (ok (pos 3)))
          none
          (some (name 97))
          (some (pos 5))
          none
        ≢ panics)
unfolding validate_pagination_params validate_fields append_reason found_errors connection_reports
    struct_error
validate_pagination_params-paginate_example =
    validate_pagination_params-paginate pack cursorable packs-returns (serve rows) serve-returns
      (some (ok (pos 3))) (λ e. cc) none (some (name 97)) check_gte check_gte-refuses (some (pos 5))
      none refl
