-- ===== src/Paging/Walk.antt =====
-- publicapi/pagination.go: a client that follows the end cursors, page after page, as the Relay
-- specification has it. The client is not part of the repository.
use go_mutuals.Prelude.{
  ℕ, zero, suc, ◌+◌, ◌^◌, ◌<◌, ◌≡◌, refl, sym, ap, ◌∙◌, Bool, true, false, Option, none, some, List,
  [], ◌∷◌, ◌++◌, arith, append_assoc, ltb, ℤ, pos, length, length-take, length-drop, take, drop,
  take-append-drop, take_all, Outcome, ok, panics, ◌>>=◌, Bool-cases, inl, inr, subst, ltb→lt,
}
use go_mutuals.Cursor.Bytes.{Bytes}
use go_mutuals.Paging.{pack_node, last_node, count_total, paginate}
use go_mutuals.Paging.Window.{Lacks}
use go_mutuals.Paging.Keyset.{Serves, NotAmong, ends_of, info_of, paginate_forward}

-- The cursor behind the rows that were seen.
abbrev pub cursor_of : {Node : Type 0} → (Node → Bytes) → List Node → Option Bytes
cursor_of name [] = none
cursor_of name (x ∷ xs) = some (name (last_node x xs))

abbrev pub Distinct : {Node : Type 0} → (Node → Bytes) → List Node → Type 0
Distinct name [] = Unit
Distinct name (x ∷ xs) = Lacks name (name x) xs × Distinct name xs

Lacks-append :
    {Node : Type 0} (name : Node → Bytes) (s : Bytes) (xs ys : List Node)
    → Lacks name s (xs ++ ys)
    → Lacks name s ys
Lacks-append name s [] ys h = h
Lacks-append name s (x ∷ xs) ys h = Lacks-append name s xs ys h.1

last-NotAmong :
    {Node : Type 0} (name : Node → Bytes) (x : Node) (xs rest : List Node)
    → Distinct name (x ∷ (xs ++ rest))
    → Lacks name (name (last_node x xs)) rest
last-NotAmong name x [] rest h = h.0
last-NotAmong name x (y ∷ xs) rest h = last-NotAmong name y xs rest h.1

cursor_of-NotAmong :
    {Node : Type 0} (name : Node → Bytes) (seen rest : List Node)
    → Distinct name (seen ++ rest)
    → NotAmong name (cursor_of name seen) rest
cursor_of-NotAmong name [] rest h = tt
cursor_of-NotAmong name (x ∷ seen) rest h = last-NotAmong name x seen rest h

last_node-append :
    {Node : Type 0} (x : Node) (xs : List Node) (y : Node) (ys : List Node)
    → last_node x (xs ++ y ∷ ys) ≡ last_node y ys
last_node-append x [] y ys = refl
last_node-append x (z ∷ xs) y ys = last_node-append z xs y ys

cursor_of-append :
    {Node : Type 0} (name : Node → Bytes) (seen page : List Node)
    → 0 < length page
    → cursor_of name (seen ++ page) ≡ some (ends_of name page).1
cursor_of-append name [] [] h = absurd (omega arith)
cursor_of-append name [] (y ∷ page) h = refl
cursor_of-append name (x ∷ seen) [] h = absurd (omega arith)
cursor_of-append name (x ∷ seen) (y ∷ page) h =
    ap (λ z. some (name z)) (last_node-append x seen y page)

module _ {E Node K : Type 0} (pack : K → Outcome E Bytes) (cursorable : Node → Outcome E K)
    (query : Option Bytes → ℤ → Bool → Outcome E (List Node)) (n : ℕ) where
  -- Ask for pages of `n` until one says that there is no next page. Out of fuel it is a panic.
  pub walk : ℕ → Option Bytes → Outcome E (List Node)
  walk zero after = panics
  walk (suc fuel) after = do
    (page, info) ← paginate pack cursorable (query after) none none after (some (pos n)) none
    elim info.has_next_page [
      | true ↦ walk fuel (some info.end_cursor) >>= λ rest. ok (page ++ rest)
      | false ↦ ok page
    ]

  module _ (name : Node → Bytes) (packs : (x : Node) → pack_node pack cursorable x ≡ ok (name x))
      (rows : List Node) (distinct : Distinct name rows)
      (serves : (seen rest : List Node)
        → seen ++ rest ≡ rows
        → Serves rest (query (cursor_of name seen)))
      (some_rows : 0 < n) (small : n + 1 < 2 ^ 31) where
    page_of :
        (seen rest : List Node)
        → seen ++ rest ≡ rows
        → paginate pack cursorable
            (query (cursor_of name seen))
            none
            none
            (cursor_of name seen)
            (some (pos n))
            none
          ≡ ok (take n rest, info_of name none (take n rest) false (ltb n (length rest)))
    unfolding count_total
    page_of seen rest e =
        paginate_forward pack cursorable name packs (serves seen rest e) none none refl none
          (cursor_of name seen) tt
          (cursor_of-NotAmong name seen rest (subst (Distinct name) (sym e) distinct)) n small

    walk_from :
        (fuel : ℕ) (seen rest : List Node)
        → seen ++ rest ≡ rows
        → length rest < fuel
        → walk fuel (cursor_of name seen) ≡ ok rest
    unfolding walk
    walk_from zero seen rest e h = absurd (omega arith)
    walk_from (suc fuel) seen rest e h = elim (Bool-cases (ltb n (length rest))) [
      | inl more ↦
          let some_page : 0 < length (take n rest) =
            omega (arith, length-take n rest, ltb→lt n (length rest) more) in
          rw (page_of seen rest e, more, ← cursor_of-append name seen (take n rest) some_page)
            (rw
              (walk_from fuel (seen ++ take n rest) (drop n rest)
                (append_assoc seen (take n rest) (drop n rest)
                  ∙ ap (◌++◌ seen) (take-append-drop n rest)
                  ∙ e)
                (omega (arith, length-drop n rest, ltb→lt n (length rest) more)))
              (ap ok (take-append-drop n rest)))
      | inr all ↦ rw (page_of seen rest e, all) (ap ok (take_all n rest (ground arith)))
    ]

    -- Following the end cursors from the start, in pages of n rows, gives every row once, in
    -- order, and ends within one page more than there are rows. The rows have cursors that pack
    -- into distinct strings, the query serves the rows behind the cursor that it is given, n is
    -- not 0, and n + 1 is below 2 ^ 31.
    pub walk_complete : walk (length rows + 1) none ≡ ok rows
    walk_complete = walk_from (length rows + 1) [] rows refl (omega arith)
