-- ===== src/Paging/Keyset.antt =====
-- publicapi/pagination.go, `keysetPaginator.paginate`: the pages that it makes of the rows that its
-- query function serves.
use go_mutuals.Prelude.{
  ℕ, ◌+◌, ◌-◌, ◌^◌, ◌<◌, ◌≡◌, ◌≢◌, refl, ap, ◌∙◌, Bool, true, false, Option, none, some, List, [],
  ◌∷◌, arith, ltb, ℤ, pos, ◌+ℤ◌, reverse, length, length-take, length-drop, take, drop, take_all,
  take-take, drop-drop, reverse-take-reverse, All-take, All-drop, Outcome, ok, Bool-cases, inl, inr,
}
use go_mutuals.Cursor.Bytes.{Bytes}
use go_mutuals.Paging.{
  PageInfo, pack_node, apply_after, apply_before, apply_cursors, slice_to, slice_last, page_last,
  page_edges_from, longer_than, to_int32, last_node, end_cursors, count_total, page_info_from,
  page_from, keyset_results, paginate,
}
use go_mutuals.Paging.Window.{Lacks, cut_after_missing, cut_before_missing}

-- The query function gives the first rows in its order, which is the other way round for a
-- backward page, and no more than its limit.
pub record Serves {E Node : Type 0} (rows : List Node)
    (query_func : ℤ → Bool → Outcome E (List Node)) : Type 0 where
  pub forward : (n : ℕ) → n < 2 ^ 31 → query_func (pos n) true ≡ ok (take n rows)
  pub backward : (n : ℕ) → n < 2 ^ 31 → query_func (pos n) false ≡ ok (take n (reverse rows))

to_int32_limit : (n : ℕ) → n + 1 < 2 ^ 31 → to_int32 (pos 1 +ℤ pos n) ≡ pos (n + 1)
unfolding ◌+ℤ◌
to_int32_limit n h = ground arith

-- A page of one row more than `n`, cut to `n`, is a page of `n`.
page_forward :
    {E A : Type 0} (n : ℕ) (rows : List A)
    → page_edges_from {E = E} (take (n + 1) rows) (some (pos n)) none ≡ ok (take n rows)
unfolding page_edges_from page_last slice_to
page_forward n rows = elim (Bool-cases (ltb n (length rows))) [
  | inl more ↦ ground (arith, length-take (n + 1) rows, take-take n (n + 1) rows)
  | inr all ↦ ground (arith, length-take (n + 1) rows, take_all (n + 1) rows, take_all n rows)
]

page_backward :
    {E A : Type 0} (n : ℕ) (rows : List A)
    → page_edges_from {E = E} (drop (length rows - (n + 1)) rows) none (some (pos n))
      ≡ ok (drop (length rows - n) rows)
unfolding page_edges_from page_last slice_last
page_backward n rows =
    let skip = length rows - (n + 1) in
    ground (arith, length-drop skip rows, drop-drop (length (drop skip rows) - n) skip rows)

-- The cursors of the first and the last edge, empty for no edge.
abbrev pub ends_of : {Node : Type 0} → (Node → Bytes) → List Node → Bytes × Bytes
ends_of name [] = ([], [])
ends_of name (x ∷ xs) = (name x, name (last_node x xs))

abbrev pub NotAmong : {Node : Type 0} → (Node → Bytes) → Option Bytes → List Node → Type 0
NotAmong name none rows = Unit
NotAmong name (some s) rows = Lacks name s rows

-- The page info of the edges `page` of the wider list `edges`.
abbrev pub info_of :
    {Node : Type 0} → (Node → Bytes) → Option ℤ → List Node → Bool → Bool → PageInfo
info_of name total page previous next = record {
  total = total;
  size = length page;
  has_previous_page = previous;
  has_next_page = next;
  start_cursor = (ends_of name page).0;
  end_cursor = (ends_of name page).1;
}

NotAmong-take :
    {Node : Type 0} (name : Node → Bytes) (o : Option Bytes) (n : ℕ) (rows : List Node)
    → NotAmong name o rows
    → NotAmong name o (take n rows)
NotAmong-take name none n rows h = tt
NotAmong-take name (some s) n rows h = All-take (λ x. name x ≢ s) n rows h

NotAmong-drop :
    {Node : Type 0} (name : Node → Bytes) (o : Option Bytes) (n : ℕ) (rows : List Node)
    → NotAmong name o rows
    → NotAmong name o (drop n rows)
NotAmong-drop name none n rows h = tt
NotAmong-drop name (some s) n rows h = All-drop (λ x. name x ≢ s) n rows h

-- The one row more shows whether rows are left.
longer_forward :
    {A : Type 0} (n : ℕ) (rows : List A)
    → longer_than (take (n + 1) rows) (some (pos n)) ≡ ltb n (length rows)
longer_forward n rows = ground (arith, length-take (n + 1) rows)

longer_backward :
    {A : Type 0} (n : ℕ) (rows : List A)
    → longer_than (drop (length rows - (n + 1)) rows) (some (pos n)) ≡ ltb n (length rows)
longer_backward n rows = ground (arith, length-drop (length rows - (n + 1)) rows)

module _ {E Node K : Type 0} (pack : K → Outcome E Bytes) (cursorable : Node → Outcome E K)
    (name : Node → Bytes) (packs : (x : Node) → pack_node pack cursorable x ≡ ok (name x)) where
  apply_after_outside :
      (edges : List Node) (after : Option Bytes)
      → NotAmong name after edges
      → apply_after pack cursorable edges after ≡ ok edges
  unfolding apply_after
  apply_after_outside edges none h = refl
  apply_after_outside edges (some s) h =
      cut_after_missing pack cursorable name packs s edges edges h

  apply_before_outside :
      (edges : List Node) (before : Option Bytes)
      → NotAmong name before edges
      → apply_before pack cursorable edges before ≡ ok edges
  unfolding apply_before
  apply_before_outside edges none h = refl
  apply_before_outside edges (some s) h =
      cut_before_missing pack cursorable name packs s edges edges 0 h

  apply_cursors_outside :
      (edges : List Node) (before after : Option Bytes)
      → NotAmong name before edges
      → NotAmong name after edges
      → apply_cursors pack cursorable edges before after ≡ ok edges
  unfolding apply_cursors
  apply_cursors_outside edges before after hb ha =
      rw (apply_after_outside edges after ha) (apply_before_outside edges before hb)

  end_cursors-ends_of :
      (edges : List Node) → end_cursors pack cursorable edges ≡ ok (ends_of name edges)
  unfolding end_cursors
  end_cursors-ends_of [] = refl
  end_cursors-ends_of (x ∷ xs) = rw (packs x, packs (last_node x xs))

  page_from_outside :
      (edges page : List Node) (count_f : Option (Outcome E ℤ)) (total : Option ℤ)
      (before after : Option Bytes) (first last : Option ℤ)
      → NotAmong name before edges
      → NotAmong name after edges
      → count_total count_f ≡ ok total
      → page_edges_from {E = E} edges first last ≡ ok page
      → page_from pack cursorable edges count_f before after first last
        ≡ ok (page, info_of name total page (longer_than edges last) (longer_than edges first))
  unfolding page_from page_info_from
  page_from_outside edges page count_f total before after first last hb ha hc hp =
      rw (apply_cursors_outside edges before after hb ha, hp, end_cursors-ends_of page, hc)

  module _ {rows : List Node} {query_func : ℤ → Bool → Outcome E (List Node)}
      (serves : Serves rows query_func) (count_f : Option (Outcome E ℤ)) (total : Option ℤ)
      (counted : count_total count_f ≡ ok total) (before after : Option Bytes)
      (outside_before : NotAmong name before rows) (outside_after : NotAmong name after rows) where
    -- With `first`, the page is the first rows, in order; there is a next page exactly if there
    -- are more rows; the cursors are those of the page's ends. The query serves the rows, their
    -- cursors pack, none is the cursor string of the request, the count succeeds, and n + 1 is
    -- below 2 ^ 31.
    pub paginate_forward :
        (n : ℕ)
        → n + 1 < 2 ^ 31
        → paginate pack cursorable query_func count_f before after (some (pos n)) none
          ≡ ok (take n rows, info_of name total (take n rows) false (ltb n (length rows)))
    unfolding paginate keyset_results
    paginate_forward n h =
        rw (to_int32_limit n h, serves.forward (n + 1) h)
          (page_from_outside (take (n + 1) rows) (take n rows) count_f total before after
              (some (pos n)) none (NotAmong-take name before (n + 1) rows outside_before)
              (NotAmong-take name after (n + 1) rows outside_after) counted (page_forward n rows)
            ∙ ap (λ (b : Bool). ok (take n rows, info_of name total (take n rows) false b))
                (longer_forward n rows))

    -- With `last`, the page is the last rows, in the order of the rows, and there is a previous
    -- page exactly if there are more rows, under the conditions of a forward page: the query
    -- serves the rows, their cursors pack, none is the cursor string of the request, the count
    -- succeeds, and n + 1 is below 2 ^ 31.
    pub paginate_backward :
        (n : ℕ)
        → n + 1 < 2 ^ 31
        → let page = drop (length rows - n) rows in
          paginate pack cursorable query_func count_f before after none (some (pos n))
          ≡ ok (page, info_of name total page (ltb n (length rows)) false)
    unfolding paginate keyset_results
    paginate_backward n h =
        let skip = length rows - (n + 1) in
        let page = drop (length rows - n) rows in
        rw (to_int32_limit n h, serves.backward (n + 1) h, reverse-take-reverse (n + 1) rows)
          (page_from_outside (drop skip rows) page count_f total before after none (some (pos n))
              (NotAmong-drop name before skip rows outside_before)
              (NotAmong-drop name after skip rows outside_after) counted (page_backward n rows)
            ∙ ap (λ (b : Bool). ok (page, info_of name total page b false))
                (longer_backward n rows))
