-- ===== src/Paging.antt =====
-- publicapi/pagination.go: cutting a list of edges into a page, and the keyset paginator. A node's
-- cursor is the outcome of `packNode`; `E` is the type of the errors of the callbacks.
pub mod Limits
pub mod Window
pub mod Keyset
pub mod Returns
pub mod Walk
use go_mutuals.Prelude.{
  ℕ, zero, suc, ◌+◌, ◌-◌, ◌%◌, ◌^◌, ◌≤◌, ◌<◌, ◌≡◌, refl, Bool, true, false, Option, none, some,
  List, [], ◌∷◌, ◌++◌, reverse, ltb, leb, ◌==◌, if◌then◌else◌, ℤ, pos, negsuc, ◌+ℤ◌, ltb_ℤ, length,
  take, drop, Outcome, ok, err, panics, ◌>>=◌,
}
use go_mutuals.Cursor.Bytes.{Bytes, eq_bytes}

pub record PageInfo : Type 0 where
  pub total : Option ℤ
  pub size : ℕ
  pub has_previous_page : Bool
  pub has_next_page : Bool
  pub start_cursor : Bytes
  pub end_cursor : Bytes

-- A Go slice expression panics on a bound below 0 or above the length.
unfoldable pub slice_to : {E A : Type 0} → List A → ℤ → Outcome E (List A)
slice_to edges (negsuc n) = panics
slice_to edges (pos n) = if leb n (length edges) then ok (take n edges) else panics

unfoldable pub slice_last : {E A : Type 0} → List A → ℤ → Outcome E (List A)
slice_last edges (negsuc n) = panics
slice_last edges (pos n) =
    if leb n (length edges) then ok (drop (length edges - n) edges) else panics

-- `ptr != nil && len(edges) > *ptr`.
abbrev pub longer_than : {A : Type 0} → List A → Option ℤ → Bool
longer_than edges none = false
longer_than edges (some n) = ltb_ℤ n (pos (length edges))

unfoldable pub page_last : {E A : Type 0} → List A → Option ℤ → Outcome E (List A)
page_last edges none = ok edges
page_last edges (some n) = if longer_than edges (some n) then slice_last edges n else ok edges

unfoldable pub page_edges_from : {E A : Type 0} → List A → Option ℤ → Option ℤ → Outcome E (List A)
page_edges_from edges none last = page_last edges last
page_edges_from edges (some n) last =
    if longer_than edges (some n) then slice_to edges n else page_last edges last

-- int32(limit)
abbrev pub to_int32 : ℤ → ℤ
to_int32 (pos n) = let w = n % 2 ^ 32 in if ltb w (2 ^ 31) then pos w else negsuc (2 ^ 32 - w - 1)
to_int32 (negsuc n) =
    let w = n % 2 ^ 32 in if ltb w (2 ^ 31) then negsuc w else pos (2 ^ 32 - w - 1)

abbrev pub last_node : {Node : Type 0} → Node → List Node → Node
last_node node [] = node
last_node node (node' ∷ rest) = last_node node' rest

unfoldable pub count_total : {E : Type 0} → Option (Outcome E ℤ) → Outcome E (Option ℤ)
count_total none = ok none
count_total (some count_f) = do total ← count_f; ok (some total)

module _ {E Node K : Type 0} (pack : K → Outcome E Bytes) (cursorable : Node → Outcome E K) where
  unfoldable pub pack_node : Node → Outcome E Bytes
  pack_node node = do cursor ← cursorable node; pack cursor

  -- The loop over the edges that ends behind the first one with the cursor.
  unfoldable pub cut_after : Bytes → List Node → List Node → Outcome E (List Node)
  cut_after after edges [] = ok edges
  cut_after after edges (edge ∷ rest) = do
    cur ← pack_node edge
    if eq_bytes cur after then ok rest else cut_after after edges rest

  -- The loop that ends before the first edge with the cursor; `i` is its index.
  unfoldable pub cut_before : Bytes → List Node → ℕ → List Node → Outcome E (List Node)
  cut_before before edges i [] = ok edges
  cut_before before edges i (edge ∷ rest) = do
    cur ← pack_node edge
    if eq_bytes cur before then ok (take i edges) else cut_before before edges (i + 1) rest

  unfoldable pub apply_after : List Node → Option Bytes → Outcome E (List Node)
  apply_after edges none = ok edges
  apply_after edges (some after) = cut_after after edges edges

  unfoldable pub apply_before : List Node → Option Bytes → Outcome E (List Node)
  apply_before edges none = ok edges
  apply_before edges (some before) = cut_before before edges 0 edges

  unfoldable pub apply_cursors : List Node → Option Bytes → Option Bytes → Outcome E (List Node)
  apply_cursors all_edges before after = do
    edges ← apply_after all_edges after
    apply_before edges before

  unfoldable pub end_cursors : List Node → Outcome E (Bytes × Bytes)
  end_cursors [] = ok ([], [])
  end_cursors (node ∷ rest) = do
    start_cursor ← pack_node node
    end_cursor ← pack_node (last_node node rest)
    ok (start_cursor, end_cursor)

  unfoldable pub page_info_from :
      List Node → List Node → Option (Outcome E ℤ) → Option ℤ → Option ℤ → Outcome E PageInfo
  page_info_from cursor_edges edges_paged count_f first last = do
    (start_cursor, end_cursor) ← end_cursors edges_paged
    total ← count_total count_f
    ok (record {
      total = total;
      size = length edges_paged;
      has_previous_page = longer_than cursor_edges last;
      has_next_page = longer_than cursor_edges first;
      start_cursor = start_cursor;
      end_cursor = end_cursor;
    })

  unfoldable pub page_from :
      List Node
      → Option (Outcome E ℤ)
      → Option Bytes
      → Option Bytes
      → Option ℤ
      → Option ℤ
      → Outcome E (List Node × PageInfo)
  page_from all_edges count_f before after first last = do
    cursor_edges ← apply_cursors all_edges before after
    edges_paged ← page_edges_from cursor_edges first last
    page_info ← page_info_from cursor_edges edges_paged count_f first last
    ok (edges_paged, page_info)

  -- `keysetPaginator.paginate` over its query function. `*last` panics where both are nil. The
  -- loop that swaps the results end for end is the reversal of the list.
  unfoldable pub keyset_results :
      (ℤ → Bool → Outcome E (List Node)) → Option ℤ → Option ℤ → Outcome E (List Node)
  keyset_results query_func (some first) last = query_func (to_int32 (pos 1 +ℤ first)) true
  keyset_results query_func none none = panics
  keyset_results query_func none (some last) = do
    results ← query_func (to_int32 (pos 1 +ℤ last)) false
    ok (reverse results)

  unfoldable pub paginate :
      (ℤ → Bool → Outcome E (List Node))
      → Option (Outcome E ℤ)
      → Option Bytes
      → Option Bytes
      → Option ℤ
      → Option ℤ
      → Outcome E (List Node × PageInfo)
  paginate query_func count_f before after first last = do
    results ← keyset_results query_func first last
    page_from results count_f before after first last
