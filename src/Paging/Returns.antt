-- ===== src/Paging/Returns.antt =====
-- publicapi/pagination.go: pages of valid limits do not panic.
use go_mutuals.Prelude.{
  ℕ, ◌+◌, ◌≡◌, ◌≢◌, ◌⊎◌, refl, Bool, true, false, Option, none, some, List, [], ◌∷◌, arith, ℤ, pos,
  negsuc, ◌+ℤ◌, Outcome, ok, err, panics, ◌>>=◌, Bool-cases, inl, inr,
}
use go_mutuals.Cursor.Bytes.{Bytes, eq_bytes}
use go_mutuals.Paging.{
  pack_node, cut_after, cut_before, apply_after, apply_before, apply_cursors, slice_to, slice_last,
  page_last, page_edges_from, last_node, end_cursors, count_total, page_info_from, page_from,
  keyset_results, paginate, to_int32,
}
use go_mutuals.Paging.Limits.{validate_pagination_params, validate_pagination_params-one}

module _ {E : Type 0} where
  >>=-returns :
      {A B : Type 0} (call : Outcome E A) (next : A → Outcome E B)
      → call ≢ panics
      → ((a : A) → next a ≢ panics)
      → (call >>= next) ≢ panics
  >>=-returns (ok a) next h k = k a
  >>=-returns (err e) next h k = λ e'. cc
  >>=-returns panics next h k = absurd (h refl)

  -- A limit that is not negative cuts within the slice.
  page_last-returns :
      {A : Type 0} (edges : List A) (n : ℕ) → page_last {E = E} edges (some (pos n)) ≢ panics
  unfolding page_last slice_last
  page_last-returns edges n = ground arith

  page_edges_from-first :
      {A : Type 0} (edges : List A) (n : ℕ)
      → page_edges_from {E = E} edges (some (pos n)) none ≢ panics
  unfolding page_edges_from page_last slice_to
  page_edges_from-first edges n = ground arith

  page_edges_from-last :
      {A : Type 0} (edges : List A) (n : ℕ)
      → page_edges_from {E = E} edges none (some (pos n)) ≢ panics
  unfolding page_edges_from
  page_edges_from-last edges n = page_last-returns edges n

  count_total-returns :
      (count_f : Option (Outcome E ℤ)) → count_f ≢ some panics → count_total count_f ≢ panics
  unfolding count_total
  count_total-returns none h = λ e. cc
  count_total-returns (some (ok n)) h = λ e. cc
  count_total-returns (some (err e)) h = λ e'. cc
  count_total-returns (some panics) h = absurd (h refl)

module _ {E Node K : Type 0} (pack : K → Outcome E Bytes) (cursorable : Node → Outcome E K)
    (packs : (node : Node) → pack_node pack cursorable node ≢ panics) where
  cut_after-returns :
      (after : Bytes) (edges rest : List Node) → cut_after pack cursorable after edges rest ≢ panics
  unfolding cut_after
  cut_after-returns after edges [] = λ e. cc
  cut_after-returns after edges (edge ∷ rest) =
      >>=-returns (pack_node pack cursorable edge) _ (packs edge) (λ cur.
        elim (Bool-cases (eq_bytes cur after)) [
          | inl same ↦ rw same (λ e. cc)
          | inr other ↦ rw other (cut_after-returns after edges rest)
        ])

  cut_before-returns :
      (before : Bytes) (edges : List Node) (i : ℕ) (rest : List Node)
      → cut_before pack cursorable before edges i rest ≢ panics
  unfolding cut_before
  cut_before-returns before edges i [] = λ e. cc
  cut_before-returns before edges i (edge ∷ rest) =
      >>=-returns (pack_node pack cursorable edge) _ (packs edge) (λ cur.
        elim (Bool-cases (eq_bytes cur before)) [
          | inl same ↦ rw same (λ e. cc)
          | inr other ↦ rw other (cut_before-returns before edges (i + 1) rest)
        ])

  apply_after-returns :
      (edges : List Node) (after : Option Bytes) → apply_after pack cursorable edges after ≢ panics
  unfolding apply_after
  apply_after-returns edges none = λ e. cc
  apply_after-returns edges (some after) = cut_after-returns after edges edges

  apply_before-returns :
      (edges : List Node) (before : Option Bytes)
      → apply_before pack cursorable edges before ≢ panics
  unfolding apply_before
  apply_before-returns edges none = λ e. cc
  apply_before-returns edges (some before) = cut_before-returns before edges 0 edges

  end_cursors-returns : (edges : List Node) → end_cursors pack cursorable edges ≢ panics
  unfolding end_cursors
  end_cursors-returns [] = λ e. cc
  end_cursors-returns (node ∷ rest) =
      >>=-returns (pack_node pack cursorable node) _ (packs node) (λ start.
        >>=-returns (pack_node pack cursorable (last_node node rest)) _
          (packs (last_node node rest)) (λ end e. cc))

  -- A page whose slices are within their bounds.
  page_from-returns :
      (edges : List Node) (count_f : Option (Outcome E ℤ)) (before after : Option Bytes)
      (first last : Option ℤ)
      → count_f ≢ some panics
      → ((cut : List Node) → page_edges_from {E = E} cut first last ≢ panics)
      → page_from pack cursorable edges count_f before after first last ≢ panics
  unfolding page_from apply_cursors page_info_from
  page_from-returns edges count_f before after first last counts cuts =
      >>=-returns (apply_cursors pack cursorable edges before after) _
        (>>=-returns (apply_after pack cursorable edges after) _ (apply_after-returns edges after)
          (λ cut. apply_before-returns cut before))
        (λ cut. >>=-returns (page_edges_from cut first last) _ (cuts cut) (λ paged.
          >>=-returns (page_info_from pack cursorable cut paged count_f first last) _
            (>>=-returns (end_cursors pack cursorable paged) _ (end_cursors-returns paged) (λ ends.
              >>=-returns (count_total count_f) _ (count_total-returns count_f counts)
                (λ total e. cc)))
            (λ info e. cc)))

  module _ (query_func : ℤ → Bool → Outcome E (List Node))
      (serves : (limit : ℤ) (forward : Bool) → query_func limit forward ≢ panics)
      (count_f : Option (Outcome E ℤ)) (counts : count_f ≢ some panics)
      (before after : Option Bytes) where
    paginate_first-returns :
        (n : ℕ)
        → paginate pack cursorable query_func count_f before after (some (pos n)) none ≢ panics
    unfolding paginate keyset_results
    paginate_first-returns n =
        >>=-returns (query_func (to_int32 (pos 1 +ℤ pos n)) true) _ (serves _ true) (λ rows.
          page_from-returns rows count_f before after (some (pos n)) none counts
            (λ cut. page_edges_from-first cut n))

    paginate_last-returns :
        (n : ℕ)
        → paginate pack cursorable query_func count_f before after none (some (pos n)) ≢ panics
    unfolding paginate keyset_results
    paginate_last-returns n =
        >>=-returns (keyset_results pack cursorable query_func none (some (pos n))) _
          (>>=-returns (query_func (to_int32 (pos 1 +ℤ pos n)) false) _ (serves _ false)
            (λ rows e. cc))
          (λ rows.
            page_from-returns rows count_f before after none (some (pos n)) counts
              (λ cut. page_edges_from-last cut n))

    -- Limits that are valid are one limit, forward or backward, that is not negative; and the keyset
    -- paginator does not panic on them, neither where it reads the pointer nor where it slices the edges,
    -- whatever its cursors. The validator must refuse negative numbers, and the calls that the paginator
    -- makes, the query, the count and the packing of a node, must not panic.
    pub validate_pagination_params-paginate :
        {R : Type 0} (check : Option ℤ → Option R)
        → ((n : ℕ) → check (some (negsuc n)) ≢ none)
        → (first last : Option ℤ) → validate_pagination_params check first last ≡ none
        → (((n : ℕ) × (first ≡ some (pos n)) × (last ≡ none))
            ⊎ ((n : ℕ) × (first ≡ none) × (last ≡ some (pos n))))
          × (paginate pack cursorable query_func count_f before after first last ≢ panics)
    validate_pagination_params-paginate check refuses first last valid =
        let one = validate_pagination_params-one check refuses first last valid in
        (
          one,
          elim one [
            | inl (n, f, l) ↦ rw (f, l) (paginate_first-returns n)
            | inr (n, f, l) ↦ rw (f, l) (paginate_last-returns n)
          ],
        )
