-- ===== src/Paging/Window.antt =====
-- publicapi/pagination.go, `applyCursors`: the edges strictly between the two cursors.
use go_mutuals.Prelude.{
  ℕ, ◌+◌, ◌≡◌, ◌≢◌, refl, sym, ap, ◌∙◌, false, some, List, [], ◌∷◌, ◌++◌, append_assoc, append-nil,
  arith, length, length-append, take-append_length, All, Outcome, ok, Bool-cases, inl, inr,
}
use go_mutuals.Cursor.Bytes.{Bytes, eq_bytes, eq_bytes→eq, eq_bytes_self}
use go_mutuals.Paging.{pack_node, cut_after, cut_before, apply_after, apply_before, apply_cursors}

-- No edge has the cursor.
abbrev pub Lacks : {Node : Type 0} → (Node → Bytes) → Bytes → List Node → Type 0
Lacks name s = All (λ x. name x ≢ s)

eq_bytes_ne : (s t : Bytes) → s ≢ t → eq_bytes s t ≡ false
eq_bytes_ne s t h = elim (Bool-cases (eq_bytes s t)) [
  | inl e ↦ absurd (h (eq_bytes→eq s t e))
  | inr e ↦ e
]

module _ {E Node K : Type 0} (pack : K → Outcome E Bytes) (cursorable : Node → Outcome E K)
    (name : Node → Bytes) (packs : (x : Node) → pack_node pack cursorable x ≡ ok (name x)) where
  cut_after_found :
      (pre : List Node) (x : Node) (rest whole : List Node)
      → Lacks name (name x) pre
      → cut_after pack cursorable (name x) whole (pre ++ x ∷ rest) ≡ ok rest
  unfolding cut_after
  cut_after_found [] x rest whole h = rw (packs x, eq_bytes_self (name x))
  cut_after_found (y ∷ pre) x rest whole (h, hs) =
      rw (packs y, eq_bytes_ne (name y) (name x) h) (cut_after_found pre x rest whole hs)

  pub cut_after_missing :
      (s : Bytes) (edges whole : List Node)
      → Lacks name s edges
      → cut_after pack cursorable s whole edges ≡ ok whole
  unfolding cut_after
  cut_after_missing s [] whole h = refl
  cut_after_missing s (y ∷ edges) whole (h, hs) =
      rw (packs y, eq_bytes_ne (name y) s h) (cut_after_missing s edges whole hs)

  cut_before_found :
      (pre done : List Node) (x : Node) (rest whole : List Node) (i : ℕ)
      → whole ≡ done ++ (pre ++ x ∷ rest)
      → length done ≡ i
      → Lacks name (name x) pre
      → cut_before pack cursorable (name x) whole i (pre ++ x ∷ rest) ≡ ok (done ++ pre)
  unfolding cut_before
  cut_before_found [] done x rest whole i e n h =
      rw (packs x, eq_bytes_self (name x), e, ← n, append-nil)
        (ap ok (take-append_length done (x ∷ rest)))
  cut_before_found (y ∷ pre) done x rest whole i e n (h, hs) =
      rw (packs y, eq_bytes_ne (name y) (name x) h)
        (cut_before_found pre (done ++ y ∷ []) x rest whole (i + 1)
            (e ∙ sym (append_assoc done (y ∷ []) (pre ++ x ∷ rest)))
            (omega (arith, length-append done (y ∷ []))) hs
          ∙ ap ok (append_assoc done (y ∷ []) pre))

  pub cut_before_missing :
      (s : Bytes) (edges whole : List Node) (i : ℕ)
      → Lacks name s edges
      → cut_before pack cursorable s whole i edges ≡ ok whole
  unfolding cut_before
  cut_before_missing s [] whole i h = refl
  cut_before_missing s (y ∷ edges) whole i (h, hs) =
      rw (packs y, eq_bytes_ne (name y) s h) (cut_before_missing s edges whole (i + 1) hs)

  -- Between the edge of the cursor `after` and that of the cursor `before`, where each is the
  -- first with its cursor in what is searched and all cursors pack, `applyCursors` keeps just the
  -- edges in between.
  pub apply_cursors_between :
      (pre : List Node) (a : Node) (mid : List Node) (b : Node) (post : List Node)
      → Lacks name (name a) pre
      → Lacks name (name b) mid
      → apply_cursors pack cursorable (pre ++ a ∷ (mid ++ b ∷ post)) (some (name b)) (some (name a))
        ≡ ok mid
  unfolding apply_cursors apply_after apply_before
  apply_cursors_between pre a mid b post ha hb =
      rw (cut_after_found pre a (mid ++ b ∷ post) (pre ++ a ∷ (mid ++ b ∷ post)) ha)
        (cut_before_found mid [] b post _ 0 refl refl hb)
