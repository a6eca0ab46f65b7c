-- ===== src/Slices/Compact.antt =====
-- util/helpers.go: `Filter` and `Dedupe` in place, beside the same loops with a fresh slice.
use go_mutuals.Prelude.{
  ℕ, suc, ◌+◌, ◌≡◌, refl, sym, ap, ◌∙◌, Bool, true, false, some, List, [], ◌∷◌, ◌++◌, append_assoc,
  arith, length, length-append, drop, get_elem?, get_elem?-append_length, set_elem,
  set_elem-append_length, ok, Eq, Bool-cases, inl, inr, subst,
}
use go_mutuals.Slices.{
  keep, keep_in_place, dedupe_with_translate, dedupe_in_place, filter, filter_in_place,
}

module _ {A : Type 0} where
  -- Writing `x` to the front of a gap before it moves the gap on by one.
  record Shifted (gap : List A) (x : A) (rest : List A) : Type 0 where
    gap' : List A
    as_long : length gap' ≡ length gap
    written :
        (done : List A)
        → set_elem (done ++ (gap ++ x ∷ rest)) (length done) x ≡ (done ++ x ∷ []) ++ (gap' ++ rest)
    dropped : (n : ℕ) → drop (suc n) (gap ++ x ∷ rest) ≡ drop n (gap' ++ rest)

  shift : (gap : List A) (x : A) (rest : List A) → Shifted gap x rest
  shift [] x rest = record {
    gap' = [];
    as_long = refl;
    written = λ done. set_elem-append_length done x rest x ∙ sym (append_assoc done (x ∷ []) rest);
    dropped = λ n. refl;
  }
  shift (g ∷ gs) x rest = record {
    gap' = gs ++ x ∷ [];
    as_long = omega (arith, length-append gs (x ∷ []));
    written = λ done.
        set_elem-append_length done g (gs ++ x ∷ rest) x
        ∙ ap (λ l. done ++ x ∷ l) (sym (append_assoc gs (x ∷ []) rest))
        ∙ sym (append_assoc done (x ∷ []) ((gs ++ x ∷ []) ++ rest));
    dropped = λ n. ap (drop n) (sym (append_assoc gs (x ∷ []) rest));
  }

module _ {A S : Type 0} (test : S → A → Bool) (next : S → A → S) where
  pub keep_taken :
      (x : A) (xs : List A) (st : S)
      → test st x ≡ true
      → keep test next st (x ∷ xs) ≡ x ∷ keep test next (next st x) xs
  unfolding keep
  keep_taken x xs st h = rw (h, keep)

  pub keep_passed :
      (x : A) (xs : List A) (st : S)
      → test st x ≡ false
      → keep test next st (x ∷ xs) ≡ keep test next st xs
  unfolding keep
  keep_passed x xs st h = rw (h, keep)

module _ {E A S : Type 0} (test : S → A → Bool) (next : S → A → S) where
  keep_in_place-keep :
      (rest done gap : List A) (st : S) (i w n : ℕ) (arr : List A)
      → i ≡ length done + length gap
      → w ≡ length done
      → n ≡ w + length (keep test next st rest)
      → arr
        ≡ done ++ (keep test next st rest ++ drop (length (keep test next st rest)) (gap ++ rest))
      → keep_in_place {E = E} test next (length rest) i w st (done ++ (gap ++ rest)) ≡ ok (n, arr)
  unfolding keep_in_place keep
  keep_in_place-keep [] done gap st i w n arr ei ew en ea =
      let same : n ≡ w = omega (arith, en) in rw (same, ea)
  keep_in_place-keep (x ∷ rest) done gap st i w n arr ei ew en ea =
      let read : get_elem? (done ++ (gap ++ x ∷ rest)) i ≡ some x =
        subst (λ j. get_elem? (done ++ (gap ++ x ∷ rest)) j ≡ some x)
          (length-append done gap ∙ sym ei)
          (subst (λ l. get_elem? l (length (done ++ gap)) ≡ some x)
            (append_assoc done gap (x ∷ rest)) (get_elem?-append_length (done ++ gap) x rest)) in
      let moved = shift gap x rest in
      elim (Bool-cases (test st x)) [
        | inl kept ↦
            let en' : n ≡ w + suc (length (keep test next (next st x) rest)) =
              rw (keep_taken test next x rest st kept) at en in
            let ea' : arr
                ≡ done
                  ++ (x ∷ keep test next (next st x) rest
                      ++ drop (suc (length (keep test next (next st x) rest))) (gap ++ x ∷ rest)) =
              rw (keep_taken test next x rest st kept) at ea in
            let written : set_elem (done ++ (gap ++ x ∷ rest)) w x
                ≡ (done ++ x ∷ []) ++ (moved.gap' ++ rest) =
              subst
                (λ j.
                  set_elem (done ++ (gap ++ x ∷ rest)) j x
                  ≡ (done ++ x ∷ []) ++ (moved.gap' ++ rest))
                (sym ew) (moved.written done) in
            rw (read, keep_in_place, kept, written)
              (keep_in_place-keep rest (done ++ x ∷ []) moved.gap' (next st x) (i + 1) (w + 1) n arr
                (omega (arith, ei, moved.as_long, length-append done (x ∷ [])))
                (omega (arith, ew, length-append done (x ∷ []))) (omega (arith, en'))
                (ea'
                  ∙ ap (λ l. done ++ (x ∷ keep test next (next st x) rest ++ l)) (moved.dropped _)
                  ∙ sym (append_assoc done (x ∷ []) _)))
        | inr left ↦
            let en' : n ≡ w + length (keep test next st rest) =
              rw (keep_passed test next x rest st left) at en in
            let ea' : arr
                ≡ done
                  ++ (keep test next st rest
                      ++ drop (length (keep test next st rest)) (gap ++ x ∷ rest)) =
              rw (keep_passed test next x rest st left) at ea in
            let regroup : gap ++ x ∷ rest ≡ (gap ++ x ∷ []) ++ rest =
              sym (append_assoc gap (x ∷ []) rest) in
            rw (read, keep_in_place, left, regroup)
              (keep_in_place-keep rest done (gap ++ x ∷ []) st (i + 1) w n arr
                (omega (arith, ei, length-append gap (x ∷ []))) ew en' (rw regroup at ea'))
      ]

  -- The loop over a whole slice.
  keep_in_place_lem :
      (src : List A) (st : S)
      → let kept = keep test next st src in
        keep_in_place {E = E} test next (length src) 0 0 st src
        ≡ ok (length kept, kept ++ drop (length kept) src)
  keep_in_place_lem src st = keep_in_place-keep src [] [] st 0 0 _ _ refl refl (omega arith) refl

-- What the loops in place give, the first items of the array, is what they give into a fresh slice; the
-- rest of the array is as it was. So it is for `Filter`, `Dedupe` and `DedupeWithTranslate`, and the
-- array is never read or written out of range.
pub filter_in_place-filter :
    {E T V : Type 0} ⦃e : Eq V⦄ (f : T → Bool) (translate : T → V) (src : List T)
    → (filter_in_place {E = E} f src
        ≡ ok (length (filter f src), filter f src ++ drop (length (filter f src)) src))
      × (dedupe_in_place {E = E} translate src
          ≡ ok (
            length (dedupe_with_translate translate src),
            dedupe_with_translate translate src
                ++ drop (length (dedupe_with_translate translate src)) src,
          ))
unfolding filter_in_place filter dedupe_in_place dedupe_with_translate
filter_in_place-filter f translate src =
    (keep_in_place_lem _ _ src tt, keep_in_place_lem _ _ src (λ v. false))
