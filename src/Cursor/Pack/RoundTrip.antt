-- ===== src/Cursor/Pack/RoundTrip.antt =====
-- publicapi/pagination.go: unpacking what `Pack` wrote.
use go_mutuals.Prelude.{
  ◌<◌, ◌≡◌, ◌≢◌, refl, sym, ap, ◌∙◌, List, [], ◌∷◌, ◌++◌, arith, append_assoc, append-nil, length,
  ok, All, All-append, >>=-eq-ok, length-append, subst,
}
use go_mutuals.Cursor.Bytes.{Bytes, IsByte}
use go_mutuals.Cursor.Encoder.{as_base64, set_reader}
use go_mutuals.Cursor.Encoder.Reading.{set_reader-as_base64, as_base64-ne-nil}
use go_mutuals.Cursor.Pack.{
  Ptr, pack_val, pack_vals, UnpackF, unpack_val, unpack_vals, run_unpack, BaseCursor, init_cursor,
  pack, unpack,
}
use go_mutuals.Cursor.Pack.Values.{IsValue, Readable, Readable-more, copy}
use go_mutuals.Cursor.Pack.Writes.{Writes, pack_val-Writes, ok_injective, stored}

abbrev pub AllValues : {C : Type 0} → C → List (Ptr C) → Type 0
AllValues c [] = Unit
AllValues c (p ∷ ps) = IsValue c p × AllValues c ps

-- The last value does not end in an empty string.
abbrev pub Ends : {C : Type 0} → C → List (Ptr C) → Type 0
Ends c [] = Unit
Ends c (p ∷ []) = Readable c p []
Ends c (p ∷ q ∷ ps) = Ends c (q ∷ ps)

abbrev pub copy_all : {C : Type 0} → List (Ptr C) → C → C → C
copy_all [] c d = d
copy_all (p ∷ ps) c d = copy_all ps c (copy p c d)

record WritesAll {C : Type 0} (c : C) (ps : List (Ptr C)) (w : Bytes) : Type 0 where
  bytes : All IsByte w
  no_bytes : ps ≡ [] → w ≡ []
  some_bytes : ps ≢ [] → 0 < length w
  reads :
      (fs : List (UnpackF C)) (d : C)
      → unpack_vals ps ≡ ok fs
      → Ends c ps
      → run_unpack fs d w ≡ ok (copy_all ps c d)

-- What follows the first value is enough for it to be read.
Readable-first :
    {C : Type 0} (c : C) (p : Ptr C) (ps : List (Ptr C)) (w : Bytes)
    → WritesAll c ps w
    → Ends c (p ∷ ps)
    → Readable c p w × Ends c ps
Readable-first c p [] w v h = (rw (v.no_bytes refl) h, tt)
Readable-first c p (q ∷ ps) w v h = (Readable-more c p w (v.some_bytes (λ e. cc)), h)

empty-WritesAll : {C : Type 0} (c : C) → WritesAll c [] []
unfolding unpack_vals run_unpack
empty-WritesAll c = record {
  bytes = tt;
  no_bytes = λ h. refl;
  some_bytes = λ h. absurd (h refl);
  reads = λ fs d u last. subst (λ gs. run_unpack gs d [] ≡ ok d) (ok_injective u) refl;
}

run_both :
    {C : Type 0} (c : C) (p : Ptr C) (ps : List (Ptr C)) (w₁ w₂ : Bytes)
    → Writes c p w₁
    → WritesAll c ps w₂
    → (fs : List (UnpackF C)) (d : C) → unpack_vals (p ∷ ps) ≡ ok fs
    → Ends c (p ∷ ps)
    → run_unpack fs d (w₁ ++ w₂) ≡ ok (copy_all (p ∷ ps) c d)
unfolding unpack_vals run_unpack
run_both c p ps w₁ w₂ v₁ v₂ fs d u last =
    let (f, u₁, u₂) = >>=-eq-ok (unpack_val p) _ u in
    let (gs, u₃, u₄) = >>=-eq-ok (unpack_vals ps) _ u₂ in
    let (here, there) = Readable-first c p ps w₂ v₂ last in
    subst (λ hs. run_unpack hs d (w₁ ++ w₂) ≡ ok (copy_all (p ∷ ps) c d)) (ok_injective u₄)
      (rw (v₁.reads f d w₂ u₁ here) (v₂.reads gs (copy p c d) u₃ there))

cons-WritesAll :
    {C : Type 0} (c : C) (p : Ptr C) (ps : List (Ptr C)) (w₁ w₂ : Bytes)
    → Writes c p w₁
    → WritesAll c ps w₂
    → WritesAll c (p ∷ ps) (w₁ ++ w₂)
cons-WritesAll c p ps w₁ w₂ v₁ v₂ = record {
  bytes = All-append IsByte w₁ w₂ v₁.bytes v₂.bytes;
  no_bytes = λ h. cc;
  some_bytes = λ h. omega (arith, length-append w₁ w₂, v₁.some_bytes);
  reads = run_both c p ps w₁ w₂ v₁ v₂;
}

pack_vals-WritesAll :
    {C : Type 0} (c : C) (ps : List (Ptr C)) (buffer : Bytes) {buffer' : Bytes}
    → AllValues c ps
    → pack_vals c ps buffer ≡ ok buffer'
    → (w : Bytes) × (buffer' ≡ buffer ++ w) × WritesAll c ps w
unfolding pack_vals
pack_vals-WritesAll c [] buffer v e =
    ([], sym (ok_injective e) ∙ sym (append-nil buffer), empty-WritesAll c)
pack_vals-WritesAll c (p ∷ ps) buffer v e =
    let (middle, e₁, e₂) = >>=-eq-ok (pack_val c p buffer) _ e in
    let (w₁, h₁, v₁) = pack_val-Writes c p buffer v.0 e₁ in
    let (w₂, h₂, v₂) = pack_vals-WritesAll c ps middle v.1 e₂ in
    (
      w₁ ++ w₂,
      h₂ ∙ ap (λ (x : Bytes). x ++ w₂) h₁ ∙ append_assoc buffer w₁ w₂,
      cons-WritesAll c p ps w₁ w₂ v₁ v₂,
    )

pub unpack_string :
    {C : Type 0} (b : BaseCursor C) (d : C) (s w : Bytes)
    → s ≢ []
    → set_reader s ≡ ok w
    → unpack b d s ≡ run_unpack b.unpack_fs d w
unfolding unpack
unpack_string b d [] w h e = absurd (h refl)
unpack_string b d (x ∷ s) w h e = rw e

pub init_cursor_lem :
    {C : Type 0} (ps : List (Ptr C)) {b : BaseCursor C}
    → init_cursor ps ≡ ok b
    → (b.pack_values ≡ ps) × (unpack_vals ps ≡ ok b.unpack_fs)
unfolding init_cursor
init_cursor_lem ps {b} h = ground arith

pub pack_lem :
    {C : Type 0} (b : BaseCursor C) (c : C) {s : Bytes}
    → pack b c ≡ ok s
    → (w : Bytes) × (pack_vals c b.pack_values [] ≡ ok w) × (s ≡ as_base64 w)
unfolding pack
pack_lem b c e =
    let (w, h, h') = >>=-eq-ok (pack_vals c b.pack_values []) _ e in (w, h, sym (ok_injective h'))

-- For any list of fields that is not empty, unpacking what `Pack` wrote into any cursor sets every
-- field to its value in the packed one, provided that the values fit their types and that the last
-- value does not end in an empty string.
pub unpack-pack :
    {C : Type 0} (ps : List (Ptr C)) (c d : C) {b : BaseCursor C} {s : Bytes}
    → ps ≢ []
    → AllValues c ps
    → Ends c ps
    → init_cursor ps ≡ ok b
    → pack b c ≡ ok s
    → unpack b d s ≡ ok (copy_all ps c d)
unpack-pack ps c d {b} {s} some v last h e =
    let (stored, u) = init_cursor_lem ps h in
    let (buffer, packed, s_eq) = pack_lem b c e in
    let (w, w_eq, all) =
      pack_vals-WritesAll c ps [] v (subst (λ qs. pack_vals c qs [] ≡ ok buffer) stored packed) in
    rw (s_eq, w_eq)
      (unpack_string b d (as_base64 w) w (as_base64-ne-nil w all.bytes (all.some_bytes some))
          (set_reader-as_base64 w all.bytes)
        ∙ all.reads b.unpack_fs d u last)
