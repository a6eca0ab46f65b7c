-- ===== src/Cursor/Pack/Refusals.antt =====
-- publicapi/pagination.go: cursor strings that do not unpack. `bytes.Reader.Read` is at its end after
-- the last byte, also for a read of nothing; `make` panics on a length that it cannot give.
use go_mutuals.Prelude.{
  ℕ, ◌<◌, ◌^◌, ◌≡◌, sym, ap, ◌∙◌, subst, List, [], ◌∷◌, ◌++◌, append_assoc, length, length-append,
  arith, Outcome, ok, err, panics, >>=-eq-ok, All, All-append, lt→ltb,
}
use go_mutuals.Cursor.Bytes.{Bytes, Error, IsByte, eof}
use go_mutuals.Cursor.Varint.{put_uvarint, put_uvarint-IsByte, put_uvarint-pos}
use go_mutuals.Cursor.Encoder.{
  as_base64, max_alloc, read_string, read_dbid, read_time, read_exactly, read_into, append_dbid,
  append_string,
}
use go_mutuals.Cursor.Encoder.Reading.{
  write_string, read_uint64-put_uvarint, set_reader-as_base64, as_base64-ne-nil,
  append_string-write_string, write_string-pos, write_string-IsByte,
}
use go_mutuals.Cursor.Pack.{
  Field, Ptr, string_at, dbid_at, time_at, UnpackF, BaseCursor, pack_val, pack_vals, unpack_val,
  unpack_vals, unpack_to, run_unpack, init_cursor, pack, unpack,
}
use go_mutuals.Cursor.Pack.Values.{Readable-more}
use go_mutuals.Cursor.Pack.Writes.{Writes, pack_val-Writes, ok_injective}
use go_mutuals.Cursor.Pack.RoundTrip.{AllValues, init_cursor_lem, pack_lem, unpack_string}

-- The pointer is to a string or a DBID, which is empty.
abbrev pub IsEmptyText : {C : Type 0} → C → Ptr C → Type 0
IsEmptyText c (string_at f) = f.get c ≡ []
IsEmptyText c (dbid_at f) = f.get c ≡ []
IsEmptyText c p = ⊥

abbrev pub EndsEmpty : {C : Type 0} → C → List (Ptr C) → Type 0
EndsEmpty c [] = ⊥
EndsEmpty c (p ∷ []) = IsEmptyText c p
EndsEmpty c (p ∷ q ∷ ps) = EndsEmpty c (q ∷ ps)

read_string_empty : read_string (write_string []) ≡ err eof
unfolding read_string write_string read_exactly read_into
read_string_empty = rw (read_uint64-put_uvarint 0 [] (omega arith))

-- What is written, when the last value is empty, is read up to that value and no further.
pub record Eof {C : Type 0} (c : C) (ps : List (Ptr C)) (w : Bytes) : Type 0 where
  pub bytes : All IsByte w
  pub some_bytes : 0 < length w
  pub stops : (fs : List (UnpackF C)) (d : C) → unpack_vals ps ≡ ok fs → run_unpack fs d w ≡ err eof

Eof-last :
    {C : Type 0} (c : C) (p : Ptr C)
    → ((f : UnpackF C) (d : C) → unpack_val p ≡ ok f → f d (write_string []) ≡ err eof)
    → Eof c (p ∷ []) (write_string [])
unfolding unpack_vals run_unpack
Eof-last c p h = record {
  bytes = write_string-IsByte [] tt;
  some_bytes = write_string-pos [];
  stops = λ fs d u.
      let (f, u₁, u₂) = >>=-eq-ok (unpack_val p) _ u in
      subst (λ hs. run_unpack hs d (write_string []) ≡ err eof) (ok_injective u₂) (rw (h f d u₁));
}

Eof-cons :
    {C : Type 0} (c : C) (p : Ptr C) (ps : List (Ptr C)) (w₁ w₂ : Bytes)
    → Writes c p w₁
    → Eof c ps w₂
    → Eof c (p ∷ ps) (w₁ ++ w₂)
unfolding unpack_vals run_unpack
Eof-cons c p ps w₁ w₂ v₁ v₂ = record {
  bytes = All-append IsByte w₁ w₂ v₁.bytes v₂.bytes;
  some_bytes = omega (arith, length-append w₁ w₂, v₁.some_bytes);
  stops = λ fs d u.
      let (f, u₁, u₂) = >>=-eq-ok (unpack_val p) _ u in
      let (gs, u₃, u₄) = >>=-eq-ok (unpack_vals ps) _ u₂ in
      subst (λ hs. run_unpack hs d (w₁ ++ w₂) ≡ err eof) (ok_injective u₄)
        (rw (v₁.reads f d w₂ u₁ (Readable-more c p w₂ v₂.some_bytes)) (v₂.stops gs _ u₃));
}

pack_empty : (s buffer : Bytes) → s ≡ [] → append_string s buffer ≡ buffer ++ write_string []
pack_empty s buffer e = rw e (append_string-write_string [] buffer)

read_dbid_empty : read_dbid (write_string []) ≡ err eof
unfolding read_dbid
read_dbid_empty = read_string_empty

-- A read that fails makes the `unpackF` fail in the same way.
stops_eof :
    {C A : Type 0} (f : Field C A) (read : Bytes → Outcome Error (A × Bytes)) (g : UnpackF C)
    (d : C) (s : Bytes)
    → ◌≡◌ {A = Outcome Error (UnpackF C)} (ok (unpack_to f read)) (ok g)
    → read s ≡ err eof
    → g d s ≡ err eof
unfolding unpack_to
stops_eof f read g d s u e = subst (λ h. h d s ≡ err eof) (ok_injective u) (rw e)

stops_panics :
    {C A : Type 0} (f : Field C A) (read : Bytes → Outcome Error (A × Bytes)) (g : UnpackF C)
    (d : C) (s : Bytes)
    → ◌≡◌ {A = Outcome Error (UnpackF C)} (ok (unpack_to f read)) (ok g)
    → read s ≡ panics
    → g d s ≡ panics
unfolding unpack_to
stops_panics f read g d s u e = subst (λ h. h d s ≡ panics) (ok_injective u) (rw e)

pack_last-Eof :
    {C : Type 0} (c : C) (p : Ptr C) (buffer : Bytes) {buffer' : Bytes}
    → IsEmptyText c p
    → pack_vals c (p ∷ []) buffer ≡ ok buffer'
    → (w : Bytes) × (buffer' ≡ buffer ++ w) × Eof c (p ∷ []) w
unfolding pack_vals pack_val unpack_val append_dbid
pack_last-Eof c (string_at f) buffer h e = (
  write_string [],
  sym (ok_injective e) ∙ pack_empty (f.get c) buffer h,
  Eof-last c (string_at f) (λ g d u. stops_eof f read_string g d _ u read_string_empty),
)
pack_last-Eof c (dbid_at f) buffer h e = (
  write_string [],
  sym (ok_injective e) ∙ pack_empty (f.get c) buffer h,
  Eof-last c (dbid_at f) (λ g d u. stops_eof f read_dbid g d _ u read_dbid_empty),
)
pack_last-Eof c p buffer h e = elim h [ ]

pack_vals-Eof :
    {C : Type 0} (c : C) (ps : List (Ptr C)) (buffer : Bytes) {buffer' : Bytes}
    → AllValues c ps
    → EndsEmpty c ps
    → pack_vals c ps buffer ≡ ok buffer'
    → (w : Bytes) × (buffer' ≡ buffer ++ w) × Eof c ps w
unfolding pack_vals
pack_vals-Eof c [] buffer v last e = elim last [ ]
pack_vals-Eof c (p ∷ []) buffer v last e = pack_last-Eof c p buffer last e
pack_vals-Eof c (p ∷ q ∷ ps) buffer v last e =
    let (middle, e₁, e₂) = >>=-eq-ok (pack_val c p buffer) _ e in
    let (w₁, h₁, v₁) = pack_val-Writes c p buffer v.0 e₁ in
    let (w₂, h₂, v₂) = pack_vals-Eof c (q ∷ ps) middle v.1 last e₂ in
    (
      w₁ ++ w₂,
      h₂ ∙ ap (λ (x : Bytes). x ++ w₂) h₁ ∙ append_assoc buffer w₁ w₂,
      Eof-cons c p (q ∷ ps) w₁ w₂ v₁ v₂,
    )

-- A cursor whose last value is an empty string, and whose values fit their types, is packed into a
-- string that does not unpack: the read of no bytes at the end is `io.EOF`.
pub unpack-pack_empty :
    {C : Type 0} (ps : List (Ptr C)) (c d : C) {b : BaseCursor C} {s : Bytes}
    → AllValues c ps
    → EndsEmpty c ps
    → init_cursor ps ≡ ok b
    → pack b c ≡ ok s
    → unpack b d s ≡ err eof
unpack-pack_empty ps c d {b} {s} v last h e =
    let (stored, u) = init_cursor_lem ps h in
    let (buffer, packed, s_eq) = pack_lem b c e in
    let (w, w_eq, all) =
      pack_vals-Eof c ps [] v last (subst (λ qs. pack_vals c qs [] ≡ ok buffer) stored packed) in
    rw (s_eq, w_eq)
      (unpack_string b d (as_base64 w) w (as_base64-ne-nil w all.bytes all.some_bytes)
          (set_reader-as_base64 w all.bytes)
        ∙ all.stops b.unpack_fs d u)

-- The length in front of a string or a time is what `make` is asked for.
abbrev pub IsSized : {C : Type 0} → Ptr C → Type 0
IsSized (string_at f) = Unit
IsSized (dbid_at f) = Unit
IsSized (time_at f) = Unit
IsSized p = ⊥

module _ (n : ℕ) (rest : Bytes) (big : max_alloc < n) (word : n < 2 ^ 64) where
  read_exactly_big : read_exactly n rest ≡ panics
  unfolding read_exactly
  read_exactly_big = rw (lt→ltb max_alloc n big)

  read_string_big : read_string (put_uvarint n ++ rest) ≡ panics
  unfolding read_string
  read_string_big = rw (read_uint64-put_uvarint n rest word, read_exactly_big)

  read_time_big : read_time (put_uvarint n ++ rest) ≡ panics
  unfolding read_time
  read_time_big = rw (read_uint64-put_uvarint n rest word, read_exactly_big)

  read_dbid_big : read_dbid (put_uvarint n ++ rest) ≡ panics
  unfolding read_dbid
  read_dbid_big = read_string_big

  first_panics :
      {C : Type 0} (p : Ptr C) (g : UnpackF C) (d : C)
      → IsSized p
      → unpack_val p ≡ ok g
      → g d (put_uvarint n ++ rest) ≡ panics
  unfolding unpack_val
  first_panics (string_at f) g d h u = stops_panics f read_string g d _ u read_string_big
  first_panics (dbid_at f) g d h u = stops_panics f read_dbid g d _ u read_dbid_big
  first_panics (time_at f) g d h u = stops_panics f read_time g d _ u read_time_big
  first_panics p g d h u = elim h [ ]

  run_panics :
      {C : Type 0} (p : Ptr C) (ps : List (Ptr C)) (fs : List (UnpackF C)) (d : C)
      → IsSized p
      → unpack_vals (p ∷ ps) ≡ ok fs
      → run_unpack fs d (put_uvarint n ++ rest) ≡ panics
  unfolding unpack_vals run_unpack
  run_panics p ps fs d h u =
      let (f, u₁, u₂) = >>=-eq-ok (unpack_val p) _ u in
      let (gs, u₃, u₄) = >>=-eq-ok (unpack_vals ps) _ u₂ in
      subst (λ hs. run_unpack hs d (put_uvarint n ++ rest) ≡ panics) (ok_injective u₄)
        (rw (first_panics p f d h u₁))

-- A cursor string that begins with a length of 64 bits above what `make` gives makes `Unpack`
-- panic, whatever bytes follow, for every cursor whose first value is a string or a time.
pub unpack_panics :
    {C : Type 0} (p : Ptr C) (ps : List (Ptr C)) (d : C) {b : BaseCursor C} (n : ℕ) (rest : Bytes)
    → IsSized p
    → init_cursor (p ∷ ps) ≡ ok b
    → max_alloc < n
    → n < 2 ^ 64
    → All IsByte rest
    → unpack b d (as_base64 (put_uvarint n ++ rest)) ≡ panics
unpack_panics p ps d {b} n rest sized h big word bytes =
    let (_, u) = init_cursor_lem (p ∷ ps) h in
    let all = All-append IsByte (put_uvarint n) rest (put_uvarint-IsByte n) bytes in
    let some = length-append (put_uvarint n) rest in
    unpack_string b d _ (put_uvarint n ++ rest)
      (as_base64-ne-nil (put_uvarint n ++ rest) all (omega (arith, some, put_uvarint-pos n)))
      (set_reader-as_base64 (put_uvarint n ++ rest) all)
    ∙ run_panics n rest big word p ps b.unpack_fs d sized u
