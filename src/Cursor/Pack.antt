-- ===== src/Cursor/Pack.antt =====
-- publicapi/pagination.go, `baseCursor`: packing the fields of a cursor into a string, and unpacking
-- them again. A cursor struct is a type `C`, and a pointer to a field of it is a way to read and a
-- way to write the field. After an error the source leaves the cursor partly written; every caller
-- drops it then.
pub mod Values
pub mod Writes
pub mod RoundTrip
pub mod Refusals
use go_mutuals.Prelude.{
  ℕ, zero, suc, ◌+◌, ◌*◌, ◌^◌, ◌≤◌, ◌<◌, ◌≡◌, refl, Bool, true, false, List, [], ◌∷◌, ◌++◌, arith,
  ltb, leb, ◌==◌, if◌then◌else◌, ℤ, pos, negsuc, length, Outcome, ok, err, panics, ◌>>=◌,
}
use go_mutuals.Cursor.Bytes.{Bytes, Error}
use go_mutuals.Cursor.Times.{Time}
use go_mutuals.Cursor.Encoder.{
  as_base64, append_bool, append_string, append_dbid, append_uint64, append_int64, append_float64,
  append_time, set_reader, read_bool, read_string, read_dbid, read_int64, read_float64, read_time,
  max_alloc,
}

pub record Field (C A : Type 0) : Type 0 where
  pub get : C → A
  pub set : A → C → C

-- The pointers that `packVal` and `unpackVal` tell apart.
pub data Ptr (C : Type 0) : Type 0 where
  bool_at : Field C Bool → Ptr C
  string_at : Field C Bytes → Ptr C
  dbid_at : Field C Bytes → Ptr C
  uint64_at : Field C ℕ → Ptr C
  int64_at : Field C ℤ → Ptr C
  float64_at : Field C ℕ → Ptr C
  int_at : Field C ℤ → Ptr C
  time_at : Field C Time → Ptr C
  dbids_at : Field C (List Bytes) → Ptr C

-- `packVals` over DBIDs, which are packed by value.
unfoldable pub pack_dbids : List Bytes → Bytes → Bytes
pack_dbids [] buffer = buffer
pack_dbids (id ∷ ids) buffer = pack_dbids ids (append_dbid id buffer)

unfoldable pub pack_slice : List Bytes → Bytes → Bytes
pack_slice ids buffer = pack_dbids ids (append_int64 (pos (length ids)) buffer)

-- `unpackSliceTo`: `make` panics at a negative length, and where the items, of sixteen bytes each,
-- are too many.
unfoldable pub read_items : ℕ → Bytes → Outcome Error (List Bytes × Bytes)
read_items zero s = ok ([], s)
read_items (suc n) s = do
  (id, rest) ← read_dbid s
  (ids, rest') ← read_items n rest
  ok (id ∷ ids, rest')

unfoldable pub make_items : ℤ → Bytes → Outcome Error (List Bytes × Bytes)
make_items (negsuc n) s = panics
make_items (pos n) s = if ltb max_alloc (16 * n) then panics else read_items n s

unfoldable pub unpack_slice : Bytes → Outcome Error (List Bytes × Bytes)
unpack_slice s = do (l, rest) ← read_int64 s; make_items l rest

-- An `unpackF` reads its value from the decoder's reader and stores it in the cursor.
abbrev pub UnpackF : Type 0 → Type 0
UnpackF C = C → Bytes → Outcome Error (C × Bytes)

module _ {C : Type 0} where
  unfoldable pub pack_val : C → Ptr C → Bytes → Outcome Error Bytes
  pack_val c (bool_at f) buffer = ok (append_bool (f.get c) buffer)
  pack_val c (string_at f) buffer = ok (append_string (f.get c) buffer)
  pack_val c (dbid_at f) buffer = ok (append_dbid (f.get c) buffer)
  pack_val c (uint64_at f) buffer = ok (append_uint64 (f.get c) buffer)
  pack_val c (int64_at f) buffer = ok (append_int64 (f.get c) buffer)
  pack_val c (float64_at f) buffer = ok (append_float64 (f.get c) buffer)
  pack_val c (int_at f) buffer = ok (append_int64 (f.get c) buffer)
  pack_val c (time_at f) buffer = append_time (f.get c) buffer
  pack_val c (dbids_at f) buffer = ok (pack_slice (f.get c) buffer)

  unfoldable pub pack_vals : C → List (Ptr C) → Bytes → Outcome Error Bytes
  pack_vals c [] buffer = ok buffer
  pack_vals c (p ∷ ps) buffer = do buffer' ← pack_val c p buffer; pack_vals c ps buffer'

  unfoldable pub unpack_to :
      {A : Type 0} → Field C A → (Bytes → Outcome Error (A × Bytes)) → UnpackF C
  unpack_to into f c s = do (a, rest) ← f s; ok (into.set a c, rest)

  -- The panic is "don't know how to unpack type".
  unfoldable pub unpack_val : Ptr C → Outcome Error (UnpackF C)
  unpack_val (string_at f) = ok (unpack_to f read_string)
  unpack_val (time_at f) = ok (unpack_to f read_time)
  unpack_val (dbid_at f) = ok (unpack_to f read_dbid)
  unpack_val (bool_at f) = ok (unpack_to f read_bool)
  unpack_val (int64_at f) = ok (unpack_to f read_int64)
  unpack_val (float64_at f) = ok (unpack_to f read_float64)
  unpack_val (dbids_at f) = ok (unpack_to f unpack_slice)
  unpack_val (uint64_at f) = panics
  unpack_val (int_at f) = panics

  unfoldable pub unpack_vals : List (Ptr C) → Outcome Error (List (UnpackF C))
  unpack_vals [] = ok []
  unpack_vals (p ∷ ps) = do f ← unpack_val p; fs ← unpack_vals ps; ok (f ∷ fs)

  unfoldable pub run_unpack : List (UnpackF C) → C → Bytes → Outcome Error C
  run_unpack [] c s = ok c
  run_unpack (f ∷ fs) c s = do (c', rest) ← f c s; run_unpack fs c' rest

pub record BaseCursor (C : Type 0) : Type 0 where
  pub pack_values : List (Ptr C)
  pub unpack_fs : List (UnpackF C)

module _ {C : Type 0} where
  unfoldable pub init_cursor : List (Ptr C) → Outcome Error (BaseCursor C)
  init_cursor vals = do
    unpack_fs ← unpack_vals vals
    ok (record { pack_values = vals; unpack_fs = unpack_fs })

  unfoldable pub pack : BaseCursor C → C → Outcome Error Bytes
  pack b c = do buffer ← pack_vals c b.pack_values []; ok (as_base64 buffer)

  -- Called on the cursor `c`, it gives the cursor as it is then. The empty string changes nothing.
  unfoldable pub unpack : BaseCursor C → C → Bytes → Outcome Error C
  unpack b c [] = ok c
  unpack b c (x ∷ s) = do decoded ← set_reader (x ∷ s); run_unpack b.unpack_fs c decoded
