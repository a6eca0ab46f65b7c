-- ===== src/Cursor/Pack/Values.antt =====
-- publicapi/pagination.go: the values that a cursor holds, when a value is read back, and the bytes of
-- strings and slices.
use go_mutuals.Prelude.{
  ℕ, ◌*◌, ◌^◌, ◌≤◌, ◌<◌, ◌≡◌, refl, List, [], ◌∷◌, ◌++◌, arith, append_assoc, append-nil, ℤ, pos,
  length, ok, All, All-append, le→not_ltb, length-append,
}
use go_mutuals.Cursor.Bytes.{Bytes, IsByte}
use go_mutuals.Cursor.Varint.{put_uvarint, zigzag, put_uvarint-IsByte, put_uvarint-pos}
use go_mutuals.Cursor.Times.{IsTime}
use go_mutuals.Cursor.Encoder.{append_dbid, append_int64, read_dbid, read_float64, max_alloc}
use go_mutuals.Cursor.Encoder.Reading.{
  write_string, append_string-write_string, read_uint64-put_uvarint, read_int64-zigzag,
  read_string-write_string, write_string-IsByte, write_string-pos,
}
use go_mutuals.Cursor.Pack.{
  Ptr, bool_at, string_at, dbid_at, uint64_at, int64_at, float64_at, int_at, time_at, dbids_at,
  pack_dbids, pack_slice, read_items, make_items, unpack_slice,
}

-- A string that Go can hold, within what `make` gives.
abbrev pub IsText : Bytes → Type 0
IsText s = All IsByte s × (length s ≤ max_alloc)

abbrev pub IsInt64 : ℤ → Type 0
IsInt64 z = zigzag z < 2 ^ 64

-- The values of the Go types behind the pointers.
abbrev pub IsValue : {C : Type 0} → C → Ptr C → Type 0
IsValue c (bool_at f) = Unit
IsValue c (string_at f) = IsText (f.get c)
IsValue c (dbid_at f) = IsText (f.get c)
IsValue c (uint64_at f) = f.get c < 2 ^ 64
IsValue c (int64_at f) = IsInt64 (f.get c)
IsValue c (float64_at f) = f.get c < 2 ^ 64
IsValue c (int_at f) = IsInt64 (f.get c)
IsValue c (time_at f) = IsTime (f.get c)
IsValue c (dbids_at f) = All IsText (f.get c) × (16 * length (f.get c) ≤ max_alloc)

-- `bytes.Reader` is at its end after a last empty string, and then reads nothing but `io.EOF`: a
-- value is read back where something follows it or it does not end in an empty string.
abbrev pub Follows : List Bytes → Bytes → Type 0
Follows [] rest = Unit
Follows (id ∷ []) rest = 0 < length (id ++ rest)
Follows (id ∷ id' ∷ ids) rest = Follows (id' ∷ ids) rest

abbrev pub Readable : {C : Type 0} → C → Ptr C → Bytes → Type 0
Readable c (bool_at f) rest = Unit
Readable c (string_at f) rest = 0 < length (f.get c ++ rest)
Readable c (dbid_at f) rest = 0 < length (f.get c ++ rest)
Readable c (uint64_at f) rest = Unit
Readable c (int64_at f) rest = Unit
Readable c (float64_at f) rest = Unit
Readable c (int_at f) rest = Unit
Readable c (time_at f) rest = Unit
Readable c (dbids_at f) rest = Follows (f.get c) rest

Follows-more : (ids : List Bytes) (rest : Bytes) → 0 < length rest → Follows ids rest
Follows-more [] rest h = tt
Follows-more (id ∷ []) rest h = omega (arith, length-append id rest)
Follows-more (id ∷ id' ∷ ids) rest h = Follows-more (id' ∷ ids) rest h

pub Readable-more :
    {C : Type 0} (c : C) (p : Ptr C) (rest : Bytes) → 0 < length rest → Readable c p rest
Readable-more c (string_at f) rest h = omega (arith, length-append (f.get c) rest)
Readable-more c (dbid_at f) rest h = omega (arith, length-append (f.get c) rest)
Readable-more c (dbids_at f) rest h = Follows-more (f.get c) rest h
Readable-more c (bool_at f) rest h = tt
Readable-more c (uint64_at f) rest h = tt
Readable-more c (int64_at f) rest h = tt
Readable-more c (float64_at f) rest h = tt
Readable-more c (int_at f) rest h = tt
Readable-more c (time_at f) rest h = tt

-- The field is that of `c`, and the rest of the cursor that of `d`.
abbrev pub copy : {C : Type 0} → Ptr C → C → C → C
copy (bool_at f) c d = f.set (f.get c) d
copy (string_at f) c d = f.set (f.get c) d
copy (dbid_at f) c d = f.set (f.get c) d
copy (uint64_at f) c d = f.set (f.get c) d
copy (int64_at f) c d = f.set (f.get c) d
copy (float64_at f) c d = f.set (f.get c) d
copy (int_at f) c d = f.set (f.get c) d
copy (time_at f) c d = f.set (f.get c) d
copy (dbids_at f) c d = f.set (f.get c) d

pub write_dbids : List Bytes → Bytes
write_dbids [] = []
write_dbids (id ∷ ids) = write_string id ++ write_dbids ids

pack_dbids-write_dbids :
    (ids : List Bytes) (buffer : Bytes) → pack_dbids ids buffer ≡ buffer ++ write_dbids ids
unfolding pack_dbids append_dbid write_dbids
pack_dbids-write_dbids [] buffer = rw append-nil
pack_dbids-write_dbids (id ∷ ids) buffer =
    rw (append_string-write_string, pack_dbids-write_dbids ids, append_assoc)

read_items-write_dbids :
    (ids : List Bytes) (rest : Bytes)
    → All IsText ids
    → Follows ids rest
    → read_items (length ids) (write_dbids ids ++ rest) ≡ ok (ids, rest)
unfolding read_items write_dbids read_dbid
read_items-write_dbids [] rest h more = refl
read_items-write_dbids (id ∷ []) rest (h, hs) more =
    rw (append-nil, read_string-write_string id rest h.1 more)
read_items-write_dbids (id ∷ id' ∷ ids) rest (h, hs) more =
    rw
      (
        append_assoc,
        read_string-write_string id (write_dbids (id' ∷ ids) ++ rest) h.1 (
            omega (
              arith,
              length-append id (write_dbids (id' ∷ ids) ++ rest),
              length-append (write_string id') (write_dbids ids),
              length-append (write_string id' ++ write_dbids ids) rest,
              write_string-pos id',
            )),
      )
      (rw (read_items-write_dbids (id' ∷ ids) rest hs more))

make_items-write_dbids :
    (ids : List Bytes) (rest : Bytes)
    → All IsText ids × (16 * length ids ≤ max_alloc)
    → Follows ids rest
    → make_items (pos (length ids)) (write_dbids ids ++ rest) ≡ ok (ids, rest)
unfolding make_items
make_items-write_dbids ids rest v more =
    rw (le→not_ltb max_alloc (16 * length ids) v.1) (read_items-write_dbids ids rest v.0 more)

pub read_dbid-write_string :
    (s rest : Bytes)
    → length s ≤ max_alloc
    → 0 < length (s ++ rest)
    → read_dbid (write_string s ++ rest) ≡ ok (s, rest)
unfolding read_dbid
read_dbid-write_string s rest fits more = read_string-write_string s rest fits more

pub read_float64-put_uvarint :
    (x : ℕ) (rest : Bytes) → x < 2 ^ 64 → read_float64 (put_uvarint x ++ rest) ≡ ok (x, rest)
unfolding read_float64
read_float64-put_uvarint x rest h = read_uint64-put_uvarint x rest h

pub write_slice : List Bytes → Bytes
write_slice ids = put_uvarint (zigzag (pos (length ids))) ++ write_dbids ids

pub pack_slice-write_slice :
    (ids : List Bytes) (buffer : Bytes) → pack_slice ids buffer ≡ buffer ++ write_slice ids
unfolding pack_slice append_int64 write_slice
pack_slice-write_slice ids buffer = rw (pack_dbids-write_dbids, append_assoc)

pub write_slice-pos : (ids : List Bytes) → 0 < length (write_slice ids)
unfolding write_slice
write_slice-pos ids = omega (
  arith,
  length-append (put_uvarint (zigzag (pos (length ids)))) (write_dbids ids),
  put_uvarint-pos (zigzag (pos (length ids))),
)

write_dbids-IsByte : (ids : List Bytes) → All IsText ids → All IsByte (write_dbids ids)
unfolding write_dbids
write_dbids-IsByte [] h = tt
write_dbids-IsByte (id ∷ ids) (h, hs) =
    All-append IsByte (write_string id) _ (write_string-IsByte id h.0) (write_dbids-IsByte ids hs)

pub write_slice-IsByte : (ids : List Bytes) → All IsText ids → All IsByte (write_slice ids)
unfolding write_slice
write_slice-IsByte ids h =
    All-append IsByte (put_uvarint (zigzag (pos (length ids)))) _ (put_uvarint-IsByte _)
      (write_dbids-IsByte ids h)

zigzag_pos : (n : ℕ) → zigzag (pos n) ≡ 2 * n
unfolding zigzag
zigzag_pos n = refl

pub unpack_slice-write_slice :
    (ids : List Bytes) (rest : Bytes)
    → All IsText ids × (16 * length ids ≤ max_alloc)
    → Follows ids rest
    → unpack_slice (write_slice ids ++ rest) ≡ ok (ids, rest)
unfolding unpack_slice write_slice
unpack_slice-write_slice ids rest v more =
    rw
      (
        append_assoc,
        read_int64-zigzag (pos (length ids)) (write_dbids ids ++ rest)
            (omega (arith, zigzag_pos (length ids))),
      )
      (make_items-write_dbids ids rest v more)
