-- ===== src/Cursor/Encoder/Reading.antt =====
-- What the encoder of publicapi/pagination.go appends for each type, and that the decoder reads it
-- back with the bytes that follow.
use mathlib.Core.List.{append-nil}
use go_mutuals.Prelude.{
  ℕ, ◌^◌, ◌≤◌, ◌<◌, ◌≡◌, ◌≢◌, refl, ap, Bool, true, false, [], ◌∷◌, ◌++◌, arith, append_assoc,
  if◌then◌else◌, ℤ, length, length-append, take-append_length, drop-append_length, All, All-append,
  ok, le→not_ltb,
}
use go_mutuals.Cursor.Bytes.{Bytes, IsByte}
use go_mutuals.Cursor.Varint.{
  put_uvarint, zigzag, read_uvarint-put_uvarint, unzigzag-zigzag, put_uvarint-IsByte,
  put_uvarint-pos,
}
use go_mutuals.Cursor.Times.{Time, IsTime, marshal, unmarshal-marshal, marshal_bytes}
use go_mutuals.Cursor.Base64
use go_mutuals.Cursor.Encoder.{
  append_string, append_uint64, read_uint64, read_int64, read_bool, read_string, as_base64,
  set_reader, read_time, read_exactly, read_into, max_alloc,
}

-- The bytes of a string with its length in front.
unfoldable pub write_string : Bytes → Bytes
write_string s = put_uvarint (length s) ++ s

pub append_string-write_string :
    (s buffer : Bytes) → append_string s buffer ≡ buffer ++ write_string s
unfolding append_string append_uint64 write_string
append_string-write_string [] buffer = rw append-nil
append_string-write_string (c ∷ s) buffer =
    ground (arith, append_assoc buffer (put_uvarint (length (c ∷ s))) (c ∷ s))

read_exactly-append :
    (s rest : Bytes)
    → length s ≤ max_alloc
    → 0 < length (s ++ rest)
    → read_exactly (length s) (s ++ rest) ≡ ok (s, rest)
unfolding read_exactly read_into
read_exactly-append [] [] fits more = absurd (omega arith)
read_exactly-append [] (b ∷ rest) fits more = refl
read_exactly-append (c ∷ s) rest fits more =
    rw
      (
        le→not_ltb max_alloc (length (c ∷ s)) fits,
        take-append_length s rest,
        drop-append_length s rest,
      )
      (ground arith)

pub read_uint64-put_uvarint :
    (x : ℕ) (rest : Bytes) → x < 2 ^ 64 → read_uint64 (put_uvarint x ++ rest) ≡ ok (x, rest)
unfolding read_uint64
read_uint64-put_uvarint x rest h = read_uvarint-put_uvarint x rest h

pub read_int64-zigzag :
    (z : ℤ) (rest : Bytes)
    → zigzag z < 2 ^ 64
    → read_int64 (put_uvarint (zigzag z) ++ rest) ≡ ok (z, rest)
unfolding read_int64
read_int64-zigzag z rest h = rw (read_uvarint-put_uvarint (zigzag z) rest h, unzigzag-zigzag z)

pub read_bool-put_uvarint :
    (b : Bool) (rest : Bytes) → read_bool (put_uvarint (if b then 1 else 0) ++ rest) ≡ ok (b, rest)
unfolding read_bool
read_bool-put_uvarint true rest = rw (read_uint64-put_uvarint 1 rest (omega arith))
read_bool-put_uvarint false rest = rw (read_uint64-put_uvarint 0 rest (omega arith))

pub read_string-write_string :
    (s rest : Bytes)
    → length s ≤ max_alloc
    → 0 < length (s ++ rest)
    → read_string (write_string s ++ rest) ≡ ok (s, rest)
unfolding read_string write_string
read_string-write_string s rest fits more =
    rw (append_assoc, read_uint64-put_uvarint (length s) (s ++ rest) (omega arith))
      (read_exactly-append s rest fits more)

pub read_time-append :
    (t : Time) {s : Bytes} (rest : Bytes)
    → IsTime t
    → marshal t ≡ ok s
    → read_time ((put_uvarint (length s) ++ s) ++ rest) ≡ ok (t, rest)
unfolding read_time
read_time-append t {s} rest v e =
    let sizes = marshal_bytes t v e in
    rw (append_assoc, read_uint64-put_uvarint (length s) (s ++ rest) (omega arith))
      (rw (read_exactly-append s rest (omega arith) (omega (arith, length-append s rest)))
        (rw (unmarshal-marshal t v e)))

pub write_string-IsByte : (s : Bytes) → All IsByte s → All IsByte (write_string s)
unfolding write_string
write_string-IsByte s h = All-append IsByte (put_uvarint (length s)) s (put_uvarint-IsByte _) h

pub write_string-pos : (s : Bytes) → 0 < length (write_string s)
unfolding write_string
write_string-pos s =
    omega (arith, length-append (put_uvarint (length s)) s, put_uvarint-pos (length s))

pub set_reader-as_base64 : (s : Bytes) → All IsByte s → set_reader (as_base64 s) ≡ ok s
unfolding set_reader as_base64
set_reader-as_base64 s h = rw (Base64.decode-encode s h, set_reader)

set_reader-nil : set_reader [] ≡ ok []
unfolding set_reader Base64.decode
set_reader-nil = refl

-- Only the empty buffer is written as the empty string.
pub as_base64-ne-nil : (s : Bytes) → All IsByte s → 0 < length s → as_base64 s ≢ []
as_base64-ne-nil [] h more = λ e. absurd (omega arith)
as_base64-ne-nil (b ∷ s) h more =
    λ e. cc (set_reader-as_base64 (b ∷ s) h, ap set_reader e, set_reader-nil)
