-- ===== src/Cursor/Encoder.antt =====
-- publicapi/pagination.go, `cursorEncoder` and `cursorDecoder`. The encoder is its buffer; the
-- decoder is a function of the bytes that its reader has left, and gives back those after it.
pub mod Reading
use go_mutuals.Prelude.{
  ℕ, ◌^◌, Bool, [], ◌∷◌, ◌++◌, ltb, ◌==◌, if◌then◌else◌, ℤ, length, take, drop, Outcome, ok, err,
  panics, ◌>>=◌, none, some,
}
use go_mutuals.Cursor.Bytes.{Bytes, Error, eof, short_read, corrupt_base64}
use go_mutuals.Cursor.Base64
use go_mutuals.Cursor.Varint.{put_uvarint, read_uvarint, zigzag, unzigzag}
use go_mutuals.Cursor.Times.{Time, marshal, unmarshal}

unfoldable pub as_base64 : Bytes → Bytes
as_base64 buffer = Base64.encode buffer

-- `appendUInt64`, `appendInt64` and the others return the buffer after the call.
unfoldable pub append_uint64 : ℕ → Bytes → Bytes
append_uint64 i buffer = buffer ++ put_uvarint i

unfoldable pub append_int64 : ℤ → Bytes → Bytes
append_int64 i buffer = buffer ++ put_uvarint (zigzag i)

unfoldable pub append_bool : Bool → Bytes → Bytes
append_bool b buffer = append_uint64 (if b then 1 else 0) buffer

unfoldable pub append_time : Time → Bytes → Outcome Error Bytes
append_time t buffer = do
  time_bytes ← marshal t
  ok (append_uint64 (length time_bytes) buffer ++ time_bytes)

unfoldable pub append_string : Bytes → Bytes → Bytes
append_string str buffer =
    let prefixed = append_uint64 (length str) buffer in
    if length str == 0 then prefixed else prefixed ++ str

unfoldable pub append_dbid : Bytes → Bytes → Bytes
append_dbid dbid buffer = append_string dbid buffer

-- A float64 is its bit pattern.
unfoldable pub append_float64 : ℕ → Bytes → Bytes
append_float64 bits buffer = append_uint64 bits buffer

unfoldable pub set_reader : Bytes → Outcome Error Bytes
set_reader s = elim (Base64.decode s) [ none ↦ err corrupt_base64 | some decoded ↦ ok decoded ]

unfoldable pub read_uint64 : Bytes → Outcome Error (ℕ × Bytes)
read_uint64 s = read_uvarint s

unfoldable pub read_int64 : Bytes → Outcome Error (ℤ × Bytes)
read_int64 s = do (u, rest) ← read_uvarint s; ok (unzigzag u, rest)

unfoldable pub read_float64 : Bytes → Outcome Error (ℕ × Bytes)
read_float64 s = read_uint64 s

unfoldable pub read_bool : Bytes → Outcome Error (Bool × Bytes)
read_bool s = do (b, rest) ← read_uint64 s; ok (ltb 0 b, rest)

-- The most bytes that Go's `make` gives on a 64-bit machine; it panics above that.
abbrev pub max_alloc : ℕ
max_alloc = 2 ^ 48

-- `bytes.Reader.Read` into `n` bytes: at the end it is `io.EOF` even for none.
unfoldable pub read_into : ℕ → Bytes → Outcome Error (Bytes × Bytes)
read_into n [] = err eof
read_into n (b ∷ s) = ok (take n (b ∷ s), drop n (b ∷ s))

-- The part that `readTime` and `readString` share: make `n` bytes, read, and count what was read.
unfoldable pub read_exactly : ℕ → Bytes → Outcome Error (Bytes × Bytes)
read_exactly n s = if ltb max_alloc n then panics else do
  (found, rest) ← read_into n s
  if length found == n then ok (found, rest) else err (short_read n (length found))

unfoldable pub read_string : Bytes → Outcome Error (Bytes × Bytes)
read_string s = do (str_len, rest) ← read_uint64 s; read_exactly str_len rest

unfoldable pub read_dbid : Bytes → Outcome Error (Bytes × Bytes)
read_dbid s = read_string s

unfoldable pub read_time : Bytes → Outcome Error (Time × Bytes)
read_time s = do
  (time_len, rest) ← read_uint64 s
  (time_bytes, rest') ← read_exactly time_len rest
  t ← unmarshal time_bytes
  ok (t, rest')
