-- ===== src/Cursor/Pack/Writes.antt =====
-- publicapi/pagination.go: what `packVal` writes for one pointer, `unpackVal` reads back.
use go_mutuals.Prelude.{
  ◌<◌, ◌≡◌, refl, sym, ◌∙◌, ◌++◌, arith, append_assoc, if◌then◌else◌, length, Outcome, ok, All,
  All-append, >>=-eq-ok, length-append, subst,
}
use go_mutuals.Cursor.Bytes.{Bytes, IsByte, Error}
use go_mutuals.Cursor.Varint.{put_uvarint, zigzag, put_uvarint-IsByte, put_uvarint-pos}
use go_mutuals.Cursor.Times.{Time, IsTime, marshal, marshal_bytes}
use go_mutuals.Cursor.Encoder.{
  append_bool, append_dbid, append_uint64, append_int64, append_float64, append_time, read_bool,
  read_string, read_dbid, read_int64, read_float64, read_time,
}
use go_mutuals.Cursor.Encoder.Reading.{
  write_string, append_string-write_string, read_int64-zigzag, read_bool-put_uvarint,
  read_string-write_string, read_time-append, write_string-IsByte, write_string-pos,
}
use go_mutuals.Cursor.Pack.{
  Field, Ptr, bool_at, string_at, dbid_at, uint64_at, int64_at, float64_at, int_at, time_at,
  dbids_at, unpack_slice, pack_val, UnpackF, unpack_to, unpack_val,
}
use go_mutuals.Cursor.Pack.Values.{
  IsValue, Readable, copy, read_dbid-write_string, read_float64-put_uvarint, write_slice,
  pack_slice-write_slice, write_slice-pos, write_slice-IsByte, unpack_slice-write_slice,
}

-- What a value is written as, and that it is read back.
pub record Writes {C : Type 0} (c : C) (p : Ptr C) (w : Bytes) : Type 0 where
  pub some_bytes : 0 < length w
  pub bytes : All IsByte w
  pub reads :
      (f : UnpackF C) (d : C) (rest : Bytes)
      → unpack_val p ≡ ok f
      → Readable c p rest
      → f d (w ++ rest) ≡ ok (copy p c d, rest)

pub ok_injective : {A : Type 0} {a b : A} → ◌≡◌ {A = Outcome Error A} (ok a) (ok b) → a ≡ b
ok_injective e = cc

pub stored :
    {C A : Type 0} (f : Field C A) (read : Bytes → Outcome Error (A × Bytes)) (g : UnpackF C)
    (d : C) (s rest : Bytes) (a : A)
    → ◌≡◌ {A = Outcome Error (UnpackF C)} (ok (unpack_to f read)) (ok g)
    → read s ≡ ok (a, rest)
    → g d s ≡ ok (f.set a d, rest)
unfolding unpack_to
stored f read g d s rest a e r = subst (λ h. h d s ≡ ok (f.set a d, rest)) (ok_injective e) (rw r)

pub written :
    {C : Type 0} {c : C} {p : Ptr C} {x : Bytes} (buffer : Bytes) {buffer' : Bytes} (w : Bytes)
    → ◌≡◌ {A = Outcome Error Bytes} (ok x) (ok buffer')
    → x ≡ buffer ++ w
    → Writes c p w
    → (w : Bytes) × (buffer' ≡ buffer ++ w) × Writes c p w
written buffer w e h v = (w, sym (ok_injective e) ∙ h, v)

pack_time-Writes :
    {C : Type 0} (c : C) (f : Field C Time) (buffer : Bytes) {buffer' : Bytes}
    → IsTime (f.get c)
    → append_time (f.get c) buffer ≡ ok buffer'
    → (w : Bytes) × (buffer' ≡ buffer ++ w) × Writes c (time_at f) w
unfolding append_time unpack_val append_uint64
pack_time-Writes c f buffer v e =
    let (s, m, e') = >>=-eq-ok (marshal (f.get c)) _ e in
    let (bytes, some_bytes, short) = marshal_bytes (f.get c) v m in
    written buffer (put_uvarint (length s) ++ s) e' (append_assoc buffer (put_uvarint (length s)) s)
      (record {
        some_bytes = omega (arith, length-append (put_uvarint (length s)) s);
        bytes = All-append IsByte (put_uvarint (length s)) s (put_uvarint-IsByte _) bytes;
        reads = λ g d rest u more.
            stored f read_time g d _ rest (f.get c) u (read_time-append (f.get c) rest v m);
      })

pub pack_val-Writes :
    {C : Type 0} (c : C) (p : Ptr C) (buffer : Bytes) {buffer' : Bytes}
    → IsValue c p
    → pack_val c p buffer ≡ ok buffer'
    → (w : Bytes) × (buffer' ≡ buffer ++ w) × Writes c p w
unfolding pack_val unpack_val append_bool append_uint64 append_int64 append_float64 append_dbid
pack_val-Writes c (bool_at f) buffer v e =
    written buffer (put_uvarint (if f.get c then 1 else 0)) e refl (record {
      some_bytes = put_uvarint-pos _;
      bytes = put_uvarint-IsByte _;
      reads = λ g d rest u more.
          stored f read_bool g d _ rest (f.get c) u (read_bool-put_uvarint (f.get c) rest);
    })
pack_val-Writes c (string_at f) buffer v e =
    written buffer (write_string (f.get c)) e (append_string-write_string (f.get c) buffer)
      (record {
        some_bytes = write_string-pos (f.get c);
        bytes = write_string-IsByte (f.get c) v.0;
        reads = λ g d rest u more.
            stored f read_string g d _ rest (f.get c) u
              (read_string-write_string (f.get c) rest v.1 more);
      })
pack_val-Writes c (dbid_at f) buffer v e =
    written buffer (write_string (f.get c)) e (append_string-write_string (f.get c) buffer)
      (record {
        some_bytes = write_string-pos (f.get c);
        bytes = write_string-IsByte (f.get c) v.0;
        reads = λ g d rest u more.
            stored f read_dbid g d _ rest (f.get c) u
              (read_dbid-write_string (f.get c) rest v.1 more);
      })
pack_val-Writes c (uint64_at f) buffer v e = written buffer (put_uvarint (f.get c)) e refl (record {
  some_bytes = put_uvarint-pos _;
  bytes = put_uvarint-IsByte _;
  reads = λ g d rest u more. cc;
})
pack_val-Writes c (int64_at f) buffer v e =
    written buffer (put_uvarint (zigzag (f.get c))) e refl (record {
      some_bytes = put_uvarint-pos _;
      bytes = put_uvarint-IsByte _;
      reads = λ g d rest u more.
          stored f read_int64 g d _ rest (f.get c) u (read_int64-zigzag (f.get c) rest v);
    })
pack_val-Writes c (float64_at f) buffer v e =
    written buffer (put_uvarint (f.get c)) e refl (record {
      some_bytes = put_uvarint-pos _;
      bytes = put_uvarint-IsByte _;
      reads = λ g d rest u more.
          stored f read_float64 g d _ rest (f.get c) u (read_float64-put_uvarint (f.get c) rest v);
    })
pack_val-Writes c (int_at f) buffer v e =
    written buffer (put_uvarint (zigzag (f.get c))) e refl (record {
      some_bytes = put_uvarint-pos _;
      bytes = put_uvarint-IsByte _;
      reads = λ g d rest u more. cc;
    })
pack_val-Writes c (time_at f) buffer v e = pack_time-Writes c f buffer v e
pack_val-Writes c (dbids_at f) buffer v e =
    written buffer (write_slice (f.get c)) e (pack_slice-write_slice (f.get c) buffer) (record {
      some_bytes = write_slice-pos (f.get c);
      bytes = write_slice-IsByte (f.get c) v.0;
      reads = λ g d rest u more.
          stored f unpack_slice g d _ rest (f.get c) u
            (unpack_slice-write_slice (f.get c) rest v more);
    })
