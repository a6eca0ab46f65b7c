-- ===== src/Cursor/Kinds/Panics.antt =====
-- publicapi/pagination.go, `positionCursor`: a string whose slice has a length below 0.
use go_mutuals.Prelude.{
  ℕ, ◌<◌, ◌≡◌, ◌++◌, length, length-append, arith, ℤ, negsuc, ok, panics, All, All-append, subst,
}
use go_mutuals.Cursor.Bytes.{Bytes, IsByte}
use go_mutuals.Cursor.Varint.{put_uvarint, zigzag, put_uvarint-IsByte, put_uvarint-pos}
use go_mutuals.Cursor.Encoder.{as_base64}
use go_mutuals.Cursor.Encoder.Reading.{read_int64-zigzag, set_reader-as_base64, as_base64-ne-nil}
use go_mutuals.Cursor.Pack.{
  BaseCursor, unpack_slice, make_items, unpack_to, unpack_val, unpack_vals, run_unpack, init_cursor,
}
use go_mutuals.Cursor.Pack.Writes.{ok_injective}
use go_mutuals.Cursor.Pack.Values.{IsInt64}
use go_mutuals.Cursor.Pack.RoundTrip.{unpack_string}
use go_mutuals.Cursor.Kinds.{PositionCursor, position_ptrs, new_position_cursor, unpack_position}

-- The position, then the length -(n + 1) of the slice, then anything.
abbrev pub crafted_slice : ℤ → ℕ → Bytes → Bytes
crafted_slice current n rest =
    put_uvarint (zigzag current) ++ (put_uvarint (zigzag (negsuc n)) ++ rest)

module _ (current : ℤ) (n : ℕ) (rest : Bytes) (in_range : IsInt64 current)
    (word : IsInt64 (negsuc n)) (bytes : All IsByte rest) where
  unpack_slice_negative : unpack_slice (put_uvarint (zigzag (negsuc n)) ++ rest) ≡ panics
  unfolding unpack_slice make_items
  unpack_slice_negative = rw (read_int64-zigzag (negsuc n) rest word)

  run_negative :
      (b : BaseCursor PositionCursor) (d : PositionCursor)
      → new_position_cursor ≡ ok b
      → run_unpack b.unpack_fs d (crafted_slice current n rest) ≡ panics
  unfolding new_position_cursor position_ptrs init_cursor unpack_vals unpack_val unpack_to
      run_unpack
  run_negative b d h =
      subst
        (λ (m : BaseCursor PositionCursor).
          run_unpack m.unpack_fs d (crafted_slice current n rest) ≡ panics)
        (ok_injective h)
        (rw (
          read_int64-zigzag current (put_uvarint (zigzag (negsuc n)) ++ rest) in_range,
          unpack_slice_negative,
        ))

  crafted-IsByte : All IsByte (crafted_slice current n rest)
  crafted-IsByte =
      All-append IsByte (put_uvarint (zigzag current)) _ (put_uvarint-IsByte _)
        (All-append IsByte (put_uvarint (zigzag (negsuc n))) rest (put_uvarint-IsByte _) bytes)

  crafted-pos : 0 < length (crafted_slice current n rest)
  crafted-pos = omega (
    arith,
    length-append (put_uvarint (zigzag current)) (put_uvarint (zigzag (negsuc n)) ++ rest),
    put_uvarint-pos (zigzag current),
  )

  -- A position cursor string that holds a slice of a negative length of 64 bits makes `Unpack`
  -- panic, whatever bytes follow the length.
  pub unpack_position_panics :
      (b : BaseCursor PositionCursor) (d : PositionCursor)
      → new_position_cursor ≡ ok b
      → unpack_position b d (as_base64 (crafted_slice current n rest)) ≡ panics
  unfolding unpack_position
  unpack_position_panics b d h = rw (
    unpack_string b d (as_base64 (crafted_slice current n rest)) (crafted_slice current n rest)
        (as_base64-ne-nil (crafted_slice current n rest) crafted-IsByte crafted-pos)
        (set_reader-as_base64 (crafted_slice current n rest) crafted-IsByte),
    run_negative b d h,
  )
