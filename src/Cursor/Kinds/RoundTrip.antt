-- ===== src/Cursor/Kinds/RoundTrip.antt =====
-- publicapi/pagination.go: each cursor struct read back from its string.
use go_mutuals.Prelude.{
  ℕ, ◌+◌, ◌<◌, ◌≤◌, ◌^◌, ◌*◌, ◌≡◌, ◌≢◌, refl, ap, ◌∙◌, Option, none, some, List, [], ◌∷◌, ◌++◌,
  length, arith, ok, All, ℤ, pos, if◌then◌else◌, Bool-cases, Option-cases, inl, inr,
}
use go_mutuals.Cursor.Bytes.{Bytes, eq_bytes}
use go_mutuals.Cursor.Times.{IsTime}
use go_mutuals.Cursor.Encoder.{max_alloc}
use go_mutuals.Cursor.Pack.{BaseCursor, pack, unpack}
use go_mutuals.Cursor.Pack.Values.{IsText, IsInt64, Follows}
use go_mutuals.Cursor.Pack.RoundTrip.{unpack-pack}
use go_mutuals.Cursor.Kinds.{
  TimeIdCursor, time_id_ptrs, new_time_id_cursor, BoolBoolIntIdCursor, bool_bool_int_id_ptrs,
  new_bool_bool_int_id_cursor, BoolTimeIdCursor, bool_time_id_ptrs, new_bool_time_id_cursor,
  StringIdCursor, string_id_ptrs, new_string_id_cursor, IntTimeIdCursor, int_time_id_ptrs,
  new_int_time_id_cursor, BoolIdFloatIdCursor, bool_id_float_id_ptrs, new_bool_id_float_id_cursor,
  PositionCursor, position_ptrs, new_position_cursor, index_from, slice_to_map_index,
  unpack_position,
}

closed : (s : Bytes) → s ≢ [] → 0 < length (s ++ [])
closed [] more = absurd (more refl)
closed (c ∷ s) more = omega arith

-- A time-and-id cursor, of a time that `MarshalBinary` takes and an id that is not empty, is read
-- back from its string into any cursor.
pub time_id-unpack-pack :
    (c d : TimeIdCursor) {b : BaseCursor TimeIdCursor} {s : Bytes}
    → new_time_id_cursor ≡ ok b
    → IsTime c.time
    → IsText c.id
    → c.id ≢ []
    → pack b c ≡ ok s
    → unpack b d s ≡ ok c
unfolding new_time_id_cursor time_id_ptrs
time_id-unpack-pack c d h v0 v1 more e =
    unpack-pack time_id_ptrs c d (λ e'. cc) (v0, (v1, tt)) (closed c.id more) h e

-- A cursor of two flags, a count and an id that is not empty is read back from its string.
pub bool_bool_int_id-unpack-pack :
    (c d : BoolBoolIntIdCursor) {b : BaseCursor BoolBoolIntIdCursor} {s : Bytes}
    → new_bool_bool_int_id_cursor ≡ ok b
    → IsInt64 c.int
    → IsText c.id
    → c.id ≢ []
    → pack b c ≡ ok s
    → unpack b d s ≡ ok c
unfolding new_bool_bool_int_id_cursor bool_bool_int_id_ptrs
bool_bool_int_id-unpack-pack c d h v0 v1 more e =
    unpack-pack bool_bool_int_id_ptrs c d (λ e'. cc) (tt, (tt, (v0, (v1, tt)))) (closed c.id more) h
      e

-- A cursor of a flag, a time and an id that is not empty is read back from its string.
pub bool_time_id-unpack-pack :
    (c d : BoolTimeIdCursor) {b : BaseCursor BoolTimeIdCursor} {s : Bytes}
    → new_bool_time_id_cursor ≡ ok b
    → IsTime c.time
    → IsText c.id
    → c.id ≢ []
    → pack b c ≡ ok s
    → unpack b d s ≡ ok c
unfolding new_bool_time_id_cursor bool_time_id_ptrs
bool_time_id-unpack-pack c d h v0 v1 more e =
    unpack-pack bool_time_id_ptrs c d (λ e'. cc) (tt, (v0, (v1, tt))) (closed c.id more) h e

-- A cursor of a key, which may be empty, and an id, which may not, is read back from its string
-- into any cursor.
pub string_id-unpack-pack :
    (c d : StringIdCursor) {b : BaseCursor StringIdCursor} {s : Bytes}
    → new_string_id_cursor ≡ ok b
    → IsText c.str
    → IsText c.id
    → c.id ≢ []
    → pack b c ≡ ok s
    → unpack b d s ≡ ok c
unfolding new_string_id_cursor string_id_ptrs
string_id-unpack-pack c d h v0 v1 more e =
    unpack-pack string_id_ptrs c d (λ e'. cc) (v0, (v1, tt)) (closed c.id more) h e

-- A cursor of a number, a time and an id that is not empty is read back from its string.
pub int_time_id-unpack-pack :
    (c d : IntTimeIdCursor) {b : BaseCursor IntTimeIdCursor} {s : Bytes}
    → new_int_time_id_cursor ≡ ok b
    → IsInt64 c.int
    → IsTime c.time
    → IsText c.id
    → c.id ≢ []
    → pack b c ≡ ok s
    → unpack b d s ≡ ok c
unfolding new_int_time_id_cursor int_time_id_ptrs
int_time_id-unpack-pack c d h v0 v1 v2 more e =
    unpack-pack int_time_id_ptrs c d (λ e'. cc) (v0, (v1, (v2, tt))) (closed c.id more) h e

-- A cursor of a flag, an id, a float and a last id that is not empty is read back from its string.
pub bool_id_float_id-unpack-pack :
    (c d : BoolIdFloatIdCursor) {b : BaseCursor BoolIdFloatIdCursor} {s : Bytes}
    → new_bool_id_float_id_cursor ≡ ok b
    → IsText c.id1
    → c.float < 2 ^ 64
    → IsText c.id2
    → c.id2 ≢ []
    → pack b c ≡ ok s
    → unpack b d s ≡ ok c
unfolding new_bool_id_float_id_cursor bool_id_float_id_ptrs
bool_id_float_id-unpack-pack c d h v0 v1 v2 more e =
    unpack-pack bool_id_float_id_ptrs c d (λ e'. cc) (tt, (v0, (v1, (v2, tt)))) (closed c.id2 more)
      h e

-- The map at a key, and the last place of an id in a list.
abbrev pub position_at : List (Bytes × ℤ) → Bytes → Option ℤ
position_at [] id = none
position_at ((k, p) ∷ positions) id =
    let rest = position_at positions id in if eq_bytes k id then some p else rest

abbrev pub last_place : Bytes → List Bytes → Option ℕ
last_place id [] = none
last_place id (v ∷ ids) = elim (last_place id ids) [
  | some i ↦ some (i + 1)
  | none ↦ if eq_bytes v id then some 0 else none
]

abbrev pub as_position : Option ℕ → Option ℤ
as_position none = none
as_position (some i) = some (pos i)

position_at-index_from :
    (id : Bytes) (i : ℕ) (ids : List Bytes) (result : List (Bytes × ℤ))
    → position_at (index_from i ids result) id
      ≡ (elim (last_place id ids) [ some k ↦ some (pos (i + k)) | none ↦ position_at result id ])
unfolding index_from
position_at-index_from id i [] result = refl
position_at-index_from id i (v ∷ ids) result =
    let rest = position_at-index_from id (i + 1) ids ((v, pos i) ∷ result) in
    elim (Option-cases (last_place id ids)) [
      | inr (k, found) ↦ rw found (rw found at rest ∙ ap (λ (n : ℕ). some (pos n)) (omega arith))
      | inl missing ↦ elim (Bool-cases (eq_bytes v id)) [
        | inl same ↦
            rw (missing, same)
              (rw (missing, same) at rest ∙ ap (λ (n : ℕ). some (pos n)) (omega arith))
        | inr other ↦ rw (missing, other) (rw (missing, other) at rest)
      ]
    ]

position_at-slice_to_map_index :
    (id : Bytes) (ids : List Bytes)
    → position_at (slice_to_map_index ids) id ≡ as_position (last_place id ids)
unfolding slice_to_map_index
position_at-slice_to_map_index id ids =
    let from_zero = position_at-index_from id 0 ids [] in
    elim (Option-cases (last_place id ids)) [
      | inr (k, found) ↦
          rw found (rw found at from_zero ∙ ap (λ (n : ℕ). some (pos n)) (omega arith))
      | inl missing ↦ rw missing (rw missing at from_zero)
    ]

-- A position cursor of DBIDs of which the last is not empty, if there is one, is read back from
-- its string into any cursor: with its position and its ids, and with a map that has every id at its last
-- place in the slice, counted from 0, and no other id. The position is of 64 bits and the slice is short
-- enough for `make`.
pub position-unpack-pack :
    (c d : PositionCursor) {b : BaseCursor PositionCursor} {s : Bytes}
    → new_position_cursor ≡ ok b
    → IsInt64 c.current_position
    → All IsText c.ids
    → 16 * length c.ids ≤ max_alloc
    → Follows c.ids []
    → pack b c ≡ ok s
    → (c' : PositionCursor) × (unpack_position b d s ≡ ok c')
      × (c'.current_position ≡ c.current_position)
      × (c'.ids ≡ c.ids)
      × ((id : Bytes) → position_at c'.positions id ≡ as_position (last_place id c.ids))
unfolding new_position_cursor position_ptrs unpack_position
position-unpack-pack c d h v0 v1 v2 last e = (
  record c { positions = slice_to_map_index c.ids },
  rw (unpack-pack position_ptrs c d (λ e'. cc) (v0, ((v1, v2), tt)) last h e) refl,
  refl,
  refl,
  λ id. position_at-slice_to_map_index id c.ids,
)
