-- ===== src/Tests/CursorTests.antt =====
-- Cursors packed and unpacked.
use go_mutuals.Prelude.{
  ◌-◌, ◌^◌, ◌≡◌, refl, some, [], ◌∷◌, ◌++◌, arith, pos, negsuc, Outcome, ok, err, panics,
}
use go_mutuals.Cursor.Bytes.{Bytes, Error, eof}
use go_mutuals.Cursor.Base64
use go_mutuals.Cursor.Varint.{put_uvarint, zigzag, put_loop}
use go_mutuals.Cursor.Times.{Time, IsTime, marshal, marshal_zone, words, be_bytes}
use go_mutuals.Cursor.Encoder.{as_base64, append_time, append_dbid, append_string, append_uint64}
use go_mutuals.Cursor.Pack.{
  Field, string_at, dbid_at, BaseCursor, init_cursor, unpack_vals, unpack_val, pack, pack_vals,
  pack_val, unpack,
}
use go_mutuals.Cursor.Pack.RoundTrip.{unpack-pack}
use go_mutuals.Cursor.Pack.Refusals.{unpack-pack_empty, unpack_panics}
use go_mutuals.Cursor.Kinds.Panics.{crafted_slice, unpack_position_panics}
use go_mutuals.Cursor.Kinds.{
  PositionCursor, position_ptrs, new_position_cursor, unpack_position, TimeIdCursor, time_id_ptrs,
  new_time_id_cursor, StringIdCursor, string_id_ptrs, new_string_id_cursor,
}
use go_mutuals.Cursor.Kinds.RoundTrip.{position_at, last_place, as_position, position-unpack-pack}

abbrev a_cursor : StringIdCursor
a_cursor = record { str = 107 ∷ []; id = 97 ∷ 98 ∷ [] }

-- The value of a call that succeeds.
abbrev value_of : {A : Type 0} → A → Outcome Error A → A
value_of default (ok a) = a
value_of default (err e) = default
value_of default panics = default

no_base : {C : Type 0} → BaseCursor C
no_base = record { pack_values = []; unpack_fs = [] }

string_id_base : BaseCursor StringIdCursor
unfolding new_string_id_cursor
string_id_base = value_of no_base new_string_id_cursor

string_id_base_made : new_string_id_cursor ≡ ok string_id_base
unfolding string_id_base new_string_id_cursor init_cursor unpack_vals unpack_val string_id_ptrs
string_id_base_made = refl

packed : pack string_id_base a_cursor ≡ ok (65 ∷ 87 ∷ 115 ∷ 67 ∷ 89 ∷ 87 ∷ 73 ∷ [])
unfolding string_id_base new_string_id_cursor init_cursor unpack_vals unpack_val string_id_ptrs pack
    pack_vals pack_val append_string append_dbid append_uint64 put_uvarint put_loop as_base64
    Base64.encode
packed = refl

string_id_base_init : init_cursor string_id_ptrs ≡ ok string_id_base
unfolding string_id_base new_string_id_cursor init_cursor unpack_vals unpack_val string_id_ptrs
string_id_base_init = refl

unpack-pack_example :
    unpack string_id_base (record a_cursor { str = [] }) (65 ∷ 87 ∷ 115 ∷ 67 ∷ 89 ∷ 87 ∷ 73 ∷ [])
    ≡ ok a_cursor
unfolding string_id_ptrs
unpack-pack_example =
    unpack-pack string_id_ptrs a_cursor (record a_cursor { str = [] }) (λ e. cc) (omega arith)
      (omega arith) string_id_base_init packed

abbrev no_id : StringIdCursor
no_id = record { str = 107 ∷ []; id = [] }

packed_no_id : pack string_id_base no_id ≡ ok (65 ∷ 87 ∷ 115 ∷ 65 ∷ [])
unfolding string_id_base new_string_id_cursor init_cursor unpack_vals unpack_val string_id_ptrs pack
    pack_vals pack_val append_string append_dbid append_uint64 put_uvarint put_loop as_base64
    Base64.encode
packed_no_id = refl

unpack-pack_empty_example : unpack string_id_base a_cursor (65 ∷ 87 ∷ 115 ∷ 65 ∷ []) ≡ err eof
unfolding string_id_ptrs
unpack-pack_empty_example =
    unpack-pack_empty string_id_ptrs no_id a_cursor (omega arith) refl string_id_base_init
      packed_no_id

abbrev str_field : Field StringIdCursor Bytes
str_field = record { get = λ c. c.str; set = λ v c. record c { str = v } }

abbrev id_field : Field StringIdCursor Bytes
id_field = record { get = λ c. c.id; set = λ v c. record c { id = v } }

unpack_panics_example :
    unpack string_id_base a_cursor (as_base64 (put_uvarint (2 ^ 63) ++ [])) ≡ panics
unfolding string_id_ptrs
unpack_panics_example =
    unpack_panics (string_at str_field) (dbid_at id_field ∷ []) a_cursor (2 ^ 63) [] tt
      string_id_base_init (omega arith) (omega arith) tt

abbrev a_time : Time
a_time = record { sec = 94_639_280_461; nsec = 1; zone = some (2 ^ 16 - 1); zone_sec = 0 }

a_time-IsTime : IsTime a_time
a_time-IsTime = record {
  sec_word = omega arith;
  nsec_word = omega arith;
  zone_word = λ z e. ground arith;
  zone_byte = omega arith;
}

abbrev timed : TimeIdCursor
timed = record { time = a_time; id = 97 ∷ [] }

time_id_base : BaseCursor TimeIdCursor
unfolding new_time_id_cursor
time_id_base = value_of no_base new_time_id_cursor

time_id_base_made : new_time_id_cursor ≡ ok time_id_base
unfolding time_id_base new_time_id_cursor init_cursor unpack_vals unpack_val time_id_ptrs
time_id_base_made = refl

timed_string : Bytes
unfolding pack
timed_string = value_of [] (pack time_id_base timed)

timed_packed : pack time_id_base timed ≡ ok timed_string
unfolding timed_string time_id_base new_time_id_cursor init_cursor unpack_vals unpack_val
    time_id_ptrs pack pack_vals pack_val append_time append_dbid append_string append_uint64 marshal
    marshal_zone words be_bytes
timed_packed = refl

abbrev somewhere : PositionCursor
somewhere = record {
  current_position = negsuc 4;
  ids = (97 ∷ []) ∷ [] ∷ (98 ∷ []) ∷ [];
  positions = [];
}

position_base : BaseCursor PositionCursor
unfolding new_position_cursor
position_base = value_of no_base new_position_cursor

position_base_made : new_position_cursor ≡ ok position_base
unfolding position_base new_position_cursor init_cursor unpack_vals unpack_val position_ptrs
position_base_made = refl

position_string : Bytes
unfolding pack
position_string = value_of [] (pack position_base somewhere)

position_packed : pack position_base somewhere ≡ ok position_string
unfolding position_string position_base new_position_cursor init_cursor unpack_vals unpack_val
    position_ptrs pack pack_vals pack_val
position_packed = refl

position-unpack-pack_example :
    (c' : PositionCursor) × (unpack_position position_base
        (record somewhere { ids = [] })
        position_string
      ≡ ok c')
    × (c'.current_position ≡ somewhere.current_position)
    × (c'.ids ≡ somewhere.ids)
    × ((id : Bytes) → position_at c'.positions id ≡ as_position (last_place id somewhere.ids))
unfolding zigzag
position-unpack-pack_example =
    position-unpack-pack somewhere (record somewhere { ids = [] }) position_base_made (omega arith)
      (omega arith) (omega arith) (omega arith) position_packed

unpack_position_panics_example :
    unpack_position position_base somewhere (as_base64 (crafted_slice (pos 0) 6 [])) ≡ panics
unfolding zigzag
unpack_position_panics_example =
    unpack_position_panics (pos 0) 6 [] (omega arith) (omega arith) tt position_base somewhere
      position_base_made
