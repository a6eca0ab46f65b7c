-- ===== src/Tests/PaginatorTests.antt =====
-- Cursor strings of the paginators, and the queries they ask for.
use go_mutuals.Prelude.{
  ◌-◌, ◌^◌, ◌≡◌, refl, true, false, some, [], ◌∷◌, arith, pos, negsuc, Outcome, ok, err, panics,
  ◌>>=◌,
}
use go_mutuals.Cursor.Bytes.{Bytes, Error}
use go_mutuals.Cursor.Times.{Time, IsTime, marshal, marshal_zone, words, be_bytes}
use go_mutuals.Cursor.Encoder.{append_time, append_dbid, append_string, append_uint64}
use go_mutuals.Cursor.Pack.{init_cursor, unpack_vals, unpack_val, pack, pack_vals, pack_val}
use go_mutuals.Cursor.Kinds.{
  TimeIdCursor, time_id_ptrs, new_time_id_cursor, StringIdCursor, new_string_id_cursor,
  BoolBoolIntIdCursor, new_bool_bool_int_id_cursor, BoolIdFloatIdCursor,
  new_bool_id_float_id_cursor,
}
use go_mutuals.Paginators.TimeId.{time_id_defaults, time_id_params}
use go_mutuals.Paginators.Queries.{Packs, time_id_params-packed}

-- The string of a cursor, or none.
abbrev string_of : Outcome Error Bytes → Bytes
string_of (ok s) = s
string_of (err e) = []
string_of panics = []

abbrev a_name : StringIdCursor
a_name = record { str = 107 ∷ []; id = 97 ∷ 98 ∷ [] }

name_string : Bytes
unfolding new_string_id_cursor
name_string = string_of (new_string_id_cursor >>= λ b. pack b a_name)

abbrev a_time : Time
a_time = record { sec = 94_639_280_461; nsec = 1; zone = some (2 ^ 16 - 1); zone_sec = 0 }

a_time-IsTime : IsTime a_time
a_time-IsTime = record {
  sec_word = omega arith;
  nsec_word = omega arith;
  zone_word = λ z e. ground arith;
  zone_byte = omega arith;
}

abbrev a_follow : TimeIdCursor
a_follow = record { time = a_time; id = 97 ∷ [] }

follow_string : Bytes
unfolding new_time_id_cursor
follow_string = string_of (new_time_id_cursor >>= λ b. pack b a_follow)

follow_Packs : Packs new_time_id_cursor a_follow follow_string
unfolding follow_string new_time_id_cursor init_cursor unpack_vals unpack_val time_id_ptrs pack
    pack_vals pack_val append_time append_dbid append_string append_uint64 marshal marshal_zone
    words be_bytes
follow_Packs = refl

time_id_params-packed_example :
    time_id_params time_id_defaults (some follow_string) (some follow_string) (pos 3) false
    ≡ ok (record {
      limit = pos 3;
      cursor_before_time = a_time;
      cursor_before_id = 97 ∷ [];
      cursor_after_time = a_time;
      cursor_after_id = 97 ∷ [];
      paging_forward = false;
    })
time_id_params-packed_example =
    time_id_params-packed time_id_defaults a_follow a_follow (pos 3) false
      (a_time-IsTime, omega arith, λ e. cc) (a_time-IsTime, omega arith, λ e. cc) follow_Packs
      follow_Packs

abbrev a_community : BoolBoolIntIdCursor
a_community = record { bool1 = true; bool2 = false; int = negsuc 4; id = 99 ∷ [] }

community_string : Bytes
unfolding new_bool_bool_int_id_cursor
community_string = string_of (new_bool_bool_int_id_cursor >>= λ b. pack b a_community)

abbrev a_score : BoolIdFloatIdCursor
a_score = record { bool = true; id1 = 97 ∷ []; float = 300; id2 = 98 ∷ [] }

score_string : Bytes
unfolding new_bool_id_float_id_cursor
score_string = string_of (new_bool_id_float_id_cursor >>= λ b. pack b a_score)
