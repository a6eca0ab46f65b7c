-- ===== src/Cursor/Kinds.antt =====
-- publicapi/pagination.go: the cursor structs, their constructors, and the functions that make a
-- cursor of a node. A `DBID` is its string. A float64 is its bit pattern.
pub mod RoundTrip
pub mod Panics
use go_mutuals.Prelude.{
  ℕ, suc, ◌+◌, ◌≡◌, Bool, true, false, Option, none, some, List, [], ◌∷◌, ℤ, pos, Outcome, ok, err,
  panics, ◌>>=◌, if◌then◌else◌,
}
use go_mutuals.Cursor.Bytes.{Bytes, Error}
use go_mutuals.Cursor.Times.{Time}
use go_mutuals.Cursor.Pack.{
  Field, Ptr, bool_at, string_at, dbid_at, int64_at, float64_at, time_at, dbids_at, BaseCursor,
  init_cursor, pack, unpack,
}

pub record TimeIdCursor : Type 0 where
  pub time : Time
  pub id : Bytes

unfoldable pub time_id_ptrs : List (Ptr TimeIdCursor)
time_id_ptrs =
    time_at (record { get = λ c. c.time; set = λ v c. record c { time = v } })
    ∷ dbid_at (record { get = λ c. c.id; set = λ v c. record c { id = v } })
    ∷ []

unfoldable pub new_time_id_cursor : Outcome Error (BaseCursor TimeIdCursor)
new_time_id_cursor = init_cursor time_id_ptrs

pub record BoolBoolIntIdCursor : Type 0 where
  pub bool1 : Bool
  pub bool2 : Bool
  pub int : ℤ
  pub id : Bytes

unfoldable pub bool_bool_int_id_ptrs : List (Ptr BoolBoolIntIdCursor)
bool_bool_int_id_ptrs =
    bool_at (record { get = λ c. c.bool1; set = λ v c. record c { bool1 = v } })
    ∷ bool_at (record { get = λ c. c.bool2; set = λ v c. record c { bool2 = v } })
    ∷ int64_at (record { get = λ c. c.int; set = λ v c. record c { int = v } })
    ∷ dbid_at (record { get = λ c. c.id; set = λ v c. record c { id = v } })
    ∷ []

unfoldable pub new_bool_bool_int_id_cursor : Outcome Error (BaseCursor BoolBoolIntIdCursor)
new_bool_bool_int_id_cursor = init_cursor bool_bool_int_id_ptrs

pub record BoolTimeIdCursor : Type 0 where
  pub bool : Bool
  pub time : Time
  pub id : Bytes

unfoldable pub bool_time_id_ptrs : List (Ptr BoolTimeIdCursor)
bool_time_id_ptrs =
    bool_at (record { get = λ c. c.bool; set = λ v c. record c { bool = v } })
    ∷ time_at (record { get = λ c. c.time; set = λ v c. record c { time = v } })
    ∷ dbid_at (record { get = λ c. c.id; set = λ v c. record c { id = v } })
    ∷ []

unfoldable pub new_bool_time_id_cursor : Outcome Error (BaseCursor BoolTimeIdCursor)
new_bool_time_id_cursor = init_cursor bool_time_id_ptrs

pub record StringIdCursor : Type 0 where
  pub str : Bytes
  pub id : Bytes

unfoldable pub string_id_ptrs : List (Ptr StringIdCursor)
string_id_ptrs =
    string_at (record { get = λ c. c.str; set = λ v c. record c { str = v } })
    ∷ dbid_at (record { get = λ c. c.id; set = λ v c. record c { id = v } })
    ∷ []

unfoldable pub new_string_id_cursor : Outcome Error (BaseCursor StringIdCursor)
new_string_id_cursor = init_cursor string_id_ptrs

pub record IntTimeIdCursor : Type 0 where
  pub int : ℤ
  pub time : Time
  pub id : Bytes

unfoldable pub int_time_id_ptrs : List (Ptr IntTimeIdCursor)
int_time_id_ptrs =
    int64_at (record { get = λ c. c.int; set = λ v c. record c { int = v } })
    ∷ time_at (record { get = λ c. c.time; set = λ v c. record c { time = v } })
    ∷ dbid_at (record { get = λ c. c.id; set = λ v c. record c { id = v } })
    ∷ []

unfoldable pub new_int_time_id_cursor : Outcome Error (BaseCursor IntTimeIdCursor)
new_int_time_id_cursor = init_cursor int_time_id_ptrs

pub record BoolIdFloatIdCursor : Type 0 where
  pub bool : Bool
  pub id1 : Bytes
  pub float : ℕ
  pub id2 : Bytes

unfoldable pub bool_id_float_id_ptrs : List (Ptr BoolIdFloatIdCursor)
bool_id_float_id_ptrs =
    bool_at (record { get = λ c. c.bool; set = λ v c. record c { bool = v } })
    ∷ dbid_at (record { get = λ c. c.id1; set = λ v c. record c { id1 = v } })
    ∷ float64_at (record { get = λ c. c.float; set = λ v c. record c { float = v } })
    ∷ dbid_at (record { get = λ c. c.id2; set = λ v c. record c { id2 = v } })
    ∷ []

unfoldable pub new_bool_id_float_id_cursor : Outcome Error (BaseCursor BoolIdFloatIdCursor)
new_bool_id_float_id_cursor = init_cursor bool_id_float_id_ptrs

-- A map from DBIDs to positions, the last entry made for a key in front.
pub record PositionCursor : Type 0 where
  pub current_position : ℤ
  pub ids : List Bytes
  pub positions : List (Bytes × ℤ)

unfoldable pub position_ptrs : List (Ptr PositionCursor)
position_ptrs =
    int64_at
      (record { get = λ c. c.current_position; set = λ v c. record c { current_position = v } })
    ∷ dbids_at (record { get = λ c. c.ids; set = λ v c. record c { ids = v } })
    ∷ []

unfoldable pub new_position_cursor : Outcome Error (BaseCursor PositionCursor)
new_position_cursor = init_cursor position_ptrs

-- The loop over the slice writes each index over an earlier one of the same key.
unfoldable pub index_from : ℕ → List Bytes → List (Bytes × ℤ) → List (Bytes × ℤ)
index_from i [] result = result
index_from i (v ∷ s) result = index_from (i + 1) s ((v, pos i) ∷ result)

unfoldable pub slice_to_map_index : List Bytes → List (Bytes × ℤ)
slice_to_map_index s = index_from 0 s []

-- `positionCursor` has an `Unpack` of its own, which fills the map as well.
unfoldable pub unpack_position :
    BaseCursor PositionCursor → PositionCursor → Bytes → Outcome Error PositionCursor
unpack_position b f s = do
  f' ← unpack b f s
  ok (record f' { positions = slice_to_map_index f'.ids })
