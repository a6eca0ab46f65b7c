-- ===== src/Paginators/Queries.antt =====
-- publicapi/pagination.go: a client's cursor strings reach the query as the values that were packed.
use go_mutuals.Prelude.{◌<◌, ◌^◌, ◌≡◌, ◌≢◌, Bool, some, [], ℤ, Outcome, ok, ◌>>=◌, >>=-eq-ok, subst}
use go_mutuals.Cursor.Bytes.{Bytes, Error}
use go_mutuals.Cursor.Times.{IsTime}
use go_mutuals.Cursor.Pack.{BaseCursor, pack, unpack}
use go_mutuals.Cursor.Pack.Values.{IsText, IsInt64}
use go_mutuals.Cursor.Kinds.{
  TimeIdCursor, new_time_id_cursor, BoolBoolIntIdCursor, new_bool_bool_int_id_cursor,
  BoolTimeIdCursor, new_bool_time_id_cursor, StringIdCursor, new_string_id_cursor, IntTimeIdCursor,
  new_int_time_id_cursor, BoolIdFloatIdCursor, new_bool_id_float_id_cursor,
}
use go_mutuals.Cursor.Kinds.RoundTrip.{
  time_id-unpack-pack, bool_bool_int_id-unpack-pack, bool_time_id-unpack-pack,
  string_id-unpack-pack, int_time_id-unpack-pack, bool_id_float_id-unpack-pack,
}
use go_mutuals.Paging.{to_int32}
use go_mutuals.Paginators.Bounds.{bounds}
use go_mutuals.Paginators.TimeId.{time_id_params}
use go_mutuals.Paginators.Compound.{
  shared_communities_params, bool_time_id_params, lexical_params, bool_id_float_id_params,
  int_time_id_params,
}

-- The string is what a fresh cursor packs `c` into.
abbrev pub Packs : {C : Type 0} → Outcome Error (BaseCursor C) → C → Bytes → Type 0
Packs new c s = (new >>= λ b. pack b c) ≡ ok s

-- A cursor is read back by every cursor made in the same way.
abbrev pub ReadsBack : {C : Type 0} → Outcome Error (BaseCursor C) → C → Type 0
ReadsBack {C} new c =
    (d : C) (b : BaseCursor C) (s : Bytes) → new ≡ ok b → pack b c ≡ ok s → unpack b d s ≡ ok c

bounds-packed :
    {C : Type 0} (new : Outcome Error (BaseCursor C)) (c c' d d' : C) (s s' : Bytes)
    → ReadsBack new c
    → ReadsBack new c'
    → Packs new c s
    → Packs new c' s'
    → bounds new d d' (some s) (some s') ≡ ok (c, c')
unfolding bounds
bounds-packed new c c' d d' s s' back back' p p' =
    let (b, made, packed) = >>=-eq-ok new _ p in
    let packed' : pack b c' ≡ ok s' = subst (λ m. (m >>= λ x. pack x c') ≡ ok s') made p' in
    rw (made, back d b s made packed, back' d' b s' made packed')

abbrev pub IsTimeIdCursor : TimeIdCursor → Type 0
IsTimeIdCursor c = IsTime c.time × IsText c.id × (c.id ≢ [])

time_id-ReadsBack : (c : TimeIdCursor) → IsTimeIdCursor c → ReadsBack new_time_id_cursor c
time_id-ReadsBack c v d b s = λ made packed. time_id-unpack-pack c d made v.0 v.1 v.2 packed

-- A query of the time-and-id paginators gets, for the cursor strings of two cursors whose times
-- are ones that `MarshalBinary` takes and whose ids are not empty, just the times and ids of the
-- two, whatever the defaults.
pub time_id_params-packed :
    (defaults : TimeIdCursor × TimeIdCursor) (c c' : TimeIdCursor) {s s' : Bytes} (limit : ℤ)
    (forward : Bool)
    → IsTimeIdCursor c
    → IsTimeIdCursor c'
    → Packs new_time_id_cursor c s
    → Packs new_time_id_cursor c' s'
    → time_id_params defaults (some s) (some s') limit forward
      ≡ ok (record {
        limit = limit;
        cursor_before_time = c.time;
        cursor_before_id = c.id;
        cursor_after_time = c'.time;
        cursor_after_id = c'.id;
        paging_forward = forward;
      })
unfolding time_id_params
time_id_params-packed defaults c c' limit forward v v' p p' = rw (
    bounds-packed new_time_id_cursor c c' _ _ _ _ (time_id-ReadsBack c v) (time_id-ReadsBack c' v')
      p p')

abbrev pub IsBoolBoolIntIdCursor : BoolBoolIntIdCursor → Type 0
IsBoolBoolIntIdCursor c = IsInt64 c.int × IsText c.id × (c.id ≢ [])

bool_bool_int_id-ReadsBack :
    (c : BoolBoolIntIdCursor) → IsBoolBoolIntIdCursor c → ReadsBack new_bool_bool_int_id_cursor c
bool_bool_int_id-ReadsBack c v d b s =
    λ made packed. bool_bool_int_id-unpack-pack c d made v.0 v.1 v.2 packed

-- A query of shared communities gets just the flags, counts and ids of the two packed cursors, if
-- their counts are of 64 bits and their ids are not empty.
pub shared_communities_params-packed :
    (c c' : BoolBoolIntIdCursor) {s s' : Bytes} (limit : ℤ) (forward : Bool)
    → IsBoolBoolIntIdCursor c
    → IsBoolBoolIntIdCursor c'
    → Packs new_bool_bool_int_id_cursor c s
    → Packs new_bool_bool_int_id_cursor c' s'
    → shared_communities_params (some s) (some s') limit forward
      ≡ ok (record {
        limit = limit;
        cursor_before_displayed_by_user_a = c.bool1;
        cursor_before_displayed_by_user_b = c.bool2;
        cursor_before_owned_count = c.int;
        cursor_before_community_id = c.id;
        cursor_after_displayed_by_user_a = c'.bool1;
        cursor_after_displayed_by_user_b = c'.bool2;
        cursor_after_owned_count = c'.int;
        cursor_after_community_id = c'.id;
        paging_forward = forward;
      })
unfolding shared_communities_params
shared_communities_params-packed c c' limit forward v v' p p' = rw (
    bounds-packed new_bool_bool_int_id_cursor c c' _ _ _ _ (bool_bool_int_id-ReadsBack c v)
      (bool_bool_int_id-ReadsBack c' v') p p')

abbrev pub IsBoolTimeIdCursor : BoolTimeIdCursor → Type 0
IsBoolTimeIdCursor c = IsTime c.time × IsText c.id × (c.id ≢ [])

bool_time_id-ReadsBack :
    (c : BoolTimeIdCursor) → IsBoolTimeIdCursor c → ReadsBack new_bool_time_id_cursor c
bool_time_id-ReadsBack c v d b s =
    λ made packed. bool_time_id-unpack-pack c d made v.0 v.1 v.2 packed

-- A query by flag, time and id gets just those of the two packed cursors, if their ids are not empty.
pub bool_time_id_params-packed :
    (c c' : BoolTimeIdCursor) {s s' : Bytes} (limit : ℤ) (forward : Bool)
    → IsBoolTimeIdCursor c
    → IsBoolTimeIdCursor c'
    → Packs new_bool_time_id_cursor c s
    → Packs new_bool_time_id_cursor c' s'
    → bool_time_id_params (some s) (some s') limit forward
      ≡ ok (record {
        limit = limit;
        cursor_before_bool = c.bool;
        cursor_before_time = c.time;
        cursor_before_id = c.id;
        cursor_after_bool = c'.bool;
        cursor_after_time = c'.time;
        cursor_after_id = c'.id;
        paging_forward = forward;
      })
unfolding bool_time_id_params
bool_time_id_params-packed c c' limit forward v v' p p' = rw (
    bounds-packed new_bool_time_id_cursor c c' _ _ _ _ (bool_time_id-ReadsBack c v)
      (bool_time_id-ReadsBack c' v') p p')

abbrev pub IsStringIdCursor : StringIdCursor → Type 0
IsStringIdCursor c = IsText c.str × IsText c.id × (c.id ≢ [])

string_id-ReadsBack : (c : StringIdCursor) → IsStringIdCursor c → ReadsBack new_string_id_cursor c
string_id-ReadsBack c v d b s = λ made packed. string_id-unpack-pack c d made v.0 v.1 v.2 packed

-- A query by key and id gets just those of the two packed cursors, if their ids are not empty.
pub lexical_params-packed :
    (c c' : StringIdCursor) {s s' : Bytes} (limit : ℤ) (forward : Bool)
    → IsStringIdCursor c
    → IsStringIdCursor c'
    → Packs new_string_id_cursor c s
    → Packs new_string_id_cursor c' s'
    → lexical_params (some s) (some s') limit forward
      ≡ ok (record {
        limit = limit;
        cursor_before_key = c.str;
        cursor_before_id = c.id;
        cursor_after_key = c'.str;
        cursor_after_id = c'.id;
        paging_forward = forward;
      })
unfolding lexical_params
lexical_params-packed c c' limit forward v v' p p' = rw (
    bounds-packed new_string_id_cursor c c' _ _ _ _ (string_id-ReadsBack c v)
      (string_id-ReadsBack c' v') p p')

abbrev pub IsBoolIdFloatIdCursor : BoolIdFloatIdCursor → Type 0
IsBoolIdFloatIdCursor c = IsText c.id1 × (c.float < 2 ^ 64) × IsText c.id2 × (c.id2 ≢ [])

bool_id_float_id-ReadsBack :
    (c : BoolIdFloatIdCursor) → IsBoolIdFloatIdCursor c → ReadsBack new_bool_id_float_id_cursor c
bool_id_float_id-ReadsBack c v d b s =
    λ made packed. bool_id_float_id-unpack-pack c d made v.0 v.1 v.2 v.3 packed

-- A query by flag, id, float and id gets just those of the two packed cursors, if their floats are
-- of 64 bits and their last ids are not empty.
pub bool_id_float_id_params-packed :
    (c c' : BoolIdFloatIdCursor) {s s' : Bytes} (limit : ℤ) (forward : Bool)
    → IsBoolIdFloatIdCursor c
    → IsBoolIdFloatIdCursor c'
    → Packs new_bool_id_float_id_cursor c s
    → Packs new_bool_id_float_id_cursor c' s'
    → bool_id_float_id_params (some s) (some s') limit forward
      ≡ ok (record {
        limit = limit;
        cursor_before_bool = c.bool;
        cursor_before_id1 = c.id1;
        cursor_before_float = c.float;
        cursor_before_id2 = c.id2;
        cursor_after_bool = c'.bool;
        cursor_after_id1 = c'.id1;
        cursor_after_float = c'.float;
        cursor_after_id2 = c'.id2;
        paging_forward = forward;
      })
unfolding bool_id_float_id_params
bool_id_float_id_params-packed c c' limit forward v v' p p' = rw (
    bounds-packed new_bool_id_float_id_cursor c c' _ _ _ _ (bool_id_float_id-ReadsBack c v)
      (bool_id_float_id-ReadsBack c' v') p p')

abbrev pub IsIntTimeIdCursor : IntTimeIdCursor → Type 0
IsIntTimeIdCursor c = IsInt64 c.int × IsTime c.time × IsText c.id × (c.id ≢ [])

int_time_id-ReadsBack :
    (c : IntTimeIdCursor) → IsIntTimeIdCursor c → ReadsBack new_int_time_id_cursor c
int_time_id-ReadsBack c v d b s =
    λ made packed. int_time_id-unpack-pack c d made v.0 v.1 v.2 v.3 packed

-- A query by number, time and id gets just those of the two packed cursors, if their ids are not empty;
-- the numbers are cut to 32 bits.
pub int_time_id_params-packed :
    (c c' : IntTimeIdCursor) {s s' : Bytes} (limit : ℤ) (forward : Bool)
    → IsIntTimeIdCursor c
    → IsIntTimeIdCursor c'
    → Packs new_int_time_id_cursor c s
    → Packs new_int_time_id_cursor c' s'
    → int_time_id_params (some s) (some s') limit forward
      ≡ ok (record {
        limit = limit;
        cursor_before_int = to_int32 c.int;
        cursor_before_time = c.time;
        cursor_before_id = c.id;
        cursor_after_int = to_int32 c'.int;
        cursor_after_time = c'.time;
        cursor_after_id = c'.id;
        paging_forward = forward;
      })
unfolding int_time_id_params
int_time_id_params-packed c c' limit forward v v' p p' = rw (
    bounds-packed new_int_time_id_cursor c c' _ _ _ _ (int_time_id-ReadsBack c v)
      (int_time_id-ReadsBack c' v') p p')
