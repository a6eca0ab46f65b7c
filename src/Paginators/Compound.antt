-- ===== src/Paginators/Compound.antt =====
-- publicapi/pagination.go: the paginators whose cursors have several parts, and the position
-- paginator.
use go_mutuals.Prelude.{
  ℕ, ◌-◌, ◌^◌, Bool, true, false, Option, none, some, List, [], ℤ, pos, negsuc, Outcome, ok, ◌>>=◌,
}
use go_mutuals.Cursor.Bytes.{Bytes, Error}
use go_mutuals.Cursor.Times.{Time}
use go_mutuals.Cursor.Pack.{BaseCursor}
use go_mutuals.Cursor.Kinds.{
  BoolBoolIntIdCursor, new_bool_bool_int_id_cursor, BoolTimeIdCursor, new_bool_time_id_cursor,
  StringIdCursor, new_string_id_cursor, IntTimeIdCursor, new_int_time_id_cursor,
  BoolIdFloatIdCursor, new_bool_id_float_id_cursor, PositionCursor, new_position_cursor,
  slice_to_map_index, unpack_position,
}
use go_mutuals.Paging.{PageInfo, to_int32, page_from, paginate}
use go_mutuals.Paginators.Bounds.{
  default_cursor_before_time, default_cursor_after_time, default_cursor_before_id,
  default_cursor_after_id, default_cursor_before_key, default_cursor_after_key, max_int32,
  default_cursor_before_float, default_cursor_after_float, lift, pack_cursor, bounds,
}

pub record SharedCommunitiesPagingParams : Type 0 where
  pub limit : ℤ
  pub cursor_before_displayed_by_user_a : Bool
  pub cursor_before_displayed_by_user_b : Bool
  pub cursor_before_owned_count : ℤ
  pub cursor_before_community_id : Bytes
  pub cursor_after_displayed_by_user_a : Bool
  pub cursor_after_displayed_by_user_b : Bool
  pub cursor_after_owned_count : ℤ
  pub cursor_after_community_id : Bytes
  pub paging_forward : Bool

abbrev pub shared_communities_defaults : BoolBoolIntIdCursor × BoolBoolIntIdCursor
shared_communities_defaults = (
  record { bool1 = false; bool2 = false; int = negsuc 0; id = default_cursor_before_id },
  record { bool1 = true; bool2 = true; int = max_int32; id = default_cursor_after_id },
)

unfoldable pub shared_communities_params :
    Option Bytes → Option Bytes → ℤ → Bool → Outcome Error SharedCommunitiesPagingParams
shared_communities_params before after limit paging_forward = do
  (before_cur, after_cur) ←
      bounds new_bool_bool_int_id_cursor shared_communities_defaults.0 shared_communities_defaults.1
        before after
  ok (record {
    limit = limit;
    cursor_before_displayed_by_user_a = before_cur.bool1;
    cursor_before_displayed_by_user_b = before_cur.bool2;
    cursor_before_owned_count = before_cur.int;
    cursor_before_community_id = before_cur.id;
    cursor_after_displayed_by_user_a = after_cur.bool1;
    cursor_after_displayed_by_user_b = after_cur.bool2;
    cursor_after_owned_count = after_cur.int;
    cursor_after_community_id = after_cur.id;
    paging_forward = paging_forward;
  })

pub record BoolTimeIdPagingParams : Type 0 where
  pub limit : ℤ
  pub cursor_before_bool : Bool
  pub cursor_before_time : Time
  pub cursor_before_id : Bytes
  pub cursor_after_bool : Bool
  pub cursor_after_time : Time
  pub cursor_after_id : Bytes
  pub paging_forward : Bool

abbrev pub bool_time_id_defaults : BoolTimeIdCursor × BoolTimeIdCursor
bool_time_id_defaults = (
  record { bool = true; time = default_cursor_before_time; id = default_cursor_before_id },
  record { bool = false; time = default_cursor_after_time; id = default_cursor_after_id },
)

unfoldable pub bool_time_id_params :
    Option Bytes → Option Bytes → ℤ → Bool → Outcome Error BoolTimeIdPagingParams
bool_time_id_params before after limit paging_forward = do
  (before_cur, after_cur) ←
      bounds new_bool_time_id_cursor bool_time_id_defaults.0 bool_time_id_defaults.1 before after
  ok (record {
    limit = limit;
    cursor_before_bool = before_cur.bool;
    cursor_before_time = before_cur.time;
    cursor_before_id = before_cur.id;
    cursor_after_bool = after_cur.bool;
    cursor_after_time = after_cur.time;
    cursor_after_id = after_cur.id;
    paging_forward = paging_forward;
  })

pub record LexicalPagingParams : Type 0 where
  pub limit : ℤ
  pub cursor_before_key : Bytes
  pub cursor_before_id : Bytes
  pub cursor_after_key : Bytes
  pub cursor_after_id : Bytes
  pub paging_forward : Bool

abbrev pub lexical_defaults : StringIdCursor × StringIdCursor
lexical_defaults = (
  record { str = default_cursor_before_key; id = default_cursor_before_id },
  record { str = default_cursor_after_key; id = default_cursor_after_id },
)

unfoldable pub lexical_params :
    Option Bytes → Option Bytes → ℤ → Bool → Outcome Error LexicalPagingParams
lexical_params before after limit paging_forward = do
  (before_cur, after_cur) ←
      bounds new_string_id_cursor lexical_defaults.0 lexical_defaults.1 before after
  ok (record {
    limit = limit;
    cursor_before_key = before_cur.str;
    cursor_before_id = before_cur.id;
    cursor_after_key = after_cur.str;
    cursor_after_id = after_cur.id;
    paging_forward = paging_forward;
  })

pub record BoolIdFloatIdPagingParams : Type 0 where
  pub limit : ℤ
  pub cursor_before_bool : Bool
  pub cursor_before_id1 : Bytes
  pub cursor_before_float : ℕ
  pub cursor_before_id2 : Bytes
  pub cursor_after_bool : Bool
  pub cursor_after_id1 : Bytes
  pub cursor_after_float : ℕ
  pub cursor_after_id2 : Bytes
  pub paging_forward : Bool

abbrev pub bool_id_float_id_defaults : BoolIdFloatIdCursor × BoolIdFloatIdCursor
bool_id_float_id_defaults = (
  record {
    bool = true;
    id1 = default_cursor_before_id;
    float = default_cursor_before_float;
    id2 = [];
  },
  record {
    bool = false;
    id1 = default_cursor_after_id;
    float = default_cursor_after_float;
    id2 = default_cursor_after_id;
  },
)

unfoldable pub bool_id_float_id_params :
    Option Bytes → Option Bytes → ℤ → Bool → Outcome Error BoolIdFloatIdPagingParams
bool_id_float_id_params before after limit paging_forward = do
  (before_cur, after_cur) ←
      bounds new_bool_id_float_id_cursor bool_id_float_id_defaults.0 bool_id_float_id_defaults.1
        before after
  ok (record {
    limit = limit;
    cursor_before_bool = before_cur.bool;
    cursor_before_id1 = before_cur.id1;
    cursor_before_float = before_cur.float;
    cursor_before_id2 = before_cur.id2;
    cursor_after_bool = after_cur.bool;
    cursor_after_id1 = after_cur.id1;
    cursor_after_float = after_cur.float;
    cursor_after_id2 = after_cur.id2;
    paging_forward = paging_forward;
  })

pub record IntTimeIdPagingParams : Type 0 where
  pub limit : ℤ
  pub cursor_before_int : ℤ
  pub cursor_before_time : Time
  pub cursor_before_id : Bytes
  pub cursor_after_int : ℤ
  pub cursor_after_time : Time
  pub cursor_after_id : Bytes
  pub paging_forward : Bool

abbrev pub int_time_id_defaults : IntTimeIdCursor × IntTimeIdCursor
int_time_id_defaults = (
  record { int = max_int32; time = default_cursor_before_time; id = default_cursor_before_id },
  record { int = pos 0; time = default_cursor_after_time; id = default_cursor_after_id },
)

unfoldable pub int_time_id_params :
    Option Bytes → Option Bytes → ℤ → Bool → Outcome Error IntTimeIdPagingParams
int_time_id_params before after limit paging_forward = do
  (before_cur, after_cur) ←
      bounds new_int_time_id_cursor int_time_id_defaults.0 int_time_id_defaults.1 before after
  ok (record {
    limit = limit;
    cursor_before_int = to_int32 before_cur.int;
    cursor_before_time = before_cur.time;
    cursor_before_id = before_cur.id;
    cursor_after_int = to_int32 after_cur.int;
    cursor_after_time = after_cur.time;
    cursor_after_id = after_cur.id;
    paging_forward = paging_forward;
  })

pub record PositionPagingParams : Type 0 where
  pub cursor_before_pos : ℤ
  pub cursor_after_pos : ℤ

-- `args.CursorBeforePos` and `args.CursorAfterPos`, of the default or of the cursor.
unfoldable pub position_or : ℤ → BaseCursor PositionCursor → Option Bytes → Outcome Error ℤ
position_or default b none = ok default
position_or default b (some s) = do
  c ← unpack_position b (record { current_position = pos 0; ids = []; positions = [] }) s
  ok (to_int32 c.current_position)

unfoldable pub position_params : Option Bytes → Option Bytes → Outcome Error PositionPagingParams
position_params before after = do
  b ← new_position_cursor
  before_pos ← position_or (pos (2 ^ 31 - 2)) b before
  after_pos ← position_or (negsuc 0) b after
  ok (record { cursor_before_pos = before_pos; cursor_after_pos = after_pos })

module _ {E Node : Type 0} (cursor_error : Error → E) where
  -- `sharedCommunitiesPaginator`: communities by who displays them and how many tokens are owned.
  unfoldable pub paginate_shared_communities :
      (SharedCommunitiesPagingParams → Outcome E (List Node))
      → (Node → Outcome E BoolBoolIntIdCursor)
      → Option (Outcome E ℤ)
      → Option Bytes
      → Option Bytes
      → Option ℤ
      → Option ℤ
      → Outcome E (List Node × PageInfo)
  paginate_shared_communities query_func cursor_func count_func before after first last =
      paginate (pack_cursor cursor_error new_bool_bool_int_id_cursor) cursor_func
        (λ limit forward.
          lift cursor_error (shared_communities_params before after limit forward) >>= query_func)
        count_func before after first last

  -- `boolTimeIDPaginator`
  unfoldable pub paginate_bool_time_id :
      (BoolTimeIdPagingParams → Outcome E (List Node))
      → (Node → Outcome E BoolTimeIdCursor)
      → Option (Outcome E ℤ)
      → Option Bytes
      → Option Bytes
      → Option ℤ
      → Option ℤ
      → Outcome E (List Node × PageInfo)
  paginate_bool_time_id query_func cursor_func count_func before after first last =
      paginate (pack_cursor cursor_error new_bool_time_id_cursor) cursor_func
        (λ limit forward.
          lift cursor_error (bool_time_id_params before after limit forward) >>= query_func)
        count_func before after first last

  -- `lexicalPaginator`
  unfoldable pub paginate_lexical :
      (LexicalPagingParams → Outcome E (List Node))
      → (Node → Outcome E StringIdCursor)
      → Option (Outcome E ℤ)
      → Option Bytes
      → Option Bytes
      → Option ℤ
      → Option ℤ
      → Outcome E (List Node × PageInfo)
  paginate_lexical query_func cursor_func count_func before after first last =
      paginate (pack_cursor cursor_error new_string_id_cursor) cursor_func
        (λ limit forward.
          lift cursor_error (lexical_params before after limit forward) >>= query_func)
        count_func before after first last

  -- `boolIDFloatIDPaginator`. The code sets `ID1` of the before-cursor twice and leaves `ID2` as it is
  -- made, empty.
  unfoldable pub paginate_bool_id_float_id :
      (BoolIdFloatIdPagingParams → Outcome E (List Node))
      → (Node → Outcome E BoolIdFloatIdCursor)
      → Option (Outcome E ℤ)
      → Option Bytes
      → Option Bytes
      → Option ℤ
      → Option ℤ
      → Outcome E (List Node × PageInfo)
  paginate_bool_id_float_id query_func cursor_func count_func before after first last =
      paginate (pack_cursor cursor_error new_bool_id_float_id_cursor) cursor_func
        (λ limit forward.
          lift cursor_error (bool_id_float_id_params before after limit forward) >>= query_func)
        count_func before after first last

  -- `intTimeIDPaginator`. The query's numbers are cut to 32 bits.
  unfoldable pub paginate_int_time_id :
      (IntTimeIdPagingParams → Outcome E (List Node))
      → (Node → Outcome E IntTimeIdCursor)
      → Option (Outcome E ℤ)
      → Option Bytes
      → Option Bytes
      → Option ℤ
      → Option ℤ
      → Outcome E (List Node × PageInfo)
  paginate_int_time_id query_func cursor_func count_func before after first last =
      paginate (pack_cursor cursor_error new_int_time_id_cursor) cursor_func
        (λ limit forward.
          lift cursor_error (int_time_id_params before after limit forward) >>= query_func)
        count_func before after first last

  -- `newPositionCursor`
  unfoldable pub position_cursor_of :
      (Node → Outcome E (ℤ × List Bytes)) → Node → Outcome E PositionCursor
  position_cursor_of f node = do
    (current_position, ids) ← f node
    ok (record {
      current_position = current_position;
      ids = ids;
      positions = slice_to_map_index ids;
    })

  -- `positionPaginator`, which asks for all positions in range and cuts the page itself.
  unfoldable pub paginate_position :
      (PositionPagingParams → Outcome E (List Node))
      → (Node → Outcome E (ℤ × List Bytes))
      → Option Bytes
      → Option Bytes
      → Option ℤ
      → Option ℤ
      → Outcome E (List Node × PageInfo)
  paginate_position query_func cursor_func before after first last = do
    args ← lift cursor_error (position_params before after)
    results ← query_func args
    page_from (pack_cursor cursor_error new_position_cursor) (position_cursor_of cursor_func)
        results none before after first last
