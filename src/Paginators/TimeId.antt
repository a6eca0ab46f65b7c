-- ===== src/Paginators/TimeId.antt =====
-- publicapi/pagination.go: `timeIDPaginator` and `sharedFollowersPaginator`.
use go_mutuals.Prelude.{Bool, Option, List, [], ◌∷◌, ℤ, Outcome, ok, ◌>>=◌}
use go_mutuals.Cursor.Bytes.{Bytes, Error}
use go_mutuals.Cursor.Times.{Time}
use go_mutuals.Cursor.Kinds.{TimeIdCursor, new_time_id_cursor}
use go_mutuals.Paging.{PageInfo, paginate}
use go_mutuals.Paginators.Bounds.{
  new_year, default_cursor_before_time, default_cursor_after_time, default_cursor_before_id,
  default_cursor_after_id, lift, pack_cursor, bounds,
}

pub record TimeIdPagingParams : Type 0 where
  pub limit : ℤ
  pub cursor_before_time : Time
  pub cursor_before_id : Bytes
  pub cursor_after_time : Time
  pub cursor_after_id : Bytes
  pub paging_forward : Bool

-- `withDefaultCursorTime`
unfoldable pub with_default_cursor_time :
    Time → Time → TimeIdCursor × TimeIdCursor → TimeIdCursor × TimeIdCursor
with_default_cursor_time before after (before_cur, after_cur) =
    (record before_cur { time = before }, record after_cur { time = after })

unfoldable pub apply_opts :
    List (TimeIdCursor × TimeIdCursor → TimeIdCursor × TimeIdCursor)
    → TimeIdCursor × TimeIdCursor
    → TimeIdCursor × TimeIdCursor
apply_opts [] curs = curs
apply_opts (opt ∷ opts) curs = apply_opts opts (opt curs)

abbrev pub time_id_defaults : TimeIdCursor × TimeIdCursor
time_id_defaults = (
  record { time = default_cursor_before_time; id = default_cursor_before_id },
  record { time = default_cursor_after_time; id = default_cursor_after_id },
)

-- The shared followers query orders its results the other way round.
abbrev pub shared_followers_defaults : TimeIdCursor × TimeIdCursor
shared_followers_defaults = (
  record { time = new_year 719162; id = default_cursor_before_id },
  record { time = new_year 1095362; id = default_cursor_after_id },
)

unfoldable pub time_id_params :
    TimeIdCursor × TimeIdCursor
    → Option Bytes
    → Option Bytes
    → ℤ
    → Bool
    → Outcome Error TimeIdPagingParams
time_id_params defaults before after limit paging_forward = do
  (before_cur, after_cur) ← bounds new_time_id_cursor defaults.0 defaults.1 before after
  ok (record {
    limit = limit;
    cursor_before_time = before_cur.time;
    cursor_before_id = before_cur.id;
    cursor_after_time = after_cur.time;
    cursor_after_id = after_cur.id;
    paging_forward = paging_forward;
  })

module _ {E Node : Type 0} (cursor_error : Error → E) where
  -- `timeIDPaginator.paginate`, and `sharedFollowersPaginator.paginate` with its own defaults.
  unfoldable pub paginate_time_id_from :
      TimeIdCursor × TimeIdCursor
      → (TimeIdPagingParams → Outcome E (List Node))
      → (Node → Outcome E TimeIdCursor)
      → Option (Outcome E ℤ)
      → Option Bytes
      → Option Bytes
      → Option ℤ
      → Option ℤ
      → Outcome E (List Node × PageInfo)
  paginate_time_id_from defaults query_func cursor_func count_func before after first last =
      paginate (pack_cursor cursor_error new_time_id_cursor) cursor_func
        (λ limit forward.
          lift cursor_error (time_id_params defaults before after limit forward) >>= query_func)
        count_func before after first last

  unfoldable pub paginate_time_id :
      (TimeIdPagingParams → Outcome E (List Node))
      → (Node → Outcome E TimeIdCursor)
      → Option (Outcome E ℤ)
      → List (TimeIdCursor × TimeIdCursor → TimeIdCursor × TimeIdCursor)
      → Option Bytes
      → Option Bytes
      → Option ℤ
      → Option ℤ
      → Outcome E (List Node × PageInfo)
  paginate_time_id query_func cursor_func count_func opts =
      paginate_time_id_from (apply_opts opts time_id_defaults) query_func cursor_func count_func

  unfoldable pub paginate_shared_followers :
      (TimeIdPagingParams → Outcome E (List Node))
      → (Node → Outcome E TimeIdCursor)
      → Option (Outcome E ℤ)
      → Option Bytes
      → Option Bytes
      → Option ℤ
      → Option ℤ
      → Outcome E (List Node × PageInfo)
  paginate_shared_followers = paginate_time_id_from shared_followers_defaults
