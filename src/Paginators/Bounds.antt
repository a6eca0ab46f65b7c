-- ===== src/Paginators/Bounds.antt =====
-- publicapi/pagination.go: the default values of cursors, and the two cursors of a request.
use go_mutuals.Prelude.{
  ℕ, ◌+◌, ◌*◌, ◌-◌, ◌^◌, Option, none, some, [], ◌∷◌, ℤ, pos, Outcome, ok, err, panics, ◌>>=◌,
}
use go_mutuals.Cursor.Bytes.{Bytes, Error}
use go_mutuals.Cursor.Times.{Time}
use go_mutuals.Cursor.Pack.{BaseCursor, pack, unpack}

-- `time.Date(year, 1, 1, 1, 1, 1, 1, time.UTC)`, by the days from the year 1 to that year.
abbrev pub new_year : ℕ → Time
new_year days = record {
  sec = days * 86400 + 3661;
  nsec = 1;
  zone = some (2 ^ 16 - 1);
  zone_sec = 0;
}

abbrev pub default_cursor_before_time : Time
default_cursor_before_time = new_year 1095362

abbrev pub default_cursor_after_time : Time
default_cursor_after_time = new_year 719162

abbrev pub default_cursor_before_id : Bytes
default_cursor_before_id = []

abbrev pub default_cursor_after_id : Bytes
default_cursor_after_id = []

-- strings.Repeat("Z", 255)
abbrev pub repeat : ℕ → ℕ → Bytes
repeat ℕ.zero c = []
repeat (ℕ.suc n) c = c ∷ repeat n c

abbrev pub default_cursor_before_key : Bytes
default_cursor_before_key = repeat 255 b'Z'

abbrev pub default_cursor_after_key : Bytes
default_cursor_after_key = []

abbrev pub max_int32 : ℤ
max_int32 = pos (2 ^ 31 - 1)

-- The bit patterns of `math.MaxFloat64` and of its negative.
abbrev pub default_cursor_before_float : ℕ
default_cursor_before_float = 2047 * 2 ^ 52 - 1

abbrev pub default_cursor_after_float : ℕ
default_cursor_after_float = 2 ^ 63 + 2047 * 2 ^ 52 - 1

abbrev pub lift : {E A : Type 0} → (Error → E) → Outcome Error A → Outcome E A
lift cursor_error (ok a) = ok a
lift cursor_error (err e) = err (cursor_error e)
lift cursor_error panics = panics

-- `if ptr != nil { cur.Unpack(*ptr) }`
abbrev pub unpack_some : {C : Type 0} → BaseCursor C → C → Option Bytes → Outcome Error C
unpack_some b c none = ok c
unpack_some b c (some s) = unpack b c s

-- `Pack` of the cursor that a node has.
unfoldable pub pack_cursor :
    {E C : Type 0} → (Error → E) → Outcome Error (BaseCursor C) → C → Outcome E Bytes
pack_cursor cursor_error new c = lift cursor_error (new >>= λ b. pack b c)

-- The bounds that a query has, before and after; they come from the two cursors.
unfoldable pub bounds :
    {C : Type 0}
    → Outcome Error (BaseCursor C)
    → C
    → C
    → Option Bytes
    → Option Bytes
    → Outcome Error (C × C)
bounds new before_cur after_cur before after = do
  b ← new
  before_cur' ← unpack_some b before_cur before
  after_cur' ← unpack_some b after_cur after
  ok (before_cur', after_cur')
