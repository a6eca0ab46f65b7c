-- ===== src/Auth/Tables.antt =====
-- The tables of nonces, sessions and roles: the statements of db/queries/core/nonce.sql and query.sql as
-- functions on their rows. A statement that fails changes nothing.
use go_mutuals.Prelude.{
  ℕ, ◌+◌, Bool, true, false, not, ◌&&◌, List, [], ◌∷◌, ltb, if◌then◌else◌, min, max, Outcome, ok,
  err, panics,
}
use go_mutuals.Cursor.Bytes.{Bytes, eq_bytes}
use go_mutuals.Auth.{AuthFailure, no_rows, database_failed, hour}

pub record Nonce : Type 0 where
  pub id : Bytes
  pub value : Bytes
  pub created_at : ℕ
  pub consumed : Bool

-- The indexes on `value` and on `id`. A conflict of the first does nothing, so that there is no row to
-- return; it is looked for before the second.
unfoldable pub has_value : Bytes → List Nonce → Bool
has_value value [] = false
has_value value (n ∷ rows) =
    let rest = has_value value rows in if eq_bytes n.value value then true else rest

unfoldable pub has_nonce_id : Bytes → List Nonce → Bool
has_nonce_id id [] = false
has_nonce_id id (n ∷ rows) =
    let rest = has_nonce_id id rows in if eq_bytes n.id id then true else rest

unfoldable pub insert_nonce : ℕ → Bytes → Bytes → List Nonce → Outcome AuthFailure (List Nonce)
insert_nonce now id value rows =
    if has_value value rows
    then err no_rows
    else (if has_nonce_id id rows
        then err (database_failed 0)
        else ok (record { id = id; value = value; created_at = now; consumed = false } ∷ rows))

-- `value = @value and not consumed and nonces.created_at > (now() - interval '1 hour')`
unfoldable pub is_consumable : ℕ → Bytes → Nonce → Bool
is_consumable now value n =
    eq_bytes n.value value && (not n.consumed && ltb now (n.created_at + hour))

unfoldable pub consume_rows : ℕ → Bytes → List Nonce → List Nonce
consume_rows now value [] = []
consume_rows now value (n ∷ rows) =
    (if is_consumable now value n then record n { consumed = true } else n)
    ∷ consume_rows now value rows

unfoldable pub any_consumable : ℕ → Bytes → List Nonce → Bool
any_consumable now value [] = false
any_consumable now value (n ∷ rows) =
    let rest = any_consumable now value rows in if is_consumable now value n then true else rest

unfoldable pub consume_nonce : ℕ → Bytes → List Nonce → Outcome AuthFailure (List Nonce)
consume_nonce now value rows =
    if any_consumable now value rows then ok (consume_rows now value rows) else err no_rows

pub record Session : Type 0 where
  pub id : Bytes
  pub user_id : Bytes
  pub created_at : ℕ
  pub created_with_user_agent : Bytes
  pub created_with_platform : Bytes
  pub created_with_os : Bytes
  pub last_refreshed : ℕ
  pub last_user_agent : Bytes
  pub last_platform : Bytes
  pub last_os : Bytes
  pub current_refresh_id : Bytes
  pub active_until : ℕ
  pub invalidated : Bool
  pub last_updated : ℕ
  pub deleted : Bool

-- `UpsertSessionParams`
pub record SessionParams : Type 0 where
  pub id : Bytes
  pub user_id : Bytes
  pub user_agent : Bytes
  pub platform : Bytes
  pub os : Bytes
  pub current_refresh_id : Bytes
  pub active_until : ℕ

unfoldable pub new_session : ℕ → SessionParams → Session
new_session now p = record {
  id = p.id;
  user_id = p.user_id;
  created_at = now;
  created_with_user_agent = p.user_agent;
  created_with_platform = p.platform;
  created_with_os = p.os;
  last_refreshed = now;
  last_user_agent = p.user_agent;
  last_platform = p.platform;
  last_os = p.os;
  current_refresh_id = p.current_refresh_id;
  active_until = p.active_until;
  invalidated = false;
  last_updated = now;
  deleted = false;
}

-- `do update set`: an invalidated session stays as it is.
unfoldable pub refreshed : ℕ → SessionParams → Session → Session
refreshed now p s = record s {
  last_refreshed = if s.invalidated then s.last_refreshed else now;
  last_user_agent = if s.invalidated then s.last_user_agent else p.user_agent;
  last_platform = if s.invalidated then s.last_platform else p.platform;
  last_os = if s.invalidated then s.last_os else p.os;
  current_refresh_id = if s.invalidated then s.current_refresh_id else p.current_refresh_id;
  last_updated = if s.invalidated then s.last_updated else now;
  active_until = if s.invalidated then s.active_until else max s.active_until p.active_until;
}

-- `UpsertSession`, which gives the row. A deleted row with the same primary key is a conflict that it
-- does not name.
unfoldable pub upsert_session :
    ℕ → SessionParams → List Session → Outcome AuthFailure (Session × List Session)
upsert_session now p [] = ok (new_session now p, new_session now p ∷ [])
upsert_session now p (s ∷ rows) =
    let rest = upsert_session now p rows in
    if eq_bytes s.id p.id
    then (if s.deleted
        then err (database_failed 0)
        else ok (refreshed now p s, refreshed now p s ∷ rows))
    else beside s rest
  where
    beside :
        Session
        → Outcome AuthFailure (Session × List Session)
        → Outcome AuthFailure (Session × List Session)
    beside s (ok (row, rows)) = ok (row, s ∷ rows)
    beside s (err e) = err e
    beside s panics = panics

-- `InvalidateSession`
unfoldable pub invalidate_session : ℕ → Bytes → List Session → List Session
invalidate_session now id [] = []
invalidate_session now id (s ∷ rows) =
    (if eq_bytes s.id id && (not s.deleted && not s.invalidated)
      then record s {
        invalidated = true;
        active_until = min s.active_until now;
        last_updated = now;
      }
      else s)
    ∷ invalidate_session now id rows

-- `GetUserRolesByUserId`
pub record UserRole : Type 0 where
  pub user_id : Bytes
  pub role : Bytes
  pub deleted : Bool

unfoldable pub get_user_roles_by_user_id : Bytes → List UserRole → List Bytes
get_user_roles_by_user_id user_id [] = []
get_user_roles_by_user_id user_id (r ∷ rows) =
    let rest = get_user_roles_by_user_id user_id rows in
    if eq_bytes r.user_id user_id && not r.deleted then r.role ∷ rest else rest
