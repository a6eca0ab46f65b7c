-- ===== src/Notifications/Store.antt =====
-- The table of notifications: rows, and the statements of db/queries/core/query.sql. Times are
-- nanoseconds; `version` is not modelled, and the order of equal times is that of the table.
use go_mutuals.Prelude.{
  ℕ, Bool, true, false, not, ◌&&◌, Option, none, some, List, [], ◌∷◌, ◌++◌, ltb, if◌then◌else◌, ℤ,
  pos, Outcome, ok, err,
}
use go_mutuals.Cursor.Bytes.{Bytes, eq_bytes}
use go_mutuals.Wallets.{eq_ℤ}
use go_mutuals.Notifications.Data.{NotificationData}

pub record Notification : Type 0 where
  pub id : Bytes
  pub deleted : Bool
  pub owner_id : Bytes
  pub last_updated : ℕ
  pub created_at : ℕ
  pub action : Bytes
  pub notification_data : NotificationData
  pub event_ids : List Bytes
  pub split_id : Bytes
  pub seen : Bool
  pub amount : ℤ

pub data Failure : Type 0 where
  read_failed write_failed duplicate_key no_rows publish_failed unknown_action unsupported_action
        no_viewer_ids rate_limited invalid_event unknown_resource_type no_owner :
      Failure

-- `owner_id = $1 AND action = $2 AND deleted = false`
unfoldable pub is_for : Bytes → Bytes → Notification → Bool
is_for owner_id action n = eq_bytes n.owner_id owner_id && eq_bytes n.action action && not n.deleted

unfoldable pub select : (Notification → Bool) → List Notification → List Notification
select test [] = []
select test (n ∷ rows) = let rest = select test rows in if test n then n ∷ rest else rest

-- `ORDER BY created_at DESC`
unfoldable pub insert_newest : Notification → List Notification → List Notification
insert_newest n [] = n ∷ []
insert_newest n (m ∷ rows) =
    let rest = insert_newest n rows in
    if ltb n.created_at m.created_at then m ∷ rest else n ∷ m ∷ rows

unfoldable pub newest_first : List Notification → List Notification
newest_first [] = []
newest_first (n ∷ rows) = insert_newest n (newest_first rows)

-- `GetNotificationsByOwnerIDForActionAfter`
unfoldable pub is_after : Bytes → Bytes → ℕ → Notification → Bool
is_after owner_id action created_after n =
    is_for owner_id action n && ltb created_after n.created_at

unfoldable pub get_notifications_after : Bytes → Bytes → ℕ → List Notification → List Notification
get_notifications_after owner_id action created_after rows =
    newest_first (select (is_after owner_id action created_after) rows)

-- `GetMostRecentNotificationByOwnerIDForAction`
abbrev pub first_row : List Notification → Option Notification
first_row [] = none
first_row (n ∷ rows) = some n

unfoldable pub get_most_recent_notification :
    Bytes → Bytes → List Notification → Option Notification
get_most_recent_notification owner_id action rows =
    first_row (newest_first (select (is_for owner_id action) rows))

-- `GetNotificationByID`
unfoldable pub get_notification_by_id : Bytes → List Notification → Outcome Failure Notification
get_notification_by_id id rows =
    elim (first_row (select (λ n. eq_bytes n.id id && not n.deleted) rows)) [
      | none ↦ err no_rows
      | some n ↦ ok n
    ]

-- `CreateViewSplitNotification`, with the defaults of the table.
unfoldable pub has_id : Bytes → List Notification → Bool
has_id id [] = false
has_id id (n ∷ rows) = let rest = has_id id rows in if eq_bytes n.id id then true else rest

unfoldable pub create_view_split_notification :
    ℕ → Bytes → Notification → List Notification → Outcome Failure Notification
create_view_split_notification now id notif rows =
    if has_id id rows
    then err duplicate_key
    else ok (record {
      id = id;
      deleted = false;
      owner_id = notif.owner_id;
      last_updated = now;
      created_at = now;
      action = notif.action;
      notification_data = notif.notification_data;
      event_ids = notif.event_ids;
      split_id = notif.split_id;
      seen = false;
      amount = pos 1;
    })

-- `UpdateNotification`
unfoldable pub update_row :
    ℕ → Bytes → NotificationData → ℤ → List Bytes → Notification → Notification
update_row now id notification_data amount event_ids n =
    if eq_bytes n.id id && not n.deleted && not (eq_ℤ n.amount amount)
    then record n {
      notification_data = notification_data;
      event_ids = n.event_ids ++ event_ids;
      amount = amount;
      last_updated = now;
      seen = false;
    }
    else n

unfoldable pub update_notification :
    ℕ → Bytes → NotificationData → ℤ → List Bytes → List Notification → List Notification
update_notification now id notification_data amount event_ids [] = []
update_notification now id notification_data amount event_ids (n ∷ rows) =
    update_row now id notification_data amount event_ids n
    ∷ update_notification now id notification_data amount event_ids rows

-- `CountUserUnseenNotifications`
unfoldable pub unseen_notifications : Bytes → List Notification → List Notification
unseen_notifications owner_id rows =
    select (λ n. eq_bytes n.owner_id owner_id && not n.deleted && not n.seen) rows
