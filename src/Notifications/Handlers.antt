-- ===== src/Notifications/Handlers.antt =====
-- service/notifications/notifications.go: the dispatcher and the handlers of notifications. A handler
-- takes the world and gives it back with its result, on errors too.
use go_mutuals.Prelude.{
  ℕ, ◌+◌, ◌%◌, ◌^◌, Bool, true, false, Option, none, some, List, [], ◌∷◌, ◌++◌, map, ltb,
  if◌then◌else◌, ℤ, pos, ◌+ℤ◌, pos_part, neg_part, length, Outcome, ok, err, panics,
}
use go_mutuals.Cursor.Bytes.{Bytes, eq_bytes, bytes_eq}
use go_mutuals.Paging.{to_int32}
use go_mutuals.Slices.{contains}
use go_mutuals.Tokens.{hex_big_int}
use go_mutuals.Notifications.Data.{
  NotificationData, action_viewed_split, action_new_tokens_received, action_announcement,
  concat_data,
}
use go_mutuals.Notifications.Store.{
  Notification, Failure, read_failed, write_failed, publish_failed, unknown_action,
  get_notifications_after, get_most_recent_notification, get_notification_by_id,
  create_view_split_notification, update_notification,
}
use go_mutuals.Notifications.Push.{Services, PushMessage, send_push_notifications}

-- What a call of a handler finds: the time, the beginning of the week, the id that it generates, and
-- which calls of other services fail.
pub record Env : Type 0 where
  pub now : ℕ
  pub week_start : ℕ
  pub new_id : Bytes
  pub reads_fail : Bool
  pub writes_fail : Bool
  pub publishing_fails : Bool
  pub services : Services

pub data Published : Type 0 where
  new_notification updated_notification : Notification → Published

pub record World : Type 0 where
  pub rows : List Notification
  pub published : List Published
  pub pushed : List PushMessage

abbrev pub Handled : Type 0
Handled = World × Outcome Failure (Unit {0})

unfoldable pub and_then : Handled → (World → Handled) → Handled
and_then (w, ok done) next = next w
and_then (w, err e) next = (w, err e)
and_then (w, panics) next = (w, panics)

-- An error of `sendPushNotifications` is only reported.
abbrev pub after_push : World → Outcome Failure (List PushMessage) → Handled
after_push w (ok messages) = (record w { pushed = w.pushed ++ messages }, ok tt)
after_push w (err e) = (w, ok tt)
after_push w panics = (w, panics)

unfoldable pub push : Env → Notification → World → Handled
push env notif w = after_push w (send_push_notifications env.services w.rows notif)

-- `Topic.Publish`
unfoldable pub publish_message : Env → Published → World → Handled
publish_message env message w =
    if env.publishing_fails
    then (w, err publish_failed)
    else (record w { published = w.published ++ message ∷ [] }, ok tt)

-- `sendNotifications`
unfoldable pub send_notifications : Env → Notification → World → Handled
send_notifications env notif w =
    and_then (push env notif w) (publish_message env (new_notification notif))

-- `addNotification`
unfoldable pub add_notification :
    Env → Notification → List Notification → Outcome Failure Notification
add_notification env notif rows =
    if eq_bytes notif.action action_viewed_split
    then (if env.writes_fail
        then err write_failed
        else create_view_split_notification env.now env.new_id notif rows)
    else err unknown_action

-- `insertAndPublishNotif`
abbrev pub after_insert : Env → World → Outcome Failure Notification → Handled
after_insert env w (err e) = (w, err e)
after_insert env w panics = (w, panics)
after_insert env w (ok row) = send_notifications env row (record w { rows = row ∷ w.rows })

unfoldable pub insert_and_publish : Env → Notification → World → Handled
insert_and_publish env notif w = after_insert env w (add_notification env notif w.rows)

-- The amount of `updateAndPublishNotif`: `Uint64` keeps 64 bits of the size of a number.
unfoldable pub new_amount : Notification → Notification → NotificationData → ℤ
new_amount notif most_recent result =
    if eq_bytes notif.action action_viewed_split
    then to_int32 (pos (length result.authed_viewer_ids + length result.unauthed_viewer_ids))
    else (if eq_bytes notif.action action_new_tokens_received
        then (let quantity = hex_big_int result.new_token_quantity in
            to_int32 (pos ((pos_part quantity + neg_part quantity) % 2 ^ 64)))
        else to_int32 (most_recent.amount +ℤ notif.amount))

-- The end of `updateAndPublishNotif`, after the push.
abbrev pub after_reread : Env → World → Outcome Failure Notification → Handled
after_reread env w (err e) = (w, err e)
after_reread env w panics = (w, panics)
after_reread env w (ok row) = publish_message env (updated_notification row) w

unfoldable pub publish_updated : Env → Bytes → World → Handled
publish_updated env id w =
    after_reread env w
      (if env.reads_fail then err read_failed else get_notification_by_id id w.rows)

-- `updateAndPublishNotif`
abbrev pub updated : Env → Notification → Notification → World → World
updated env notif most_recent w =
    let result = concat_data most_recent.notification_data notif.notification_data in
    record w {
      rows =
          update_notification env.now most_recent.id result (new_amount notif most_recent result)
            notif.event_ids w.rows;
    }

unfoldable pub update_and_publish : Env → Notification → Notification → World → Handled
update_and_publish env notif most_recent w =
    if env.writes_fail
    then (w, err write_failed)
    else and_then (push env notif (updated env notif most_recent w))
        (publish_updated env most_recent.id)

-- `ownerGroupedNotificationHandler.Handle`. Without a row, `CreatedAt` is the zero time.
abbrev pub grouped_window : ℕ
grouped_window = 600000000000

unfoldable pub handle_owner_grouped : Env → Notification → World → Handled
handle_owner_grouped env notif w =
    let current =
      if env.reads_fail
      then none
      else get_most_recent_notification notif.owner_id notif.action w.rows in
    elim current [
      | none ↦ insert_and_publish env notif w
      | some row ↦
          if ltb env.now (row.created_at + grouped_window)
          then update_and_publish env notif row w
          else insert_and_publish env notif w
    ]

-- `viewedNotificationHandler.Handle`. The viewers of the notification who are in none of the week's.
unfoldable pub in_any : List (List Bytes) → Bytes → Bool
in_any [] id = false
in_any (ids ∷ lists) id = let rest = in_any lists id in if contains ids id then true else rest

unfoldable pub new_viewers : List (List Bytes) → List Bytes → List Bytes
new_viewers lists [] = []
new_viewers lists (id ∷ ids) =
    let rest = new_viewers lists ids in if in_any lists id then rest else id ∷ rest

abbrev pub authed_of : Notification → List Bytes
authed_of n = n.notification_data.authed_viewer_ids

abbrev pub unauthed_of : Notification → List Bytes
unauthed_of n = n.notification_data.unauthed_viewer_ids

unfoldable pub with_new_viewers : List Notification → Notification → Notification
with_new_viewers notifs notif = record notif {
  notification_data = record (notif.notification_data) {
    unauthed_viewer_ids = new_viewers (map unauthed_of notifs) (unauthed_of notif);
    authed_viewer_ids = new_viewers (map authed_of notifs) (authed_of notif);
  };
}

abbrev pub view_window : ℕ
view_window = 86400000000000

unfoldable pub group_views : Env → Notification → List Notification → World → Handled
group_views env notif [] w = insert_and_publish env notif w
group_views env notif (most_recent ∷ notifs) w =
    let notif' = with_new_viewers (most_recent ∷ notifs) notif in
    if ltb env.now (most_recent.created_at + view_window)
    then update_and_publish env notif' most_recent w
    else insert_and_publish env notif' w

unfoldable pub handle_viewed : Env → Notification → World → Handled
handle_viewed env notif w =
    let notifs =
      if env.reads_fail
      then []
      else get_notifications_after notif.owner_id notif.action env.week_start w.rows in
    group_views env notif notifs w

-- `singleNotificationHandler.Handle`
unfoldable pub handle_single : Env → Notification → World → Handled
handle_single env notif w = insert_and_publish env notif w

-- `notificationDispatcher`: its handlers by their actions. `Dispatch` goes on without the lock where it
-- cannot have it.
abbrev pub Handlers : Type 0
Handlers = Bytes → Option (Notification → World → Handled)

unfoldable pub add_handler : Handlers → Bytes → (Notification → World → Handled) → Handlers
add_handler handlers action handler a = if eq_bytes a action then some handler else handlers a

abbrev pub run_handler : Option (Notification → World → Handled) → Notification → World → Handled
run_handler (some handler) notif w = handler notif w
run_handler none notif w = (w, ok tt)

unfoldable pub dispatch : Handlers → Notification → World → Handled
dispatch handlers notif w = run_handler (handlers notif.action) notif w

-- `lockKey.String`
unfoldable pub lock_key : Notification → Bytes
lock_key notif = notif.owner_id ++ b':' ∷ notif.action

-- The handlers that `New` registers; that of announcements is given.
unfoldable pub new_handlers : Env → (Notification → World → Handled) → Handlers
new_handlers env announce =
    add_handler (add_handler (λ action. none) action_viewed_split (handle_viewed env))
      action_announcement announce
