-- ===== src/Events/Handling.antt =====
-- event/event.go: the handler that turns events into notifications, and the sender that `AddTo` sets up.
use go_mutuals.Prelude.{false, ◌&&◌, none, [], ◌∷◌, if◌then◌else◌, pos, Outcome, ok, err, panics}
use go_mutuals.Cursor.Bytes.{Bytes, eq_bytes}
use go_mutuals.Wallets.{eq_ℤ}
use go_mutuals.Notifications.Data.{
  NotificationData, action_viewed_split, action_user_followed_users,
}
use go_mutuals.Notifications.Store.{Notification, Failure, no_owner}
use go_mutuals.Notifications.Handlers.{World, Handled, Handlers, dispatch}
use go_mutuals.Events.{
  Event, null_str_to_str, resource_type_user, resource_type_token, resource_type_split, Sender,
  new_event_sender, add_delayed_handler,
}

-- `findOwnerForNotificationFromEvent`: for a split, always the user "1".
unfoldable pub find_owner : Event → Outcome Failure Bytes
find_owner event =
    if eq_ℤ event.resource_type_id resource_type_split
    then ok (b'1' ∷ [])
    else (if eq_ℤ event.resource_type_id resource_type_user
        then ok event.subject_id
        else (if eq_ℤ event.resource_type_id resource_type_token
            then ok event.actor_id.text
            else err no_owner))

abbrev pub no_data : NotificationData
no_data = record {
  authed_viewer_ids = [];
  unauthed_viewer_ids = [];
  new_token_id = [];
  new_token_quantity = [];
  activity_badge_threshold = pos 0;
  new_top_active_user = false;
  announcement_details = none;
}

-- `createNotificationDataForEvent`
unfoldable pub notification_data_for : Event → NotificationData
notification_data_for event =
    if eq_bytes event.action action_viewed_split
    then record no_data {
      authed_viewer_ids =
          if eq_bytes event.actor_id.text [] then [] else null_str_to_str event.actor_id ∷ [];
      unauthed_viewer_ids =
          if eq_bytes event.external_id.text [] then [] else null_str_to_str event.external_id ∷ [];
    }
    else no_data

-- The notification of an event; what is left out is the zero value.
abbrev pub notification_of : Bytes → NotificationData → Event → Notification
notification_of owner notification_data event = record {
  id = [];
  deleted = false;
  owner_id = owner;
  last_updated = 0;
  created_at = 0;
  action = event.action;
  notification_data = notification_data;
  event_ids = event.id ∷ [];
  split_id = event.split_id;
  seen = false;
  amount = pos 0;
}

-- `notificationHandler.handleDelayed`
abbrev pub notify_owner : Handlers → Event → World → Outcome Failure Bytes → Handled
notify_owner handlers event w (err e) = (w, err e)
notify_owner handlers event w panics = (w, panics)
notify_owner handlers event w (ok owner) =
    if eq_bytes owner []
    then (w, ok tt)
    else (if eq_bytes (null_str_to_str event.actor_id) owner
        then (w, ok tt)
        else (if eq_bytes event.action action_viewed_split && eq_bytes event.actor_id.text []
            then (w, ok tt)
            else dispatch handlers (notification_of owner (notification_data_for event) event) w))

unfoldable pub handle_delayed : Handlers → Event → World → Handled
handle_delayed handlers event w = notify_owner handlers event w (find_owner event)

-- `followerNotificationHandler.handleDelayed`
unfoldable pub handle_without_owner : Handlers → Event → World → Handled
handle_without_owner handlers event w = dispatch handlers (notification_of [] no_data event) w

-- `AddTo`
unfoldable pub add_to : {R : Type 0} → Handlers → Sender R
add_to handlers =
    add_delayed_handler
      (add_delayed_handler new_event_sender action_user_followed_users (handle_delayed handlers))
      action_viewed_split (handle_delayed handlers)
