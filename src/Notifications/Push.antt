-- ===== src/Notifications/Push.antt =====
-- service/notifications/notifications.go: which notifications are pushed to phones, and their text.
use go_mutuals.Prelude.{
  ℕ, ◌+◌, Bool, true, false, Option, none, some, List, [], ◌∷◌, ◌++◌, ltb, if◌then◌else◌, pos,
  length, Outcome, ok, err, panics, ◌>>=◌,
}
use go_mutuals.Cursor.Bytes.{Bytes, eq_bytes}
use go_mutuals.Numerals.{write_ℤ}
use go_mutuals.Notifications.Data.{
  NotificationData, AnnouncementDetails, action_viewed_split, action_new_tokens_received,
  action_top_activity_badge_received, action_announcement, action_user_followed_users,
}
use go_mutuals.Notifications.Store.{
  Notification, Failure, read_failed, unsupported_action, no_viewer_ids, unknown_action,
  rate_limited, unseen_notifications,
}

-- What is asked of other services: names of users, push tokens of users, whether unseen notifications are counted, and the rate limiters by
-- their keys; `html.UnescapeString`; and whether a task is taken.
pub record Services : Type 0 where
  pub username : Bytes → Outcome Failure Bytes
  pub counting_fails : Bool
  pub push_tokens : Bytes → Outcome Failure (List Bytes)
  pub allows_token : Bytes → Bool
  pub allows_user : Bytes → Bool
  pub unescape : Bytes → Bytes
  pub takes_task : Bytes → Bool

unfoldable pub action_supports_push_notifications : Bytes → Bool
action_supports_push_notifications action =
    if eq_bytes action action_user_followed_users
    then true
    else (if eq_bytes action action_new_tokens_received
        then true
        else (if eq_bytes action action_top_activity_badge_received
            then false
            else (if eq_bytes action action_announcement then true else false)))

pub record UserFacing : Type 0 where
  pub actor : Bytes
  pub action : Bytes
  pub collection_name : Bytes
  pub preview_text : Bytes

-- `UserFacingNotificationData.String`
unfoldable pub user_facing_string : (Bytes → Bytes) → UserFacing → Bytes
user_facing_string unescape u =
    let start = u.actor ++ b' ' ∷ u.action in
    let named =
      if eq_bytes u.collection_name [] then start else start ++ b' ' ∷ u.collection_name in
    unescape (if eq_bytes u.preview_text [] then named else named ++ b':' ∷ b' ' ∷ u.preview_text)

abbrev pub viewed_your_split : Bytes
viewed_your_split =
    b'v' ∷ b'i' ∷ b'e' ∷ b'w' ∷ b'e' ∷ b'd' ∷ b' ' ∷ b'y' ∷ b'o' ∷ b'u' ∷ b'r' ∷ b' ' ∷ b's' ∷ b'p'
    ∷ b'l' ∷ b'i' ∷ b't' ∷ []

abbrev pub acted : Bytes → Bytes → UserFacing
acted actor action = record {
  actor = actor;
  action = action;
  collection_name = [];
  preview_text = [];
}

-- `NotificationToUserFacingData` of an announcement, which reads its details through a pointer, and of
-- views.
unfoldable pub announced : Option AnnouncementDetails → Outcome Failure UserFacing
announced none = panics
announced (some details) = ok (acted [] details.push_notification_text)

abbrev pub only_viewer :
    (Bytes → Outcome Failure Bytes) → List Bytes → List Bytes → Outcome Failure UserFacing
only_viewer username (id ∷ []) unauthed = do name ← username id; ok (acted name viewed_your_split)
only_viewer username [] (id ∷ []) =
    ok (acted (b'S' ∷ b'o' ∷ b'm' ∷ b'e' ∷ b'o' ∷ b'n' ∷ b'e' ∷ []) viewed_your_split)
only_viewer username [] [] = err no_viewer_ids
only_viewer username [] (i ∷ j ∷ ids) = err no_viewer_ids
only_viewer username (i ∷ j ∷ ids) unauthed = err no_viewer_ids

unfoldable pub viewed :
    (Bytes → Outcome Failure Bytes) → NotificationData → Outcome Failure UserFacing
viewed username notification_data =
    let viewers =
      length notification_data.authed_viewer_ids + length notification_data.unauthed_viewer_ids in
    if ltb 1 viewers
    then ok (
        acted
          (write_ℤ 10 (pos viewers)
            ++ b' ' ∷ b'c' ∷ b'o' ∷ b'l' ∷ b'l' ∷ b'e' ∷ b'c' ∷ b't' ∷ b'o' ∷ b'r' ∷ b's' ∷ [])
          viewed_your_split)
    else only_viewer username notification_data.authed_viewer_ids
        notification_data.unauthed_viewer_ids

unfoldable pub notification_to_user_facing_data :
    (Bytes → Outcome Failure Bytes) → Notification → Outcome Failure UserFacing
notification_to_user_facing_data username n =
    if eq_bytes n.action action_viewed_split
    then viewed username n.notification_data
    else (if eq_bytes n.action action_top_activity_badge_received
        then ok (
            acted (b'Y' ∷ b'o' ∷ b'u' ∷ []) (
              b'r' ∷ b'e' ∷ b'c' ∷ b'e' ∷ b'i' ∷ b'v' ∷ b'e' ∷ b'd' ∷ b' ' ∷ b'a' ∷ b' ' ∷ b'n'
              ∷ b'e' ∷ b'w' ∷ b' ' ∷ b'b' ∷ b'a' ∷ b'd' ∷ b'g' ∷ b'e' ∷ b' ' ∷ b'f' ∷ b'o' ∷ b'r'
              ∷ b' ' ∷ b'b' ∷ b'e' ∷ b'i' ∷ b'n' ∷ b'g' ∷ b' ' ∷ b'a' ∷ b'm' ∷ b'o' ∷ b'n' ∷ b'g'
              ∷ b's' ∷ b't' ∷ b' ' ∷ b't' ∷ b'h' ∷ b'e' ∷ b' ' ∷ b't' ∷ b'o' ∷ b'p' ∷ b' ' ∷ b'a'
              ∷ b'c' ∷ b't' ∷ b'i' ∷ b'v' ∷ b'e' ∷ b' ' ∷ b'u' ∷ b's' ∷ b'e' ∷ b'r' ∷ b's' ∷ b' '
              ∷ b'o' ∷ b'n' ∷ b' ' ∷ b'S' ∷ b'p' ∷ b'l' ∷ b'i' ∷ b't' ∷ b'F' ∷ b'i' ∷ b' ' ∷ b't'
              ∷ b'h' ∷ b'i' ∷ b's' ∷ b' ' ∷ b'w' ∷ b'e' ∷ b'e' ∷ b'k' ∷ b'!' ∷ []))
        else (if eq_bytes n.action action_announcement
            then announced n.notification_data.announcement_details
            else err unknown_action))

pub record PushMessage : Type 0 where
  pub push_token_id : Bytes
  pub badge : ℕ
  pub body : Bytes
  pub action : Bytes
  pub notification_id : Bytes

-- `createPushMessage`, without the title and the sound, which are always the same.
unfoldable pub unless_limited : Services → Notification → PushMessage → Outcome Failure PushMessage
unless_limited s notif message =
    if eq_bytes notif.action action_new_tokens_received
    then (if s.allows_token (notif.owner_id ++ b':' ∷ notif.notification_data.new_token_id)
        then ok message
        else err rate_limited)
    else (if eq_bytes notif.action action_top_activity_badge_received
        then (if s.allows_user notif.owner_id then ok message else err rate_limited)
        else (if eq_bytes notif.action action_announcement
            then ok message
            else err unsupported_action))

unfoldable pub create_push_message :
    Services → List Notification → Notification → Outcome Failure PushMessage
create_push_message s rows notif =
    if s.counting_fails
    then err read_failed
    else (notification_to_user_facing_data s.username notif >>= λ user_facing.
        unless_limited s notif (record {
          push_token_id = [];
          badge = length (unseen_notifications notif.owner_id rows);
          body = user_facing_string s.unescape user_facing;
          action = notif.action;
          notification_id = notif.id;
        }))

-- The loop over the tokens: a task that is not taken is reported, and the loop goes on.
unfoldable pub tasks : (Bytes → Bool) → PushMessage → List Bytes → List PushMessage
tasks takes message [] = []
tasks takes message (token ∷ push_tokens) =
    let rest = tasks takes message push_tokens in
    if takes token then record message { push_token_id = token } ∷ rest else rest

abbrev pub tasks_unless_limited :
    (Bytes → Bool) → List Bytes → Outcome Failure PushMessage → Outcome Failure (List PushMessage)
tasks_unless_limited takes push_tokens (ok message) = ok (tasks takes message push_tokens)
tasks_unless_limited takes push_tokens (err rate_limited) = ok []
tasks_unless_limited takes push_tokens (err e) = err e
tasks_unless_limited takes push_tokens panics = panics

-- `sendPushNotifications`: the tasks that it makes.
unfoldable pub push_to :
    Services → List Notification → Notification → List Bytes → Outcome Failure (List PushMessage)
push_to s rows notif [] = ok []
push_to s rows notif (token ∷ push_tokens) =
    tasks_unless_limited s.takes_task (token ∷ push_tokens) (create_push_message s rows notif)

unfoldable pub send_push_notifications :
    Services → List Notification → Notification → Outcome Failure (List PushMessage)
send_push_notifications s rows notif =
    if action_supports_push_notifications notif.action
    then (s.push_tokens notif.owner_id >>= push_to s rows notif)
    else ok []
