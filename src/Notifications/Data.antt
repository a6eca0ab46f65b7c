-- ===== src/Notifications/Data.antt =====
-- service/persist/notification.go: what a notification is about. Ids are strings; an action is its
-- string in service/persist/event.go.
use go_mutuals.Prelude.{
  Bool, false, ◌||◌, Option, none, some, List, [], ◌∷◌, ◌++◌, if◌then◌else◌, ℤ, pos, ltb_ℤ,
}
use go_mutuals.Cursor.Bytes.{Bytes, eq_bytes, bytes_eq}
use go_mutuals.Slices.{keep, unseen, see, find_first}
use go_mutuals.Tokens.{hex_add}

abbrev pub action_viewed_split : Bytes
action_viewed_split =
    b'V' ∷ b'i' ∷ b'e' ∷ b'w' ∷ b'e' ∷ b'd' ∷ b'S' ∷ b'p' ∷ b'l' ∷ b'i' ∷ b't' ∷ []

abbrev pub action_new_tokens_received : Bytes
action_new_tokens_received =
    b'N' ∷ b'e' ∷ b'w' ∷ b'T' ∷ b'o' ∷ b'k' ∷ b'e' ∷ b'n' ∷ b's' ∷ b'R' ∷ b'e' ∷ b'c' ∷ b'e' ∷ b'i'
    ∷ b'v' ∷ b'e' ∷ b'd' ∷ []

abbrev pub action_top_activity_badge_received : Bytes
action_top_activity_badge_received =
    b'A' ∷ b'c' ∷ b't' ∷ b'i' ∷ b'v' ∷ b'i' ∷ b't' ∷ b'y' ∷ b'B' ∷ b'a' ∷ b'd' ∷ b'g' ∷ b'e' ∷ b'R'
    ∷ b'e' ∷ b'c' ∷ b'e' ∷ b'i' ∷ b'v' ∷ b'e' ∷ b'd' ∷ []

abbrev pub action_announcement : Bytes
action_announcement =
    b'A' ∷ b'n' ∷ b'n' ∷ b'o' ∷ b'u' ∷ b'n' ∷ b'c' ∷ b'e' ∷ b'm' ∷ b'e' ∷ b'n' ∷ b't' ∷ []

abbrev pub action_user_followed_users : Bytes
action_user_followed_users =
    b'U' ∷ b's' ∷ b'e' ∷ b'r' ∷ b'F' ∷ b'o' ∷ b'l' ∷ b'l' ∷ b'o' ∷ b'w' ∷ b'e' ∷ b'd' ∷ b'U' ∷ b's'
    ∷ b'e' ∷ b'r' ∷ b's' ∷ []

pub record AnnouncementDetails : Type 0 where
  pub platform : Bytes
  pub internal_id : Bytes
  pub image_url : Bytes
  pub title : Bytes
  pub description : Bytes
  pub cta_text : Bytes
  pub cta_link : Bytes
  pub push_notification_text : Bytes

pub record NotificationData : Type 0 where
  pub authed_viewer_ids : List Bytes
  pub unauthed_viewer_ids : List Bytes
  pub new_token_id : Bytes
  pub new_token_quantity : Bytes
  pub activity_badge_threshold : ℤ
  pub new_top_active_user : Bool
  pub announcement_details : Option AnnouncementDetails

-- `uniqueDBIDs` and `uniqueStrings`
unfoldable pub unique_strings : List Bytes → List Bytes
unique_strings strs = keep (unseen (λ str. str)) (see (λ str. str)) (λ str. false) strs

unfoldable pub validate : NotificationData → NotificationData
validate n = record n {
  authed_viewer_ids = unique_strings n.authed_viewer_ids;
  unauthed_viewer_ids = unique_strings n.unauthed_viewer_ids;
}

-- `FirstNonEmptyString`
unfoldable pub first_non_empty_string : List Bytes → Bytes
first_non_empty_string [] = []
first_non_empty_string (str ∷ strs) =
    let rest = first_non_empty_string strs in if eq_bytes str [] then rest else str

abbrev pub or_details :
    Option AnnouncementDetails → Option AnnouncementDetails → Option AnnouncementDetails
or_details none n = n
or_details (some other) n = some other

-- `n.Concat(other)`
unfoldable pub concat_data : NotificationData → NotificationData → NotificationData
concat_data n other = validate (record {
  authed_viewer_ids = other.authed_viewer_ids ++ n.authed_viewer_ids;
  unauthed_viewer_ids = other.unauthed_viewer_ids ++ n.unauthed_viewer_ids;
  new_token_quantity = hex_add other.new_token_quantity n.new_token_quantity;
  new_token_id = first_non_empty_string (other.new_token_id ∷ n.new_token_id ∷ []);
  activity_badge_threshold =
      (find_first (pos 0) (other.activity_badge_threshold ∷ n.activity_badge_threshold ∷ [])
        (λ i. ltb_ℤ (pos 0) i)).0;
  new_top_active_user = other.new_top_active_user || n.new_top_active_user;
  announcement_details = or_details other.announcement_details n.announcement_details;
})
