-- ===== src/Tests/NotificationTests.antt =====
-- Views of one owner's split, and the days of a week.
use go_mutuals.Prelude.{
  ℕ, ◌+◌, ◌≤◌, ◌<◌, ◌≡◌, refl, subst, true, false, none, List, [], ◌∷◌, arith, pos, ok, err,
}
use go_mutuals.Cursor.Bytes.{Bytes}
use go_mutuals.Notifications.Data.{
  NotificationData, action_viewed_split, concat_data, validate, unique_strings,
}
use go_mutuals.Slices.{contains}
use go_mutuals.Notifications.Store.{
  Notification, has_id, read_failed, get_notifications_after, select, newest_first, insert_newest,
  is_after, is_for,
}
use go_mutuals.Notifications.Push.{Services}
use go_mutuals.Notifications.Handlers.{
  Env, World, in_any, new_viewers, with_new_viewers, new_amount, handle_viewed,
}
use go_mutuals.Notifications.Weeks.{weekday, beginning_of_week, beginning_of_week-weekday}
use go_mutuals.Notifications.Viewers.{
  OncePerWeek, HasEachOnce, handle_all, last_week, handle_all-OncePerWeek,
}
use go_mutuals.Slices.{keep}
use go_mutuals.Wallets.{eq_ℤ}
use go_mutuals.Notifications.Tables.{new_row}
use go_mutuals.Notifications.Recorded.{AmountChanges, AllRecorded, handle_viewed-AllRecorded}
use go_mutuals.Notifications.Amounts.{view_by, without_viewers, handle_viewed-lost}

abbrev no_services : Services
no_services = record {
  username = λ id. err read_failed;
  counting_fails = false;
  push_tokens = λ id. ok [];
  allows_token = λ key. true;
  allows_user = λ key. true;
  unescape = λ s. s;
  takes_task = λ token. true;
}

abbrev pub at : ℕ → Bytes → Env
at now new_id = record {
  now = now;
  week_start = 5;
  new_id = new_id;
  reads_fail = false;
  writes_fail = false;
  publishing_fails = false;
  services = no_services;
}

abbrev nothing : NotificationData
nothing = record {
  authed_viewer_ids = [];
  unauthed_viewer_ids = [];
  new_token_id = [];
  new_token_quantity = [];
  activity_badge_threshold = pos 0;
  new_top_active_user = false;
  announcement_details = none;
}

abbrev blank : Notification
blank = record {
  id = 9 ∷ [];
  deleted = false;
  owner_id = b'o' ∷ [];
  last_updated = 0;
  created_at = 20;
  action = action_viewed_split;
  notification_data = nothing;
  event_ids = [];
  split_id = [];
  seen = false;
  amount = pos 0;
}

abbrev view : ℕ → Notification
view v = view_by (v ∷ []) blank

-- A user, the same user again, and another.
abbrev calls : List (Env × Notification)
calls = (at 10 (1 ∷ []), view 7) ∷ (at 11 (2 ∷ []), view 7) ∷ (at 12 (3 ∷ []), view 8) ∷ []

abbrev empty_world : World
empty_world = record { rows = []; published = []; pushed = [] }

view-HasEachOnce : (v : ℕ) → HasEachOnce (view v)
view-HasEachOnce v id = (ground arith, omega arith)

beginning_of_week-weekday_example :
    (weekday (beginning_of_week 20000 20000) ≡ 0)
    × (beginning_of_week 20000 20000 ≤ 20000)
    × (20000 < beginning_of_week 20000 20000 + 7)
    × (weekday (beginning_of_week 20000 (20000 + 1)) ≡ 6)
beginning_of_week-weekday_example = beginning_of_week-weekday 20000 (omega arith)

handle_all-OncePerWeek_example : OncePerWeek (last_week 0 calls) (handle_all calls empty_world).rows
handle_all-OncePerWeek_example =
    handle_all-OncePerWeek calls empty_world 0
      (
        omega arith,
        refl,
        view-HasEachOnce 7,
        (omega arith, refl, view-HasEachOnce 7, (omega arith, refl, view-HasEachOnce 8, tt)),
      )
      (record { keyed = tt; once = λ o a v. (omega arith, omega arith) })

-- A table in which one user has viewed already, and the view of another that joins it.
abbrev one_seen : Notification
one_seen = record (view 6) { id = 5 ∷ []; created_at = 8; amount = pos 1 }

abbrev with_one : World
with_one = record { rows = one_seen ∷ []; published = []; pushed = [] }

-- That user comes back after a day, and then another comes.
abbrev came_back : Env
came_back = at 86400000000010 (1 ∷ [])

abbrev came_later : Env
came_later = at 86400000000020 (2 ∷ [])

handle_viewed-lost_example :
    (((handle_viewed came_back (view 6) with_one).0).rows
      ≡ without_viewers (new_row came_back (view 6)) ∷ with_one.rows)
    × (((handle_viewed came_later (view 8) (handle_viewed came_back (view 6) with_one).0).0).rows
        ≡ ((handle_viewed came_back (view 6) with_one).0).rows)
unfolding get_notifications_after select newest_first insert_newest is_after is_for in_any contains
    has_id
handle_viewed-lost_example =
    handle_viewed-lost came_back came_later (6 ∷ []) (8 ∷ []) blank blank one_seen [] with_one refl
      refl refl refl (tt, tt) (omega arith) refl refl refl refl refl refl refl

with_one-AmountChanges : AmountChanges (at 10 (1 ∷ [])) (view 7) with_one.rows
unfolding get_notifications_after select newest_first insert_newest is_after is_for with_new_viewers
    new_viewers in_any contains new_amount concat_data validate unique_strings keep
with_one-AmountChanges m ms given recent =
    let em : one_seen ≡ m = cc in
    let ems : [] ≡ ms = cc in
    let changes : Notification → List Notification → Type 0 = λ k ks.
      eq_ℤ k.amount (
        new_amount (with_new_viewers (k ∷ ks) (view 7)) k
          (concat_data k.notification_data (with_new_viewers (k ∷ ks) (view 7)).notification_data))
      ≡ false in
    subst (λ (k : Notification). changes k ms) em (subst (λ ks. changes one_seen ks) ems refl)

handle_viewed-AllRecorded_example :
    AllRecorded
      (at 10 (1 ∷ []))
      (view 7)
      ((handle_viewed (at 10 (1 ∷ [])) (view 7) with_one).0).rows
unfolding has_id
handle_viewed-AllRecorded_example =
    handle_viewed-AllRecorded (at 10 (1 ∷ [])) (view 7) with_one refl refl refl refl (omega arith)
      (tt, tt) with_one-AmountChanges
