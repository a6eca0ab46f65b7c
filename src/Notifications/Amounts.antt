-- ===== src/Notifications/Amounts.antt =====
-- service/notifications/notifications.go: the amount of a notification, and the updates that it stops.
use go_mutuals.Prelude.{
  ℕ, ◌+◌, ◌<◌, ◌≡◌, refl, sym, subst, Bool, true, false, not, ◌&&◌, List, [], ◌∷◌, map, ltb, pos,
  inl, arith,
}
use go_mutuals.Cursor.Bytes.{Bytes, eq_bytes, eq_bytes_self}
use go_mutuals.Slices.{keep, contains}
use go_mutuals.Wallets.{eq_ℤ}
use go_mutuals.Notifications.Data.{
  NotificationData, action_viewed_split, concat_data, validate, unique_strings,
}
use go_mutuals.Notifications.Store.{
  Notification, is_after, select, insert_newest, newest_first, get_notifications_after, has_id,
  update_row,
}
use go_mutuals.Notifications.Handlers.{
  Env, World, in_any, new_viewers, authed_of, with_new_viewers, new_amount, group_views,
  handle_viewed, view_window,
}
use go_mutuals.Notifications.Rows.{
  IsKeyed, In, get_notifications_after-In, update_notification_same, has_id-others,
}
use go_mutuals.Notifications.Tables.{new_row, inserted-rows, update_and_publish-rows}
use go_mutuals.Notifications.Recorded.{new_row-after}

-- A view by one user, and a notification that has no viewers.
abbrev pub view_by : Bytes → Notification → Notification
view_by v notif = record notif {
  action = action_viewed_split;
  notification_data = record (notif.notification_data) {
    authed_viewer_ids = v ∷ [];
    unauthed_viewer_ids = [];
  };
}

abbrev pub without_viewers : Notification → Notification
without_viewers m = record m {
  amount = pos 1;
  notification_data = record (m.notification_data) {
    authed_viewer_ids = [];
    unauthed_viewer_ids = [];
  };
}

module _ (v : Bytes) (notif empty : Notification) (ms : List Notification) where
  one_viewer :
      in_any (map authed_of (without_viewers empty ∷ ms)) v ≡ false
      → let notif' = with_new_viewers (without_viewers empty ∷ ms) (view_by v notif) in
        new_amount notif'
          (without_viewers empty)
          (concat_data (without_viewers empty).notification_data notif'.notification_data)
        ≡ pos 1
  unfolding with_new_viewers new_viewers new_amount concat_data validate unique_strings keep
  one_viewer new = rw new refl

and_false : (b : Bool) → (b && false) ≡ false
and_false true = refl
and_false false = refl

update_row_same :
    (now : ℕ) (m : Notification) (notification_data : NotificationData) (event_ids : List Bytes)
    → m.amount ≡ pos 1
    → update_row now m.id notification_data (pos 1) event_ids m ≡ m
unfolding update_row
update_row_same now m notification_data event_ids same =
    let never : (eq_bytes m.id m.id && not m.deleted && not (eq_ℤ m.amount (pos 1))) ≡ false =
      rw (same, eq_bytes_self m.id) (and_false (not m.deleted)) in
    rw never refl

-- The first new viewer after a notification of the last day that has none.
passed_over :
    (env : Env) (v : Bytes) (notif empty : Notification) (ms : List Notification) (w : World)
    → env.reads_fail ≡ false
    → IsKeyed w.rows
    → get_notifications_after notif.owner_id action_viewed_split env.week_start w.rows
      ≡ without_viewers empty ∷ ms
    → ltb env.now (empty.created_at + view_window) ≡ true
    → in_any (map authed_of (without_viewers empty ∷ ms)) v ≡ false
    → ((handle_viewed env (view_by v notif) w).0).rows ≡ w.rows
unfolding handle_viewed group_views with_new_viewers
passed_over env v notif empty ms w reads keyed given recent new =
    let m = without_viewers empty in
    let here =
      get_notifications_after-In notif.owner_id action_viewed_split env.week_start m w.rows
        (subst (λ (l : List Notification). In m l) (sym given) (inl refl)) in
    simp (reads, given, recent)
      (update_and_publish-rows (λ rows. rows ≡ w.rows) env
        (with_new_viewers (m ∷ ms) (view_by v notif)) w m refl
        (rw (one_viewer v notif empty ms new) (
          update_notification_same env.now m _ (pos 1) notif.event_ids w.rows keyed here.0
            (update_row_same env.now m _ notif.event_ids refl))))

-- A row that is newer than all the week's comes first.
get_notifications_after-newest :
    (owner action : Bytes) (after : ℕ) (r m : Notification) (rows ms : List Notification)
    → is_after owner action after r ≡ true
    → get_notifications_after owner action after rows ≡ m ∷ ms
    → ltb r.created_at m.created_at ≡ false
    → get_notifications_after owner action after (r ∷ rows) ≡ r ∷ m ∷ ms
unfolding get_notifications_after select newest_first insert_newest
get_notifications_after-newest owner action after r m rows ms mine given newer =
    rw (mine, given) (rw newer refl)

module _ (env : Env) (v : Bytes) (notif m : Notification) (ms : List Notification) (w : World)
    (works : env.writes_fail ≡ false) (reads : env.reads_fail ≡ false)
    (fresh : has_id env.new_id w.rows ≡ false)
    (given : get_notifications_after notif.owner_id action_viewed_split env.week_start w.rows
      ≡ m ∷ ms)
    (old : ltb env.now (m.created_at + view_window) ≡ false) where
  -- A viewer of the week who comes back a day after the most recent notification.
  inserted_blank :
      in_any (map authed_of (m ∷ ms)) v ≡ true
      → ((handle_viewed env (view_by v notif) w).0).rows
        ≡ without_viewers (new_row env (view_by v notif)) ∷ w.rows
  unfolding handle_viewed group_views with_new_viewers new_viewers
  inserted_blank seen =
      simp (reads, given, old, seen)
        (inserted-rows env (record (without_viewers (view_by v notif)) { amount = notif.amount }) w
          refl works fresh)

  blank-first :
      env.week_start < env.now
      → get_notifications_after notif.owner_id action_viewed_split env.week_start
          (without_viewers (new_row env (view_by v notif)) ∷ w.rows)
        ≡ without_viewers (new_row env (view_by v notif)) ∷ m ∷ ms
  blank-first started =
      get_notifications_after-newest notif.owner_id action_viewed_split env.week_start
        (without_viewers (new_row env (view_by v notif))) m w.rows ms
        (new_row-after env (without_viewers (view_by v notif)) started) given (ground (arith, old))

-- A view by a viewer of the week, a day or more after the week's most recent notification, inserts a row
-- without viewers, whose amount is 1. A later view by a user who is not among the week's viewers, within a
-- day and in the same week, is joined to that row and makes its viewers one, which is its amount already:
-- `UpdateNotification` passes the row over, and the second view leaves the table as it was. The first
-- call's reads and writes and the second's reads succeed, the first's id is fresh, ids are keys, and the
-- first call comes after the beginning of the week.
pub handle_viewed-lost :
    (env later : Env) (back new : Bytes) (notif next m : Notification) (ms : List Notification)
    (w : World)
    → env.reads_fail ≡ false
    → env.writes_fail ≡ false
    → later.reads_fail ≡ false
    → has_id env.new_id w.rows ≡ false
    → IsKeyed w.rows
    → env.week_start < env.now
    → later.week_start ≡ env.week_start
    → next.owner_id ≡ notif.owner_id
    → get_notifications_after notif.owner_id action_viewed_split env.week_start w.rows ≡ m ∷ ms
    → ltb env.now (m.created_at + view_window) ≡ false
    → in_any (map authed_of (m ∷ ms)) back ≡ true
    → in_any (map authed_of (m ∷ ms)) new ≡ false
    → ltb later.now (env.now + view_window) ≡ true
    → (let blank = without_viewers (new_row env (view_by back notif)) in
        let w' = (handle_viewed env (view_by back notif) w).0 in
        (w'.rows ≡ blank ∷ w.rows)
        × (((handle_viewed later (view_by new next) w').0).rows ≡ w'.rows))
unfolding in_any contains
handle_viewed-lost env later back new notif next m ms w reads writes later_reads fresh keyed started
      same_week same_owner given old seen unseen recent =
    let w' = (handle_viewed env (view_by back notif) w).0 in
    let row = new_row env (view_by back notif) in
    let inserted = inserted_blank env back notif m ms w writes reads fresh given old seen in
    (
      inserted,
      passed_over later new next row (m ∷ ms) w' later_reads
          (subst IsKeyed (sym inserted) (has_id-others env.new_id w.rows fresh, keyed))
          (rw (same_owner, same_week, inserted)
            (blank-first env back notif m ms w writes reads fresh given old started))
          recent unseen,
    )
