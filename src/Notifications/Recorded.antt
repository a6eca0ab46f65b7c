-- ===== src/Notifications/Recorded.antt =====
-- service/notifications/notifications.go: the viewers of a new notification are among the week's.
use go_mutuals.Prelude.{
  ℕ, ◌+◌, ◌≤◌, ◌<◌, ◌≡◌, refl, sym, subst, Bool, true, false, not, ◌&&◌, List, [], ◌∷◌, ◌++◌, map,
  arith, ltb, lt→ltb, if◌then◌else◌, Bool-cases, inl, inr, ℤ,
}
use go_mutuals.Cursor.Bytes.{Bytes, eq_bytes, eq_bytes_self}
use go_mutuals.Wallets.{eq_ℤ}
use go_mutuals.Notifications.Data.{
  NotificationData, action_viewed_split, concat_data, validate, unique_strings,
}
use go_mutuals.Notifications.Store.{
  Notification, is_for, is_after, get_notifications_after, has_id, update_row, update_notification,
}
use go_mutuals.Notifications.Handlers.{
  Env, World, in_any, new_viewers, authed_of, unauthed_of, with_new_viewers, new_amount,
  insert_and_publish, update_and_publish, group_views, handle_viewed, view_window,
}
use go_mutuals.Notifications.Counts.{
  count, count-append, total, total_some, new_viewers_all, unique_strings_some,
}
use go_mutuals.Notifications.Rows.{
  IsKeyed, In, share, times, total-times, get_notifications_after-In, times-update_notification,
}
use go_mutuals.Notifications.Tables.{new_row, inserted-rows, updated-rows}
use go_mutuals.Notifications.Bounds.{changed}

pub new_row-after :
    (env : Env) (notif : Notification)
    → env.week_start < env.now
    → is_after notif.owner_id notif.action env.week_start (new_row env notif) ≡ true
unfolding is_after is_for
new_row-after env notif h =
    rw (eq_bytes_self notif.owner_id, eq_bytes_self notif.action) (lt→ltb env.week_start env.now h)

module _ (owner action : Bytes) (after : ℕ) (ids_of : Notification → List Bytes) (v : Bytes) where
  share-In :
      (r : Notification) (rows : List Notification)
      → In r rows
      → share owner action after ids_of v r ≤ times owner action after ids_of v rows
  share-In r [] h = absurd h
  share-In r (n ∷ rows) (inl e) =
      subst
        (λ (m : Notification).
          share owner action after ids_of v r
          ≤ share owner action after ids_of v m + times owner action after ids_of v rows)
        e (omega arith)
  share-In r (n ∷ rows) (inr later) = omega (arith, share-In r rows later)

  times_some :
      (notifs rows : List Notification)
      → get_notifications_after owner action after rows ≡ notifs
      → in_any (map ids_of notifs) v ≡ true
      → 1 ≤ times owner action after ids_of v rows
  times_some notifs rows given h =
      subst (λ (k : ℕ). 1 ≤ k) (total-times owner action after ids_of v rows)
        (subst (λ (l : List Notification). 1 ≤ total ids_of v l) (sym given)
          (total_some ids_of v notifs h))

  -- After an insertion of the new viewers.
  recorded_insert :
      (notifs rows : List Notification) (row : Notification) (ids : List Bytes)
      → get_notifications_after owner action after rows ≡ notifs
      → is_after owner action after row ≡ true
      → ids_of row ≡ new_viewers (map ids_of notifs) ids
      → 1 ≤ count v ids
      → 1 ≤ times owner action after ids_of v (row ∷ rows)
  recorded_insert notifs rows row ids given mine is some_id =
      elim (Bool-cases (in_any (map ids_of notifs) v)) [
        | inl held ↦ omega (arith, times_some notifs rows given held)
        | inr new ↦
            rw (mine, is) (omega (arith, new_viewers_all v (map ids_of notifs) ids new, some_id))
      ]

  -- After an update that joins them to those of a row.
  recorded_update :
      (notifs rows : List Notification) (ids : List Bytes) (now : ℕ) (r : Notification)
      (notification_data : NotificationData) (amount : ℤ) (event_ids : List Bytes)
      → get_notifications_after owner action after rows ≡ notifs
      → IsKeyed rows
      → In r rows
      → is_after owner action after r ≡ true
      → is_after owner action after (changed now notification_data amount event_ids r) ≡ true
      → update_row now r.id notification_data amount event_ids r
        ≡ changed now notification_data amount event_ids r
      → ids_of (changed now notification_data amount event_ids r)
        ≡ unique_strings (new_viewers (map ids_of notifs) ids ++ ids_of r)
      → 1 ≤ count v ids
      → 1
        ≤ times owner action after ids_of v
            (update_notification now r.id notification_data amount event_ids rows)
  recorded_update notifs rows ids now r notification_data amount event_ids given keyed here mine
        mine' new_r is some_id =
      let joined = new_viewers (map ids_of notifs) ids ++ ids_of r in
      let moved =
        times-update_notification owner action after ids_of v now r notification_data amount
          event_ids rows keyed here in
      let step = rw (new_r, mine', mine, is) at moved in
      let inside = share-In r rows here in
      let within = rw mine at inside in
      let both = count-append v (new_viewers (map ids_of notifs) ids) (ids_of r) in
      elim (Bool-cases (ltb 0 (count v joined))) [
        | inl some_joined ↦ omega (arith, step, within, unique_strings_some v joined (ground arith))
        | inr none_joined ↦ elim (Bool-cases (in_any (map ids_of notifs) v)) [
          | inl held ↦ ground (arith, step, both, times_some notifs rows given held)
          | inr new ↦ absurd (ground (arith, new_viewers_all v (map ids_of notifs) ids new, both))
        ]
      ]

-- Where the most recent of the week's notifications is of the last day, its amount becomes another one.
abbrev pub AmountChanges : Env → Notification → List Notification → Type 0
AmountChanges env notif rows =
    (m : Notification) (ms : List Notification)
    → get_notifications_after notif.owner_id notif.action env.week_start rows ≡ m ∷ ms
    → ltb env.now (m.created_at + view_window) ≡ true
    → let notif' = with_new_viewers (m ∷ ms) notif in
      eq_ℤ m.amount (new_amount notif' m (concat_data m.notification_data notif'.notification_data))
      ≡ false

update_row_changes :
    (now : ℕ) (r : Notification) (notification_data : NotificationData) (amount : ℤ)
    (event_ids : List Bytes)
    → r.deleted ≡ false
    → eq_ℤ r.amount amount ≡ false
    → update_row now r.id notification_data amount event_ids r
      ≡ changed now notification_data amount event_ids r
unfolding update_row
update_row_changes now r notification_data amount event_ids live new =
    let all : (eq_bytes r.id r.id && not r.deleted && not (eq_ℤ r.amount amount)) ≡ true =
      rw (eq_bytes_self r.id, live, new) refl in
    rw all refl

not_all : (b c d : Bool) → ((b && c && false) && d) ≡ true → ⊥
not_all true true d h = cc
not_all true false d h = cc
not_all false c d h = cc

is_after-live :
    (o a : Bytes) (after : ℕ) (n : Notification) → is_after o a after n ≡ true → n.deleted ≡ false
unfolding is_after is_for
is_after-live o a after n h = elim (Bool-cases n.deleted) [
  | inl gone ↦ absurd (
      not_all (eq_bytes n.owner_id o) (eq_bytes n.action a) (ltb after n.created_at) (rw gone at h))
  | inr live ↦ live
]

-- The viewers of a notification are all among those of the owner's week.
abbrev pub AllRecorded : Env → Notification → List Notification → Type 0
AllRecorded env notif rows =
    (v : Bytes)
    → (1 ≤ count v (authed_of notif)
        → 1 ≤ times notif.owner_id notif.action env.week_start authed_of v rows)
      × (1 ≤ count v (unauthed_of notif)
          → 1 ≤ times notif.owner_id notif.action env.week_start unauthed_of v rows)

new_viewers_none : (ids : List Bytes) → new_viewers [] ids ≡ ids
unfolding new_viewers in_any
new_viewers_none [] = refl
new_viewers_none (id ∷ ids) = rw (new_viewers_none ids) refl

module _ (env : Env) (notif : Notification) (w : World)
    (viewed : notif.action ≡ action_viewed_split) (works : env.writes_fail ≡ false)
    (fresh : has_id env.new_id w.rows ≡ false) (started : env.week_start < env.now) where
  insert-AllRecorded :
      (notifs : List Notification) (joined : NotificationData)
      → get_notifications_after notif.owner_id notif.action env.week_start w.rows ≡ notifs
      → joined.authed_viewer_ids ≡ new_viewers (map authed_of notifs) (authed_of notif)
      → joined.unauthed_viewer_ids ≡ new_viewers (map unauthed_of notifs) (unauthed_of notif)
      → let notif' = record notif { notification_data = joined } in
        AllRecorded env notif ((insert_and_publish env notif' w).0).rows
  insert-AllRecorded notifs joined given is is' =
      let notif' = record notif { notification_data = joined } in
      let mine = new_row-after env notif' started in
      subst (AllRecorded env notif) (sym (inserted-rows env notif' w viewed works fresh)) (λ v. (
        recorded_insert notif.owner_id notif.action env.week_start authed_of v notifs w.rows
            (new_row env notif') (authed_of notif) given mine is,
        recorded_insert notif.owner_id notif.action env.week_start unauthed_of v notifs w.rows
            (new_row env notif') (unauthed_of notif) given mine is',
      ))

  update-AllRecorded :
      (m : Notification) (ms : List Notification)
      → get_notifications_after notif.owner_id notif.action env.week_start w.rows ≡ m ∷ ms
      → IsKeyed w.rows
      → AmountChanges env notif w.rows
      → ltb env.now (m.created_at + view_window) ≡ true
      → AllRecorded env notif
          ((update_and_publish env (with_new_viewers (m ∷ ms) notif) m w).0).rows
  unfolding with_new_viewers concat_data validate is_after is_for
  update-AllRecorded m ms given keyed changes recent =
      let notif' = with_new_viewers (m ∷ ms) notif in
      let joined = concat_data m.notification_data notif'.notification_data in
      let amount = new_amount notif' m joined in
      let here =
        get_notifications_after-In notif.owner_id notif.action env.week_start m w.rows
          (subst (λ (l : List Notification). In m l) (sym given) (inl refl)) in
      let new =
        update_row_changes env.now m joined amount notif.event_ids
          (is_after-live notif.owner_id notif.action env.week_start m here.1)
          (changes m ms given recent) in
      subst (AllRecorded env notif) (sym (updated-rows env notif' m w works)) (λ v. (
        recorded_update notif.owner_id notif.action env.week_start authed_of v (m ∷ ms) w.rows
            (authed_of notif) env.now m joined amount notif.event_ids given keyed here.0 here.1
            here.1 new refl,
        recorded_update notif.owner_id notif.action env.week_start unauthed_of v (m ∷ ms) w.rows
            (unauthed_of notif) env.now m joined amount notif.event_ids given keyed here.0 here.1
            here.1 new refl,
      ))

  group_views-AllRecorded :
      (notifs : List Notification)
      → get_notifications_after notif.owner_id notif.action env.week_start w.rows ≡ notifs
      → IsKeyed w.rows
      → AmountChanges env notif w.rows
      → AllRecorded env notif ((group_views env notif notifs w).0).rows
  unfolding group_views with_new_viewers
  group_views-AllRecorded [] given keyed changes =
      insert-AllRecorded [] notif.notification_data given (sym (new_viewers_none (authed_of notif)))
        (sym (new_viewers_none (unauthed_of notif)))
  group_views-AllRecorded (m ∷ ms) given keyed changes =
      elim (Bool-cases (ltb env.now (m.created_at + view_window))) [
        | inl recent ↦ rw recent (update-AllRecorded m ms given keyed changes recent)
        | inr old ↦ rw old (insert-AllRecorded (m ∷ ms) _ given refl refl)
      ]

-- A call of the handler of views whose reads and writes succeed, with a fresh id and after the beginning
-- of the week, leaves every viewer of its notification among those of the owner's notifications of the
-- week, on each branch: when there is no notification of the week, when it inserts another one a day after
-- the most recent, and when it joins them to the most recent of the last day. On the last branch only, the
-- amount of that one must change.
pub handle_viewed-AllRecorded :
    (env : Env) (notif : Notification) (w : World)
    → notif.action ≡ action_viewed_split
    → env.reads_fail ≡ false
    → env.writes_fail ≡ false
    → has_id env.new_id w.rows ≡ false
    → env.week_start < env.now
    → IsKeyed w.rows
    → AmountChanges env notif w.rows
    → AllRecorded env notif ((handle_viewed env notif w).0).rows
unfolding handle_viewed
handle_viewed-AllRecorded env notif w viewed reads works fresh started keyed changes =
    let notifs = get_notifications_after notif.owner_id notif.action env.week_start w.rows in
    subst
      (λ (b : Bool).
        AllRecorded env notif ((group_views env notif (if b then [] else notifs) w).0).rows)
      (sym reads)
      (group_views-AllRecorded env notif w viewed works fresh started notifs refl keyed changes)
