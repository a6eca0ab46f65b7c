-- ===== src/Notifications/Tables.antt =====
-- What the handlers make of the table of notifications.
use go_mutuals.Prelude.{
  ◌≡◌, refl, sym, ◌∙◌, subst, Bool, false, List, ◌∷◌, if◌then◌else◌, Bool-cases, inl, inr, pos,
  Outcome, ok, err, panics,
}
use go_mutuals.Cursor.Bytes.{Bytes, eq_bytes}
use go_mutuals.Notifications.Data.{action_viewed_split}
use go_mutuals.Notifications.Store.{
  Notification, Failure, write_failed, duplicate_key, unknown_action, has_id,
  create_view_split_notification,
}
use go_mutuals.Notifications.Push.{PushMessage}
use go_mutuals.Notifications.Handlers.{
  Env, World, Handled, Published, new_notification, updated_notification, and_then, after_push,
  after_insert, after_reread, push, publish_message, send_notifications, add_notification,
  insert_and_publish, publish_updated, updated, update_and_publish,
}

and_then-rows :
    (h : Handled) (next : World → Handled)
    → ((w : World) → (next w).0.rows ≡ w.rows)
    → (and_then h next).0.rows ≡ (h.0).rows
unfolding and_then
and_then-rows (w, ok done) next same = same w
and_then-rows (w, err e) next same = refl
and_then-rows (w, panics) next same = refl

after_push-rows :
    (w : World) (sent : Outcome Failure (List PushMessage)) → ((after_push w sent).0).rows ≡ w.rows
after_push-rows w (ok messages) = refl
after_push-rows w (err e) = refl
after_push-rows w panics = refl

push-rows : (env : Env) (notif : Notification) (w : World) → ((push env notif w).0).rows ≡ w.rows
unfolding push
push-rows env notif w = after_push-rows w _

publish_message-rows :
    (env : Env) (message : Published) (w : World)
    → ((publish_message env message w).0).rows ≡ w.rows
unfolding publish_message
publish_message-rows env message w = elim (Bool-cases env.publishing_fails) [
  | inl fails ↦ rw fails refl
  | inr works ↦ rw works refl
]

after_reread-rows :
    (env : Env) (w : World) (found : Outcome Failure Notification)
    → ((after_reread env w found).0).rows ≡ w.rows
after_reread-rows env w (ok row) = publish_message-rows env (updated_notification row) w
after_reread-rows env w (err e) = refl
after_reread-rows env w panics = refl

publish_updated-rows :
    (env : Env) (id : Bytes) (w : World) → ((publish_updated env id w).0).rows ≡ w.rows
unfolding publish_updated
publish_updated-rows env id w = after_reread-rows env w _

send_notifications-rows :
    (env : Env) (notif : Notification) (w : World)
    → ((send_notifications env notif w).0).rows ≡ w.rows
unfolding send_notifications
send_notifications-rows env notif w =
    and_then-rows (push env notif w) (publish_message env (new_notification notif))
      (publish_message-rows env (new_notification notif))
    ∙ push-rows env notif w

-- The row of a notification that is inserted.
abbrev pub new_row : Env → Notification → Notification
new_row env notif = record {
  id = env.new_id;
  deleted = false;
  owner_id = notif.owner_id;
  last_updated = env.now;
  created_at = env.now;
  action = notif.action;
  notification_data = notif.notification_data;
  event_ids = notif.event_ids;
  split_id = notif.split_id;
  seen = false;
  amount = pos 1;
}

-- Either nothing is inserted, or a row of a fresh id.
pub data Added (env : Env) (notif : Notification) (rows : List Notification)
    : Outcome Failure Notification → Type 0 where
  not_added : (e : Failure) → Added env notif rows (err e)
  added : has_id env.new_id rows ≡ false → Added env notif rows (ok (new_row env notif))

add_notification-Added :
    (env : Env) (notif : Notification) (rows : List Notification)
    → Added env notif rows (add_notification env notif rows)
unfolding add_notification create_view_split_notification
add_notification-Added env notif rows =
    elim (Bool-cases (eq_bytes notif.action action_viewed_split)) [
      | inl viewed ↦ elim (Bool-cases env.writes_fail) [
        | inl fails ↦ rw (viewed, fails) (not_added write_failed)
        | inr works ↦ elim (Bool-cases (has_id env.new_id rows)) [
          | inl held ↦ rw (viewed, works, held) (not_added duplicate_key)
          | inr fresh ↦ rw (viewed, works, fresh) (added fresh)
        ]
      ]
      | inr other ↦ rw other (not_added unknown_action)
    ]

module _ (P : List Notification → Type 0) (env : Env) (notif : Notification) (w : World) where
  after_insert-rows :
      (row : Outcome Failure Notification)
      → Added env notif w.rows row
      → P w.rows
      → (has_id env.new_id w.rows ≡ false → P (new_row env notif ∷ w.rows))
      → P ((after_insert env w row).0).rows
  after_insert-rows row (not_added e) before after = before
  after_insert-rows row (added fresh) before after =
      subst P (sym (send_notifications-rows env (new_row env notif) _)) (after fresh)

  pub insert_and_publish-rows :
      P w.rows
      → (has_id env.new_id w.rows ≡ false → P (new_row env notif ∷ w.rows))
      → P ((insert_and_publish env notif w).0).rows
  unfolding insert_and_publish
  insert_and_publish-rows = after_insert-rows _ (add_notification-Added env notif w.rows)

  -- Either nothing is updated, or the most recent row is.
  pub update_and_publish-rows :
      (most_recent : Notification)
      → P w.rows
      → P (updated env notif most_recent w).rows
      → P ((update_and_publish env notif most_recent w).0).rows
  unfolding update_and_publish
  update_and_publish-rows most_recent before after =
      let changed = updated env notif most_recent w in
      let same : ((and_then (push env notif changed) (publish_updated env most_recent.id)).0).rows
          ≡ changed.rows =
        and_then-rows (push env notif changed) (publish_updated env most_recent.id)
          (publish_updated-rows env most_recent.id)
        ∙ push-rows env notif changed in
      elim (Bool-cases env.writes_fail) [
        | inl fails ↦
            subst
              (λ (b : Bool).
                P
                  ((if b
                      then (w, err write_failed)
                      else and_then (push env notif changed) (publish_updated env most_recent.id)).0
                    ).rows)
              (sym fails) before
        | inr works ↦
            subst
              (λ (b : Bool).
                P
                  ((if b
                      then (w, err write_failed)
                      else and_then (push env notif changed) (publish_updated env most_recent.id)).0
                    ).rows)
              (sym works) (subst P (sym same) after)
      ]

-- Where the writes succeed, the row is inserted, and the update made.
pub inserted-rows :
    (env : Env) (notif : Notification) (w : World)
    → notif.action ≡ action_viewed_split
    → env.writes_fail ≡ false
    → has_id env.new_id w.rows ≡ false
    → ((insert_and_publish env notif w).0).rows ≡ new_row env notif ∷ w.rows
unfolding insert_and_publish add_notification create_view_split_notification
inserted-rows env notif w viewed works fresh =
    let added : add_notification env notif w.rows ≡ ok (new_row env notif) =
      simp (viewed, works, fresh) refl in
    subst (λ o. ((after_insert env w o).0).rows ≡ new_row env notif ∷ w.rows) (sym added)
      (send_notifications-rows env (new_row env notif) _)

pub updated-rows :
    (env : Env) (notif most_recent : Notification) (w : World)
    → env.writes_fail ≡ false
    → ((update_and_publish env notif most_recent w).0).rows ≡ (updated env notif most_recent w).rows
unfolding update_and_publish
updated-rows env notif most_recent w works =
    let changed = updated env notif most_recent w in
    subst
      (λ (b : Bool).
        ((if b
          then (w, err write_failed)
          else and_then (push env notif changed) (publish_updated env most_recent.id)).0
        ).rows
        ≡ changed.rows)
      (sym works)
      (and_then-rows (push env notif changed) (publish_updated env most_recent.id)
          (publish_updated-rows env most_recent.id)
        ∙ push-rows env notif changed)
