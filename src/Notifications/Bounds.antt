-- ===== src/Notifications/Bounds.antt =====
-- An id stands at most once among the viewers of an owner's notifications since a time: when a row is
-- inserted, and when one is updated.
use go_mutuals.Prelude.{
  ℕ, ◌+◌, ◌≤◌, ◌≡◌, ◌⊎◌, refl, sym, ◌∙◌, subst, true, false, not, ◌&&◌, List, ◌∷◌, ◌++◌, map, arith,
  Bool-cases, inl, inr, ℤ,
}
use go_mutuals.Cursor.Bytes.{Bytes, eq_bytes, eq_bytes→eq}
use go_mutuals.Wallets.{eq_ℤ}
use go_mutuals.Notifications.Data.{NotificationData, unique_strings}
use go_mutuals.Notifications.Store.{
  Notification, is_for, is_after, get_notifications_after, update_row, update_notification,
}
use go_mutuals.Notifications.Handlers.{in_any, new_viewers}
use go_mutuals.Notifications.Counts.{
  count, count-append, count-unique_strings, count-new_viewers, total, total_none,
}
use go_mutuals.Notifications.Rows.{IsKeyed, In, times, total-times, times-update_notification}

is_after-owner :
    (o a : Bytes) (after : ℕ) (n : Notification)
    → is_after o a after n ≡ true
    → (n.owner_id ≡ o) × (n.action ≡ a)
unfolding is_after is_for
is_after-owner o a after n h = elim (Bool-cases (eq_bytes n.owner_id o)) [
  | inl owner ↦ elim (Bool-cases (eq_bytes n.action a)) [
    | inl action ↦ (eq_bytes→eq n.owner_id o owner, eq_bytes→eq n.action a action)
    | inr other ↦ let f : false ≡ true = rw (owner, other) at h in cc
  ]
  | inr other ↦ let f : false ≡ true = rw other at h in cc
]

-- The row that `UpdateNotification` writes.
abbrev pub changed : ℕ → NotificationData → ℤ → List Bytes → Notification → Notification
changed now notification_data amount event_ids n = record n {
  notification_data = notification_data;
  event_ids = n.event_ids ++ event_ids;
  amount = amount;
  last_updated = now;
  seen = false;
}

update_row-changed :
    (now : ℕ) (id : Bytes) (notification_data : NotificationData) (amount : ℤ)
    (event_ids : List Bytes) (n : Notification)
    → (update_row now id notification_data amount event_ids n ≡ n)
      ⊎ (update_row now id notification_data amount event_ids n
          ≡ changed now notification_data amount event_ids n)
unfolding update_row
update_row-changed now id notification_data amount event_ids n =
    elim (Bool-cases (eq_bytes n.id id && not n.deleted && not (eq_ℤ n.amount amount))) [
      | inl new ↦ inr (rw new refl)
      | inr left ↦ inl (rw left refl)
    ]

module _ (after : ℕ) (ids_of : Notification → List Bytes) (v : Bytes) (owner action : Bytes) where
  -- The bound for one owner and action, from that for those of the row.
  pub once-insert :
      (row : Notification) (rows : List Notification)
      → row.owner_id ≡ owner
      → row.action ≡ action
      → count v (ids_of row) + times owner action after ids_of v rows ≤ 1
      → (o a : Bytes) → times o a after ids_of v rows ≤ 1
      → times o a after ids_of v (row ∷ rows) ≤ 1
  once-insert row rows eo ea bound o a before = elim (Bool-cases (is_after o a after row)) [
    | inl mine ↦
        let is = is_after-owner o a after row mine in
        let bound' : count v (ids_of row) + times o a after ids_of v rows ≤ 1 =
          subst (λ (o' : Bytes). count v (ids_of row) + times o' a after ids_of v rows ≤ 1)
            (sym eo ∙ is.0)
            (subst (λ (a' : Bytes). count v (ids_of row) + times owner a' after ids_of v rows ≤ 1)
              (sym ea ∙ is.1) bound) in
        rw mine bound'
    | inr other ↦ rw other (omega (arith, before))
  ]

  share-changed :
      (now : ℕ) (notification_data : NotificationData) (amount : ℤ) (event_ids : List Bytes)
      (n : Notification) (o a : Bytes)
      → is_after o a after (changed now notification_data amount event_ids n) ≡ is_after o a after n
  unfolding is_after is_for
  share-changed now notification_data amount event_ids n o a = refl

  pub once-update :
      (now : ℕ) (r : Notification) (notification_data : NotificationData) (amount : ℤ)
      (event_ids : List Bytes) (rows : List Notification)
      → IsKeyed rows
      → In r rows
      → is_after owner action after r ≡ true
      → count v (ids_of (changed now notification_data amount event_ids r))
          + times owner action after ids_of v rows
        ≤ count v (ids_of r) + 1
      → (o a : Bytes) → times o a after ids_of v rows ≤ 1
      → times o a after ids_of v
          (update_notification now r.id notification_data amount event_ids rows)
        ≤ 1
  once-update now r notification_data amount event_ids rows keyed here mine bound o a before =
      let step =
        times-update_notification o a after ids_of v now r notification_data amount event_ids rows
          keyed here in
      elim (update_row-changed now r.id notification_data amount event_ids r) [
        | inl same ↦ omega (arith, rw same at step)
        | inr new ↦
            let step' =
              rw (new, share-changed now notification_data amount event_ids r o a) at step in
            elim (Bool-cases (is_after o a after r)) [
              | inl ours ↦
                  let is = is_after-owner o a after r ours in
                  let was = is_after-owner owner action after r mine in
                  let bound' : count v (ids_of (changed now notification_data amount event_ids r))
                        + times o a after ids_of v rows
                      ≤ count v (ids_of r) + 1 =
                    subst
                      (λ (o' : Bytes).
                        count v (ids_of (changed now notification_data amount event_ids r))
                          + times o' a after ids_of v rows
                        ≤ count v (ids_of r) + 1)
                      (sym was.0 ∙ is.0)
                      (subst
                        (λ (a' : Bytes).
                          count v (ids_of (changed now notification_data amount event_ids r))
                            + times owner a' after ids_of v rows
                          ≤ count v (ids_of r) + 1)
                        (sym was.1 ∙ is.1) bound) in
                  omega (arith, bound', rw ours at step')
              | inr other ↦ omega (arith, before, rw other at step')
            ]
      ]

  module _ (notifs rows : List Notification)
      (given : get_notifications_after owner action after rows ≡ notifs) where
    -- Those who are in none of the notifications that the query gives are in no row of its.
    pub times_none :
        in_any (map ids_of notifs) v ≡ false → times owner action after ids_of v rows ≡ 0
    times_none h =
        sym (total-times owner action after ids_of v rows)
        ∙ subst (λ (l : List Notification). total ids_of v l ≡ 0) (sym given)
            (total_none ids_of v notifs h)

    pub new_viewers-bound :
        (ids : List Bytes)
        → count v ids ≤ 1
        → times owner action after ids_of v rows ≤ 1
        → count v (new_viewers (map ids_of notifs) ids) + times owner action after ids_of v rows ≤ 1
    new_viewers-bound ids once before =
        let new = count-new_viewers v (map ids_of notifs) ids in
        elim (Bool-cases (in_any (map ids_of notifs) v)) [
          | inl held ↦ omega (arith, new.1 held, before)
          | inr missing ↦ omega (arith, new.0, times_none missing, once)
        ]

    pub unique_strings-bound :
        (ids old : List Bytes)
        → times owner action after ids_of v rows ≤ 1
        → count v (unique_strings (new_viewers (map ids_of notifs) ids ++ old))
            + times owner action after ids_of v rows
          ≤ count v old + 1
    unique_strings-bound ids old before =
        let new = count-new_viewers v (map ids_of notifs) ids in
        let unique = count-unique_strings v (new_viewers (map ids_of notifs) ids ++ old) in
        let both = count-append v (new_viewers (map ids_of notifs) ids) old in
        elim (Bool-cases (in_any (map ids_of notifs) v)) [
          | inl held ↦ omega (arith, new.1 held, before, unique.0, both)
          | inr missing ↦ omega (arith, times_none missing, unique.1)
        ]
