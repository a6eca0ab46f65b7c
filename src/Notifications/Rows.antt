-- ===== src/Notifications/Rows.antt =====
-- What the statements do to the viewers of an owner's notifications since a time.
use go_mutuals.Prelude.{
  ℕ, ◌+◌, ◌≡◌, ◌≢◌, ◌⊎◌, refl, sym, ap, ◌∙◌, subst, Bool, true, false, not, ◌&&◌, List, [], ◌∷◌,
  arith, ltb, if◌then◌else◌, All, Bool-cases, inl, inr, ℤ,
}
use go_mutuals.Cursor.Bytes.{Bytes, eq_bytes, eq_bytes→eq, eq_bytes_self}
use go_mutuals.Wallets.{eq_ℤ}
use go_mutuals.Notifications.Data.{NotificationData}
use go_mutuals.Notifications.Store.{
  Notification, is_after, select, insert_newest, newest_first, get_notifications_after, has_id,
  update_row, update_notification,
}
use go_mutuals.Notifications.Counts.{count, total, total-newest_first}

-- Ids are keys of the table.
abbrev pub IsKeyed : List Notification → Type 0
IsKeyed [] = Unit
IsKeyed (n ∷ rows) = All (λ m. m.id ≢ n.id) rows × IsKeyed rows

abbrev pub In : Notification → List Notification → Type 0
In r [] = ⊥
In r (n ∷ rows) = (r ≡ n) ⊎ In r rows

module _ (test : Notification → Bool) where
  In-select :
      (r : Notification) (rows : List Notification)
      → In r (select test rows)
      → In r rows × (test r ≡ true)
  unfolding select
  In-select r [] h = absurd h
  In-select r (n ∷ rows) h = elim (Bool-cases (test n)) [
    | inl passes ↦ elim (rw passes at h) [
      | inl e ↦ (inl e, subst (λ m. test m ≡ true) (sym e) passes)
      | inr later ↦ let found = In-select r rows later in (inr found.0, found.1)
    ]
    | inr fails ↦ let found = In-select r rows (rw fails at h) in (inr found.0, found.1)
  ]

In-insert_newest :
    (r n : Notification) (rows : List Notification)
    → In r (insert_newest n rows)
    → (r ≡ n) ⊎ In r rows
unfolding insert_newest
In-insert_newest r n [] h = h
In-insert_newest r n (m ∷ rows) h = elim (Bool-cases (ltb n.created_at m.created_at)) [
  | inl older ↦ elim (rw older at h) [
    | inl e ↦ inr (inl e)
    | inr later ↦ elim (In-insert_newest r n rows later) [ inl e ↦ inl e | inr l ↦ inr (inr l) ]
  ]
  | inr newer ↦ rw newer at h
]

In-newest_first :
    (r : Notification) (rows : List Notification) → In r (newest_first rows) → In r rows
unfolding newest_first
In-newest_first r [] h = h
In-newest_first r (n ∷ rows) h = elim (In-insert_newest r n (newest_first rows) h) [
  | inl e ↦ inl e
  | inr later ↦ inr (In-newest_first r rows later)
]

module _ (owner_id action : Bytes) (after : ℕ) where
  -- A row that the query gives is in the table, and the query's.
  pub get_notifications_after-In :
      (r : Notification) (rows : List Notification)
      → In r (get_notifications_after owner_id action after rows)
      → In r rows × (is_after owner_id action after r ≡ true)
  unfolding get_notifications_after
  get_notifications_after-In r rows h =
      In-select (is_after owner_id action after) r rows
        (In-newest_first r (select (is_after owner_id action after) rows) h)

module _ (owner_id action : Bytes) (after : ℕ) (ids_of : Notification → List Bytes)
    (v : Bytes) where
  -- How often an id stands among the viewers of the notifications that the query gives.
  abbrev pub share : Notification → ℕ
  share n = if is_after owner_id action after n then count v (ids_of n) else 0

  abbrev pub times : List Notification → ℕ
  times [] = 0
  times (n ∷ rows) = share n + times rows

  total-select :
      (rows : List Notification)
      → total ids_of v (select (is_after owner_id action after) rows) ≡ times rows
  unfolding select
  total-select [] = refl
  total-select (n ∷ rows) = elim (Bool-cases (is_after owner_id action after n)) [
    | inl passes ↦ rw passes (omega (arith, total-select rows))
    | inr fails ↦ rw fails (omega (arith, total-select rows))
  ]

  pub total-times :
      (rows : List Notification)
      → total ids_of v (get_notifications_after owner_id action after rows) ≡ times rows
  unfolding get_notifications_after
  total-times rows =
      total-newest_first ids_of v (select (is_after owner_id action after) rows) ∙ total-select rows

module _ (now : ℕ) (id : Bytes) (notification_data : NotificationData) (amount : ℤ)
    (event_ids : List Bytes) where
  update_row_other :
      (n : Notification) → n.id ≢ id → update_row now id notification_data amount event_ids n ≡ n
  unfolding update_row
  update_row_other n other = elim (Bool-cases (eq_bytes n.id id)) [
    | inl same ↦ absurd (other (eq_bytes→eq n.id id same))
    | inr differs ↦ rw differs refl
  ]

  update_notification_others :
      (rows : List Notification)
      → All (λ m. m.id ≢ id) rows
      → update_notification now id notification_data amount event_ids rows ≡ rows
  unfolding update_notification
  update_notification_others [] h = refl
  update_notification_others (n ∷ rows) (other, h) =
      rw (update_row_other n other, update_notification_others rows h) refl

  update_row-id :
      (n : Notification) → (update_row now id notification_data amount event_ids n).id ≡ n.id
  unfolding update_row
  update_row-id n =
      elim (Bool-cases (eq_bytes n.id id && not n.deleted && not (eq_ℤ n.amount amount))) [
        | inl changed ↦ rw changed refl
        | inr left ↦ rw left refl
      ]

  update_notification-others :
      (m : Notification) (rows : List Notification)
      → All (λ k. k.id ≢ m.id) rows
      → All (λ k. k.id ≢ m.id) (update_notification now id notification_data amount event_ids rows)
  unfolding update_notification
  update_notification-others m [] h = tt
  update_notification-others m (n ∷ rows) (other, h) =
      (λ e. other (sym (update_row-id n) ∙ e), update_notification-others m rows h)

  pub update_notification-IsKeyed :
      (rows : List Notification)
      → IsKeyed rows
      → IsKeyed (update_notification now id notification_data amount event_ids rows)
  unfolding update_notification
  update_notification-IsKeyed [] h = tt
  update_notification-IsKeyed (n ∷ rows) (others, h) =
      let same = update_row-id n in
      (
        subst
            (λ (i : Bytes).
              All (λ k. k.id ≢ i)
                (update_notification now id notification_data amount event_ids rows))
            (sym same) (update_notification-others n rows others),
        update_notification-IsKeyed rows h,
      )

-- An update changes the share of its row alone.
In-others :
    (r : Notification) (id : Bytes) (rows : List Notification)
    → In r rows
    → All (λ m. m.id ≢ id) rows
    → r.id ≢ id
In-others r id [] h others = absurd h
In-others r id (n ∷ rows) (inl e) (other, others) =
    λ same. other (ap (λ (m : Notification). m.id) (sym e) ∙ same)
In-others r id (n ∷ rows) (inr later) (other, others) = In-others r id rows later others

module _ (owner_id action : Bytes) (after : ℕ) (ids_of : Notification → List Bytes) (v : Bytes)
    (now : ℕ) (r : Notification) (notification_data : NotificationData) (amount : ℤ)
    (event_ids : List Bytes) where
  pub times-update_notification :
      (rows : List Notification)
      → IsKeyed rows
      → In r rows
      → times owner_id action after ids_of v
            (update_notification now r.id notification_data amount event_ids rows)
          + share owner_id action after ids_of v r
        ≡ times owner_id action after ids_of v rows
          + share owner_id action after ids_of v
              (update_row now r.id notification_data amount event_ids r)
  unfolding update_notification
  times-update_notification [] keyed h = absurd h
  times-update_notification (n ∷ rows) (others, keyed) (inl e) =
      let rest : update_notification now r.id notification_data amount event_ids rows ≡ rows =
        update_notification_others now r.id notification_data amount event_ids rows
          (subst (λ (m : Notification). All (λ k. k.id ≢ m.id) rows) (sym e) others) in
      rw rest (rw (← e) (omega arith))
  times-update_notification (n ∷ rows) (others, keyed) (inr later) =
      let other : update_row now r.id notification_data amount event_ids n ≡ n =
        update_row_other now r.id notification_data amount event_ids n
          (λ same. In-others r n.id rows later others (sym same)) in
      rw other (omega (arith, times-update_notification rows keyed later))

differs_not : (s t : Bytes) → eq_bytes s t ≡ false → s ≢ t
differs_not s t h e =
    let same : eq_bytes s t ≡ true = subst (λ u. eq_bytes s u ≡ true) e (eq_bytes_self s) in cc

pub has_id-others :
    (id : Bytes) (rows : List Notification) → has_id id rows ≡ false → All (λ m. m.id ≢ id) rows
unfolding has_id
has_id-others id [] h = tt
has_id-others id (n ∷ rows) h = elim (Bool-cases (eq_bytes n.id id)) [
  | inl same ↦ let held : true ≡ false = rw same at h in cc
  | inr differs ↦ (λ e. differs_not n.id id differs e, has_id-others id rows (rw differs at h))
]

module _ (now : ℕ) (r : Notification) (notification_data : NotificationData) (amount : ℤ)
    (event_ids : List Bytes) where
  -- An update that leaves its row leaves the table.
  pub update_notification_same :
      (rows : List Notification)
      → IsKeyed rows
      → In r rows
      → update_row now r.id notification_data amount event_ids r ≡ r
      → update_notification now r.id notification_data amount event_ids rows ≡ rows
  unfolding update_notification
  update_notification_same [] keyed h left = refl
  update_notification_same (n ∷ rows) (others, keyed) (inl e) left =
      let rest : update_notification now r.id notification_data amount event_ids rows ≡ rows =
        update_notification_others now r.id notification_data amount event_ids rows
          (subst (λ (m : Notification). All (λ k. k.id ≢ m.id) rows) (sym e) others) in
      rw rest (rw (← e) (ap (λ (m : Notification). m ∷ rows) left))
  update_notification_same (n ∷ rows) (others, keyed) (inr later) left =
      let other : update_row now r.id notification_data amount event_ids n ≡ n =
        update_row_other now r.id notification_data amount event_ids n
          (λ same. In-others r n.id rows later others (sym same)) in
      rw (other, update_notification_same rows keyed later left) refl
