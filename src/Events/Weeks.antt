-- ===== src/Events/Weeks.antt =====
-- event/event.go with service/notifications/notifications.go: what events make of the week's
-- notifications.
use go_mutuals.Prelude.{
  ℕ, ◌≤◌, ◌≡◌, refl, sym, subst, Bool, true, false, ◌&&◌, Option, none, some, List, [], ◌∷◌, arith,
  if◌then◌else◌, Bool-cases, inl, inr, ◌⊎◌, Outcome, ok, err, panics,
}
use go_mutuals.Cursor.Bytes.{Bytes, eq_bytes, eq_bytes→eq}
use go_mutuals.Wallets.{eq_ℤ}
use go_mutuals.Notifications.Data.{
  action_viewed_split, action_announcement, action_user_followed_users,
}
use go_mutuals.Notifications.Store.{Notification, Failure}
use go_mutuals.Notifications.Handlers.{
  Env, World, Handled, handle_viewed, run_handler, dispatch, add_handler, new_handlers,
}
use go_mutuals.Notifications.Counts.{count}
use go_mutuals.Notifications.Viewers.{
  OncePerWeek, HasEachOnce, handle_viewed-OncePerWeek, once_later,
}
use go_mutuals.Events.{
  Event, EventWorld, null_str_to_str, Sender, new_event_dispatcher, new_event_sender,
  add_delayed_handler, run_delayed, run_event_handler, after_add, add_event, add_user_event,
  add_split_event, resource_type_user, resource_type_split, event_is_valid, delayed_key,
  dispatch_delayed,
}
use go_mutuals.Events.Handling.{
  find_owner, notification_data_for, notification_of, notify_owner, handle_delayed, add_to,
}

at_most_one : (v : Bytes) (b : Bool) (id : Bytes) → count v (if b then [] else id ∷ []) ≤ 1
at_most_one v true id = omega arith
at_most_one v false id = ground arith

event_viewers :
    (event : Event) (owner : Bytes)
    → HasEachOnce (notification_of owner (notification_data_for event) event)
unfolding notification_data_for
event_viewers event owner v = elim (Bool-cases (eq_bytes event.action action_viewed_split)) [
  | inl viewed ↦ rw viewed (at_most_one v _ _, at_most_one v _ _)
  | inr other ↦ rw other (omega arith, omega arith)
]

-- What holds of both branches holds of the choice.
if_either :
    {A : Type 0} (P : A → Type 0) (b : Bool) (x y : A)
    → (b ≡ true → P x)
    → P y
    → P (if b then x else y)
if_either P true x y px py = px refl
if_either P false x y px py = py

-- The handler of an action that is not an announcement: that of views, or none.
known_handlers :
    (env : Env) (announce : Notification → World → Handled) (action : Bytes)
    → eq_bytes action action_announcement ≡ false
    → (new_handlers env announce action ≡ some (handle_viewed env))
      ⊎ (new_handlers env announce action ≡ none)
unfolding new_handlers add_handler
known_handlers env announce action other = elim (Bool-cases (eq_bytes action action_viewed_split)) [
  | inl viewed ↦ inl (rw (other, viewed) refl)
  | inr unknown ↦ inr (rw (other, unknown) refl)
]

module _ (env : Env) (announce : Notification → World → Handled)
    (reads : env.reads_fail ≡ false) where
  dispatch-OncePerWeek :
      (notif : Notification) (w : World)
      → eq_bytes notif.action action_announcement ≡ false
      → HasEachOnce notif
      → OncePerWeek env.week_start w.rows
      → OncePerWeek env.week_start ((dispatch (new_handlers env announce) notif w).0).rows
  unfolding dispatch
  dispatch-OncePerWeek notif w other single sound =
      elim (known_handlers env announce notif.action other) [
        | inl viewed ↦
            subst (λ h. OncePerWeek env.week_start ((run_handler h notif w).0).rows) (sym viewed)
              (handle_viewed-OncePerWeek env notif w reads single sound)
        | inr unknown ↦
            subst (λ h. OncePerWeek env.week_start ((run_handler h notif w).0).rows) (sym unknown)
              sound
      ]

  notify_owner-OncePerWeek :
      (event : Event) (w : World) (owner : Outcome Failure Bytes)
      → eq_bytes event.action action_announcement ≡ false
      → OncePerWeek env.week_start w.rows
      → OncePerWeek env.week_start ((notify_owner (new_handlers env announce) event w owner).0).rows
  notify_owner-OncePerWeek event w (err e) other sound = sound
  notify_owner-OncePerWeek event w panics other sound = sound
  notify_owner-OncePerWeek event w (ok owner) other sound =
      let P : Handled → Type 0 = λ h. OncePerWeek env.week_start (h.0).rows in
      if_either P (eq_bytes owner []) _ _ (λ h. sound)
        (if_either P (eq_bytes (null_str_to_str event.actor_id) owner) _ _ (λ h. sound)
          (if_either P
            (eq_bytes event.action action_viewed_split && eq_bytes event.actor_id.text []) _ _
            (λ h. sound)
            (dispatch-OncePerWeek (notification_of owner (notification_data_for event) event) w
              other (event_viewers event owner) sound)))

-- What `Add` gives back has the action of the event.
abbrev HasAction : Bytes → Outcome Failure Event → Type 0
HasAction action (ok event) = event.action ≡ action
HasAction action (err e) = Unit
HasAction action panics = Unit

add_event-HasAction :
    (id : Bytes) (fails : Bool) (event : Event) → HasAction event.action (add_event id fails event)
unfolding add_event add_user_event add_split_event
add_event-HasAction id fails event =
    if_either (HasAction event.action) (eq_ℤ event.resource_type_id resource_type_user) _ _
      (λ h. if_either (HasAction event.action) fails _ _ (λ h'. tt) refl)
      (if_either (HasAction event.action) (eq_ℤ event.resource_type_id resource_type_split) _ _
        (λ h. if_either (HasAction event.action) fails _ _ (λ h'. tt) refl) tt)

module _ (R : Type 0) (env : Env) (announce : Notification → World → Handled)
    (reads : env.reads_fail ≡ false) where
  abbrev pub sender : Sender R
  sender = add_to (new_handlers env announce)

  -- An announcement has no handler among the delayed ones.
  not_an_announcement :
      (action : Bytes)
      → sender.registry delayed_key action ≡ true
      → eq_bytes action action_announcement ≡ false
  unfolding add_to add_delayed_handler new_event_sender
  not_an_announcement action h = elim (Bool-cases (eq_bytes action action_announcement)) [
    | inl is ↦
        let e = eq_bytes→eq action action_announcement is in
        let f : false ≡ true = subst (λ (a : Bytes). sender.registry delayed_key a ≡ true) e h in cc
    | inr other ↦ other
  ]

  run_delayed-OncePerWeek :
      (event : Event) (w : World)
      → eq_bytes event.action action_announcement ≡ false
      → OncePerWeek env.week_start w.rows
      → OncePerWeek env.week_start ((run_delayed sender.notifications event w).0).rows
  unfolding run_delayed add_to add_delayed_handler new_event_sender new_event_dispatcher
      handle_delayed
  run_delayed-OncePerWeek event w other sound =
      let handled =
        notify_owner-OncePerWeek env announce reads event w (find_owner event) other sound in
      let P : Option (Event → World → Handled) → Type 0 =
        λ h. OncePerWeek env.week_start ((run_event_handler h event w).0).rows in
      if_either P (eq_bytes event.action action_viewed_split) _ _ (λ h. handled)
        (if_either P (eq_bytes event.action action_user_followed_users) _ _ (λ h. handled) sound)

  after_add-OncePerWeek :
      (w : EventWorld) (action : Bytes) (row : Outcome Failure Event)
      → HasAction action row
      → eq_bytes action action_announcement ≡ false
      → OncePerWeek env.week_start w.notices.rows
      → OncePerWeek env.week_start (((after_add sender w row).0).notices).rows
  after_add-OncePerWeek w action (err e) same other sound = sound
  after_add-OncePerWeek w action panics same other sound = sound
  after_add-OncePerWeek w action (ok event) same other sound =
      run_delayed-OncePerWeek event w.notices
        (subst (λ (a : Bytes). eq_bytes a action_announcement ≡ false) (sym same) other) sound

  dispatch_delayed-OncePerWeek :
      (id : Bytes) (adds_fail : Bool) (event : Event) (w : EventWorld)
      → OncePerWeek env.week_start w.notices.rows
      → OncePerWeek env.week_start (((dispatch_delayed sender id adds_fail event w).0).notices).rows
  unfolding dispatch_delayed
  dispatch_delayed-OncePerWeek id adds_fail event w sound =
      let P : EventWorld × Outcome Failure (Unit {0}) → Type 0 =
        λ h. OncePerWeek env.week_start ((h.0).notices).rows in
      if_either P (event_is_valid event) _ _
        (λ valid.
          if_either P (sender.registry delayed_key event.action) _ _
            (λ registered.
              after_add-OncePerWeek w event.action (add_event id adds_fail event)
                (add_event-HasAction id adds_fail event)
                (not_an_announcement event.action registered) sound)
            sound)
        sound

-- An event that is pushed, and what `dispatchDelayed` finds.
pub record Arrival : Type 0 where
  pub env : Env
  pub event_id : Bytes
  pub adds_fail : Bool
  pub event : Event

module _ (R : Type 0) (announce : Notification → World → Handled) where
  abbrev pub push_all : List Arrival → EventWorld → EventWorld
  push_all [] w = w
  push_all (a ∷ arrivals) w =
      push_all arrivals
        (dispatch_delayed (add_to {R = R} (new_handlers a.env announce)) a.event_id a.adds_fail
          a.event w).0

  abbrev pub last_week_of : ℕ → List Arrival → ℕ
  last_week_of after [] = after
  last_week_of after (a ∷ arrivals) = last_week_of a.env.week_start arrivals

  -- The weeks do not go back, and the queries of the week's notifications succeed.
  abbrev pub ArriveInOrder : ℕ → List Arrival → Type 0
  ArriveInOrder after [] = Unit
  ArriveInOrder after (a ∷ arrivals) =
      (after ≤ a.env.week_start)
      × (a.env.reads_fail ≡ false)
      × ArriveInOrder a.env.week_start arrivals

  -- Whatever events are dispatched, one after another, by the sender that `AddTo` sets up, each viewer
  -- stands at most once among all the notifications of an owner for an action since the beginning of the
  -- last event's week, if it was so at the start, where the weeks do not go back and the queries of the
  -- week's notifications succeed. The events need not be valid, and their writes may fail.
  pub push_all-OncePerWeek :
      (arrivals : List Arrival) (w : EventWorld) (after : ℕ)
      → ArriveInOrder after arrivals
      → OncePerWeek after w.notices.rows
      → OncePerWeek (last_week_of after arrivals) (push_all arrivals w).notices.rows
  push_all-OncePerWeek [] w after ordered sound = sound
  push_all-OncePerWeek (a ∷ arrivals) w after (later, reads, ordered) sound =
      push_all-OncePerWeek arrivals _ a.env.week_start ordered (
        dispatch_delayed-OncePerWeek R a.env announce reads a.event_id a.adds_fail a.event w
          (once_later after a.env.week_start w.notices.rows later sound))
