-- ===== src/Notifications/Viewers.antt =====
-- service/notifications/notifications.go: no viewer shows up twice in a week.
use go_mutuals.Prelude.{
  ℕ, ◌+◌, ◌≤◌, ◌≡◌, refl, sym, subst, Bool, false, List, [], ◌∷◌, arith, ltb, if◌then◌else◌,
  Bool-cases, inl, inr, ℤ,
}
use go_mutuals.Cursor.Bytes.{Bytes}
use go_mutuals.Notifications.Data.{concat_data, validate}
use go_mutuals.Notifications.Store.{
  Notification, is_for, is_after, get_notifications_after, has_id, update_notification,
}
use go_mutuals.Notifications.Handlers.{
  Env, World, in_any, authed_of, unauthed_of, with_new_viewers, group_views, handle_viewed,
  view_window,
}
use go_mutuals.Notifications.Counts.{count}
use go_mutuals.Notifications.Rows.{
  IsKeyed, In, share, times, get_notifications_after-In, update_notification-IsKeyed, has_id-others,
}
use go_mutuals.Notifications.Tables.{new_row, insert_and_publish-rows, update_and_publish-rows}
use go_mutuals.Notifications.Bounds.{
  once-insert, once-update, times_none, new_viewers-bound, unique_strings-bound,
}

-- Since a time, an id stands at most once among the viewers of all the notifications of an owner for an
-- action that are not deleted.
pub record OncePerWeek (after : ℕ) (rows : List Notification) : Type 0 where
  pub keyed : IsKeyed rows
  pub once :
      (owner action v : Bytes)
      → (times owner action after authed_of v rows ≤ 1)
        × (times owner action after unauthed_of v rows ≤ 1)

-- The viewers that a new notification has are not repeated.
abbrev pub HasEachOnce : Notification → Type 0
HasEachOnce n = (v : Bytes) → (count v (authed_of n) ≤ 1) × (count v (unauthed_of n) ≤ 1)

module _ (env : Env) (notif : Notification) (rows : List Notification)
    (sound : OncePerWeek env.week_start rows) where
  -- With a row whose viewers are not in the week's notifications already.
  insert-OncePerWeek :
      ((v : Bytes)
        → (count v (authed_of notif)
              + times notif.owner_id notif.action env.week_start authed_of v rows
            ≤ 1)
          × (count v (unauthed_of notif)
                + times notif.owner_id notif.action env.week_start unauthed_of v rows
              ≤ 1))
      → has_id env.new_id rows ≡ false
      → OncePerWeek env.week_start (new_row env notif ∷ rows)
  insert-OncePerWeek bound fresh = record {
    keyed = (has_id-others env.new_id rows fresh, sound.keyed);
    once = λ o a v. (
      once-insert env.week_start authed_of v notif.owner_id notif.action (new_row env notif) rows
          refl refl (bound v).0 o a (sound.once o a v).0,
      once-insert env.week_start unauthed_of v notif.owner_id notif.action (new_row env notif) rows
          refl refl (bound v).1 o a (sound.once o a v).1,
    );
  }

  module _ (m : Notification) (ms : List Notification)
      (given : get_notifications_after notif.owner_id notif.action env.week_start rows
        ≡ m ∷ ms) where
    update-OncePerWeek :
        (amount : ℤ)
        → OncePerWeek env.week_start (
            update_notification env.now m.id
              (concat_data m.notification_data (with_new_viewers (m ∷ ms) notif).notification_data)
              amount
              notif.event_ids
              rows)
    unfolding concat_data validate with_new_viewers
    update-OncePerWeek amount =
        let here =
          get_notifications_after-In notif.owner_id notif.action env.week_start m rows
            (subst (λ (l : List Notification). In m l) (sym given) (inl refl)) in
        let joined =
          concat_data m.notification_data (with_new_viewers (m ∷ ms) notif).notification_data in
        record {
          keyed =
              update_notification-IsKeyed env.now m.id joined amount notif.event_ids rows
                sound.keyed;
          once = λ o a v. (
            once-update env.week_start authed_of v notif.owner_id notif.action env.now m joined
                amount notif.event_ids rows sound.keyed here.0 here.1
                (unique_strings-bound env.week_start authed_of v notif.owner_id notif.action
                  (m ∷ ms) rows given (authed_of notif) (authed_of m)
                  (sound.once notif.owner_id notif.action v).0)
                o a (sound.once o a v).0,
            once-update env.week_start unauthed_of v notif.owner_id notif.action env.now m joined
                amount notif.event_ids rows sound.keyed here.0 here.1
                (unique_strings-bound env.week_start unauthed_of v notif.owner_id notif.action
                  (m ∷ ms) rows given (unauthed_of notif) (unauthed_of m)
                  (sound.once notif.owner_id notif.action v).1)
                o a (sound.once o a v).1,
          );
        }

module _ (env : Env) (notif : Notification) (w : World) where
  group_views-OncePerWeek :
      (notifs : List Notification)
      → get_notifications_after notif.owner_id notif.action env.week_start w.rows ≡ notifs
      → HasEachOnce notif
      → OncePerWeek env.week_start w.rows
      → OncePerWeek env.week_start ((group_views env notif notifs w).0).rows
  unfolding group_views with_new_viewers in_any
  group_views-OncePerWeek [] given single sound =
      insert_and_publish-rows (OncePerWeek env.week_start) env notif w sound (
        insert-OncePerWeek env notif w.rows sound (λ v. (
          omega (
            arith,
            (single v).0,
            times_none env.week_start authed_of v notif.owner_id notif.action [] w.rows given refl,
          ),
          omega (
            arith,
            (single v).1,
            times_none env.week_start unauthed_of v notif.owner_id notif.action [] w.rows given
                refl,
          ),
        )))
  group_views-OncePerWeek (m ∷ ms) given single sound =
      let notif' = with_new_viewers (m ∷ ms) notif in
      elim (Bool-cases (ltb env.now (m.created_at + view_window))) [
        | inl recent ↦ rw recent (
            update_and_publish-rows (OncePerWeek env.week_start) env notif' w m sound
              (update-OncePerWeek env notif w.rows sound m ms given _))
        | inr old ↦ rw old (
            insert_and_publish-rows (OncePerWeek env.week_start) env notif' w sound (
              insert-OncePerWeek env notif' w.rows sound (λ v. (
                new_viewers-bound env.week_start authed_of v notif.owner_id notif.action (m ∷ ms)
                    w.rows given (authed_of notif) (single v).0
                    (sound.once notif.owner_id notif.action v).0,
                new_viewers-bound env.week_start unauthed_of v notif.owner_id notif.action (m ∷ ms)
                    w.rows given (unauthed_of notif) (single v).1
                    (sound.once notif.owner_id notif.action v).1,
              ))))
      ]

-- One call of the handler.
pub handle_viewed-OncePerWeek :
    (env : Env) (notif : Notification) (w : World)
    → env.reads_fail ≡ false
    → HasEachOnce notif
    → OncePerWeek env.week_start w.rows
    → OncePerWeek env.week_start ((handle_viewed env notif w).0).rows
unfolding handle_viewed
handle_viewed-OncePerWeek env notif w reads single sound =
    subst
      (λ (b : Bool).
        OncePerWeek env.week_start
          ((group_views env notif
              (if b
                then []
                else get_notifications_after notif.owner_id notif.action env.week_start w.rows)
              w).0
            ).rows)
      (sym reads)
      (group_views-OncePerWeek env notif w
        (get_notifications_after notif.owner_id notif.action env.week_start w.rows) refl single
        sound)

share_later :
    (o a : Bytes) (after after' : ℕ) (ids_of : Notification → List Bytes) (v : Bytes)
    (n : Notification)
    → after ≤ after'
    → share o a after' ids_of v n ≤ share o a after ids_of v n
unfolding is_after
share_later o a after after' ids_of v n h = elim (Bool-cases (is_for o a n)) [
  | inl mine ↦ rw mine (ground arith)
  | inr other ↦ rw other (omega arith)
]

times_later :
    (o a : Bytes) (after after' : ℕ) (ids_of : Notification → List Bytes) (v : Bytes)
    (rows : List Notification)
    → after ≤ after'
    → times o a after' ids_of v rows ≤ times o a after ids_of v rows
times_later o a after after' ids_of v [] h = omega arith
times_later o a after after' ids_of v (n ∷ rows) h =
    omega (
      arith,
      share_later o a after after' ids_of v n h,
      times_later o a after after' ids_of v rows h,
    )

pub once_later :
    (after after' : ℕ) (rows : List Notification)
    → after ≤ after'
    → OncePerWeek after rows
    → OncePerWeek after' rows
once_later after after' rows h sound = record {
  keyed = sound.keyed;
  once = λ o a v. (
    omega (arith, times_later o a after after' authed_of v rows h, (sound.once o a v).0),
    omega (arith, times_later o a after after' unauthed_of v rows h, (sound.once o a v).1),
  );
}

-- Calls of the handler, one after another, for any owners.
abbrev pub handle_all : List (Env × Notification) → World → World
handle_all [] w = w
handle_all ((env, notif) ∷ calls) w = handle_all calls (handle_viewed env notif w).0

abbrev pub last_week : ℕ → List (Env × Notification) → ℕ
last_week after [] = after
last_week after ((env, notif) ∷ calls) = last_week env.week_start calls

-- The weeks do not go back, the reads succeed, and no new notification repeats a viewer.
abbrev pub InOrder : ℕ → List (Env × Notification) → Type 0
InOrder after [] = Unit
InOrder after ((env, notif) ∷ calls) =
    (after ≤ env.week_start)
    × (env.reads_fail ≡ false)
    × HasEachOnce notif
    × InOrder env.week_start calls

-- After any calls of the handler of views, one at a time, where the weeks do not go back, the queries of
-- the week's notifications succeed and no new notification repeats a viewer: since the beginning of the
-- last call's week, each viewer stands at most once in all the notifications of an owner for an action,
-- if it was so at the start. Writes and messages may fail, and ids clash.
pub handle_all-OncePerWeek :
    (calls : List (Env × Notification)) (w : World) (after : ℕ)
    → InOrder after calls
    → OncePerWeek after w.rows
    → OncePerWeek (last_week after calls) (handle_all calls w).rows
handle_all-OncePerWeek [] w after ordered sound = sound
handle_all-OncePerWeek ((env, notif) ∷ calls) w after (later, reads, single, ordered) sound =
    handle_all-OncePerWeek calls (handle_viewed env notif w).0 env.week_start ordered (
      handle_viewed-OncePerWeek env notif w reads single
        (once_later after env.week_start w.rows later sound))
