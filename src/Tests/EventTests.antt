-- ===== src/Tests/EventTests.antt =====
-- A user's view of a split, of which the owner is told.
use go_mutuals.Prelude.{ℕ, refl, false, List, [], ◌∷◌, arith, true}
use go_mutuals.Notifications.Data.{action_viewed_split}
use go_mutuals.Notifications.Store.{Notification}
use go_mutuals.Notifications.Handlers.{World, Handled}
use go_mutuals.Notifications.Viewers.{OncePerWeek}
use go_mutuals.Events.{Event, EventWorld, resource_type_split}
use go_mutuals.Events.Weeks.{Arrival, push_all, last_week_of, push_all-OncePerWeek}
use go_mutuals.Tests.NotificationTests.{at}
use go_mutuals.Prelude.{ok}

abbrev split_view : Event
split_view = record {
  id = [];
  actor_id = record { text = b'7' ∷ []; valid = true };
  resource_type_id = resource_type_split;
  subject_id = [];
  user_id = [];
  action = action_viewed_split;
  split_id = b's' ∷ [];
  external_id = record { text = []; valid = false };
  caption = record { text = []; valid = false };
  group_id = record { text = []; valid = false };
}

abbrev announce : Notification → World → Handled
announce notif w = (w, ok tt)

abbrev arrivals : List Arrival
arrivals =
    record { env = at 10 (1 ∷ []); event_id = 1 ∷ []; adds_fail = false; event = split_view }
    ∷ record { env = at 11 (2 ∷ []); event_id = 2 ∷ []; adds_fail = false; event = split_view }
    ∷ []

abbrev start : EventWorld
start = record { events = []; notices = record { rows = []; published = []; pushed = [] } }

push_all-OncePerWeek_example :
    OncePerWeek
      (last_week_of ℕ announce 0 arrivals)
      (push_all ℕ announce arrivals start).notices.rows
push_all-OncePerWeek_example =
    push_all-OncePerWeek ℕ announce arrivals start 0 (omega arith, refl, (omega arith, refl, tt))
      (record { keyed = tt; once = λ o a v. (omega arith, omega arith) })
