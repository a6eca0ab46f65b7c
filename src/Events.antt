-- ===== src/Events.antt =====
-- event/event.go: events, which are kept and handed to the handlers that their actions have, and
-- service/persist/postgres/event.go: how they are kept. The data and the times of an event are not
-- modelled. A goroutine that is started is run at once.
pub mod Handling
pub mod Weeks
use go_mutuals.Prelude.{
  ℕ, Bool, true, false, not, ◌&&◌, ◌||◌, Option, none, some, List, [], ◌∷◌, ◌++◌, if◌then◌else◌, ℤ,
  pos, Outcome, ok, err, panics, ◌>>=◌,
}
use go_mutuals.Cursor.Bytes.{Bytes, eq_bytes}
use go_mutuals.Wallets.{eq_ℤ}
use go_mutuals.Notifications.Store.{Failure, write_failed, invalid_event, unknown_resource_type}
use go_mutuals.Notifications.Handlers.{World, Handled}

abbrev pub resource_type_user : ℤ
resource_type_user = pos 0

abbrev pub resource_type_token : ℤ
resource_type_token = pos 1

abbrev pub resource_type_split : ℤ
resource_type_split = pos 3

-- `sql.NullString`, `StrPtrToNullStr` and `NullStrToStr`.
pub record NullString : Type 0 where
  pub text : Bytes
  pub valid : Bool

unfoldable pub str_ptr_to_null_str : Option Bytes → NullString
str_ptr_to_null_str none = record { text = []; valid = false }
str_ptr_to_null_str (some s) = record { text = s; valid = true }

unfoldable pub null_str_to_str : NullString → Bytes
null_str_to_str s = if s.valid then s.text else []

pub record Event : Type 0 where
  pub id : Bytes
  pub actor_id : NullString
  pub resource_type_id : ℤ
  pub subject_id : Bytes
  pub user_id : Bytes
  pub action : Bytes
  pub split_id : Bytes
  pub external_id : NullString
  pub caption : NullString
  pub group_id : NullString

-- `EventValidator`
unfoldable pub event_is_valid : Event → Bool
event_is_valid event = not (eq_bytes event.action [])

-- `AddUserEvent` and `AddSplitEvent`: the row that comes back.
unfoldable pub add_user_event : Bytes → Event → Event
add_user_event id event = record event {
  id = id;
  user_id = event.subject_id;
  split_id = [];
  external_id = record { text = []; valid = false };
}

unfoldable pub add_split_event : Bytes → Event → Event
add_split_event id event = record event { id = id; subject_id = event.split_id; user_id = [] }

-- `EventRepository.Add`
unfoldable pub add_event : Bytes → Bool → Event → Outcome Failure Event
add_event id fails event =
    if eq_ℤ event.resource_type_id resource_type_user
    then (if fails then err write_failed else ok (add_user_event id event))
    else (if eq_ℤ event.resource_type_id resource_type_split
        then (if fails then err write_failed else ok (add_split_event id event))
        else err unknown_resource_type)

-- The events that are kept, and what the notifications have.
pub record EventWorld : Type 0 where
  pub events : List Event
  pub notices : World

-- `eventDispatcher`: handlers by their actions. A result may be nil.
pub record Dispatcher (R : Type 0) : Type 0 where
  pub delayed_handlers : Bytes → Option (Event → World → Handled)
  pub immediate_handlers : Bytes → Option (Event → Outcome Failure (Option R))
  pub group_handlers : Bytes → Option (Bytes → Bytes → Outcome Failure (Option R))

abbrev pub set_entry : {V : Type 0} → (Bytes → Option V) → Bytes → V → Bytes → Option V
set_entry entries action v a = if eq_bytes a action then some v else entries a

abbrev pub run_event_handler : Option (Event → World → Handled) → Event → World → Handled
run_event_handler (some handler) event w = handler event w
run_event_handler none event w = (w, ok tt)

module _ {R : Type 0} where
  unfoldable pub new_event_dispatcher : Dispatcher R
  new_event_dispatcher = record {
    delayed_handlers = λ action. none;
    immediate_handlers = λ action. none;
    group_handlers = λ action. none;
  }

  -- `eventDispatcher.dispatchDelayed` and `dispatchGroup`
  unfoldable pub run_delayed : Dispatcher R → Event → World → Handled
  run_delayed d event w = run_event_handler (d.delayed_handlers event.action) event w

  unfoldable pub run_group : Dispatcher R → Bytes → Bytes → Outcome Failure (Option R)
  run_group d group_id action = elim (d.group_handlers action) [
    | some handler ↦ handler group_id action
    | none ↦ ok none
  ]

  -- `eventDispatcher.dispatchImmediate`: the answers of the handlers, of which the loop takes one
  -- after another as they come, up to the first error.
  unfoldable pub immediate_answers : Dispatcher R → List Event → List (Outcome Failure (Option R))
  immediate_answers d [] = []
  immediate_answers d (e ∷ events) =
      let rest = immediate_answers d events in
      elim (d.immediate_handlers e.action) [ some handler ↦ handler e ∷ rest | none ↦ rest ]

  unfoldable pub receive : List (Outcome Failure (Option R)) → Option R → Outcome Failure (Option R)
  receive [] result = ok result
  receive (ok (some r) ∷ answers) result = receive answers (some r)
  receive (ok none ∷ answers) result = receive answers result
  receive (err e ∷ answers) result = err e
  receive (panics ∷ answers) result = panics

-- `eventSender`: for each way of sending, the actions that are registered for it.
pub data SendType : Type 0 where
  delayed_key immediate_key group_key : SendType

pub record Sender (R : Type 0) : Type 0 where
  pub notifications : Dispatcher R
  pub registry : SendType → Bytes → Bool

abbrev pub same_type : SendType → SendType → Bool
same_type delayed_key delayed_key = true
same_type delayed_key immediate_key = false
same_type delayed_key group_key = false
same_type immediate_key delayed_key = false
same_type immediate_key immediate_key = true
same_type immediate_key group_key = false
same_type group_key delayed_key = false
same_type group_key immediate_key = false
same_type group_key group_key = true

abbrev pub register : (SendType → Bytes → Bool) → SendType → Bytes → SendType → Bytes → Bool
register registry key action key' a = same_type key' key && eq_bytes a action || registry key' a

module _ {R : Type 0} where
  unfoldable pub new_event_sender : Sender R
  new_event_sender = record { notifications = new_event_dispatcher; registry = λ key action. false }

  -- `addDelayedHandler`, `addImmediateHandler` and `addGroupHandler`, with the dispatcher's `addDelayed`,
  -- `addImmediate` and `addGroup`.
  unfoldable pub add_delayed_handler : Sender R → Bytes → (Event → World → Handled) → Sender R
  add_delayed_handler e action handler = record e {
    notifications = record (e.notifications) {
      delayed_handlers = set_entry e.notifications.delayed_handlers action handler;
    };
    registry = register e.registry delayed_key action;
  }

  unfoldable pub add_immediate_handler :
      Sender R → Bytes → (Event → Outcome Failure (Option R)) → Sender R
  add_immediate_handler e action handler = record e {
    notifications = record (e.notifications) {
      immediate_handlers = set_entry e.notifications.immediate_handlers action handler;
    };
    registry = register e.registry immediate_key action;
  }

  unfoldable pub add_group_handler :
      Sender R → Bytes → (Bytes → Bytes → Outcome Failure (Option R)) → Sender R
  add_group_handler e action handler = record e {
    notifications = record (e.notifications) {
      group_handlers = set_entry e.notifications.group_handlers action handler;
    };
    registry = register e.registry group_key action;
  }

  -- `dispatchDelayed`
  abbrev pub after_add :
      Sender R → EventWorld → Outcome Failure Event → EventWorld × Outcome Failure (Unit {0})
  after_add sender w (err e) = (w, err e)
  after_add sender w panics = (w, panics)
  after_add sender w (ok event) =
      let handled = run_delayed sender.notifications event w.notices in
      (record { events = event ∷ w.events; notices = handled.0 }, handled.1)

  unfoldable pub dispatch_delayed :
      Sender R → Bytes → Bool → Event → EventWorld → EventWorld × Outcome Failure (Unit {0})
  dispatch_delayed sender id adds_fail event w =
      if event_is_valid event
      then (if sender.registry delayed_key event.action
          then after_add sender w (add_event id adds_fail event)
          else (w, ok tt))
      else (w, err invalid_event)
