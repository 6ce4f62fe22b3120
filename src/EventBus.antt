-- ===== src/EventBus.antt =====
-- pkg/infradb/subscriberframework/eventbus/eventbus.go: the subscribers of each event type, in the
-- order of their priorities. A subscriber's channels are its identity, `id`; a handler is a number.
pub mod Order
mod Examples
use opi_evpn_bridge.Prelude.{
  ℕ, ◌+◌, String, Bool, true, false, ◌||◌, List, [], ◌∷◌, ◌++◌, Option, none, some, ◌==◌, nat_eq,
  string_eq, if◌then◌else◌,
}
use opi_evpn_bridge.Prelude.Int.{ℤ, int_leb}
use Prim.Native.String.{◌++◌ as str_append}
use opi_evpn_bridge.Prelude.Dict.{Dict, lookup, insert, delete}

pub record Subscriber : Type 0 where
  pub id : ℕ
  pub name : String
  pub priority : ℤ

pub record EventBus : Type 0 where
  pub subscribers : Dict String (List Subscriber)
  pub event_handlers : Dict String ℕ
  pub next_id : ℕ

abbrev pub new_event_bus : EventBus
new_event_bus = record { subscribers = []; event_handlers = []; next_id = 0 }

abbrev or_empty : Option (List Subscriber) → List Subscriber
or_empty none = []
or_empty (some subs) = subs

-- A missing event type has the nil slice.
unfoldable pub get_subscribers : EventBus → String → List Subscriber
get_subscribers e event_type = or_empty (lookup event_type e.subscribers)

-- `sort.Slice` by priority; on few elements it is an insertion sort.
unfoldable pub insert_by_priority : Subscriber → List Subscriber → List Subscriber
insert_by_priority s [] = s ∷ []
insert_by_priority s (x ∷ xs) =
    if int_leb x.priority s.priority then x ∷ insert_by_priority s xs else s ∷ x ∷ xs

unfoldable pub sort_by_priority : List Subscriber → List Subscriber → List Subscriber
sort_by_priority sorted [] = sorted
sort_by_priority sorted (s ∷ rest) = sort_by_priority (insert_by_priority s sorted) rest

-- utils.ComposeHandlerName
unfoldable pub compose_handler_name : String → String → String
compose_handler_name module_name kind_of_type = str_append module_name (str_append "." kind_of_type)

unfoldable pub subscribe : String → String → ℤ → ℕ → EventBus → Subscriber × EventBus
subscribe module_name event_type priority handler e =
    let subscriber : Subscriber = record {
      id = e.next_id;
      name = module_name;
      priority = priority;
    } in
    (
      subscriber,
      record {
        subscribers =
            insert event_type
              (sort_by_priority [] (get_subscribers e event_type ++ subscriber ∷ [])) e.subscribers;
        event_handlers =
            insert (compose_handler_name module_name event_type) handler e.event_handlers;
        next_id = e.next_id + 1;
      },
    )

unfoldable pub has_name : String → List Subscriber → Bool
has_name module_name [] = false
has_name module_name (s ∷ rest) = (s.name == module_name) || has_name module_name rest

unfoldable pub subscriber_exist : EventBus → String → String → Bool
unfolding has_name
subscriber_exist e event_type module_name = has_name module_name (get_subscribers e event_type)

-- The registration that `StartSubscriber` makes; its goroutine hands events to the handler.
unfoldable pub start_subscriber : String → String → ℤ → ℕ → EventBus → EventBus
start_subscriber module_name event_type priority handler e =
    if subscriber_exist e event_type module_name
    then e
    else (subscribe module_name event_type priority handler e).1

without_subscriber : ℕ → List Subscriber → List Subscriber
without_subscriber i [] = []
without_subscriber i (s ∷ rest) = if s.id == i then rest else s ∷ without_subscriber i rest

drop_if_empty :
    String → List Subscriber → Dict String (List Subscriber) → Dict String (List Subscriber)
drop_if_empty event_type [] m = delete event_type m
drop_if_empty event_type (s ∷ rest) m = insert event_type (s ∷ rest) m

-- The first entry that is this very subscriber goes; an event type with no subscriber left, too.
unfoldable pub unsubscribe_event : Subscriber → String → EventBus → EventBus
unfolding without_subscriber drop_if_empty
unsubscribe_event s event_type e = elim (lookup event_type e.subscribers) [
  | none ↦ e
  | some subs ↦ record e {
    subscribers = drop_if_empty event_type (without_subscriber s.id subs) e.subscribers;
  }
]
