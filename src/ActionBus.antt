-- ===== src/ActionBus.antt =====
-- pkg/infradb/subscriberframework/actionbus/actionbus.go: who is told of an action. A channel is
-- only the identity of a subscriber; the handler that answers is the environment's.
use opi_evpn_bridge.Prelude.{
  String, Bool, true, false, List, [], ◌∷◌, ◌++◌, Option, none, some, ◌==◌, string_eq,
  if◌then◌else◌,
}
use opi_evpn_bridge.Prelude.Text.{sprint}
use opi_evpn_bridge.Prelude.Dict
use opi_evpn_bridge.EventBus.{compose_handler_name}

pub record ActionSubscriber : Type 0 where
  pub name : String

-- `action_handlers` has, for the key of each handler, the module that has registered it.
pub record ActionBus : Type 0 where
  pub subscribers : Dict.Dict String (List ActionSubscriber)
  pub action_handlers : Dict.Dict String String

abbrev pub new_action_bus : ActionBus
new_action_bus = record { subscribers = []; action_handlers = [] }

abbrev or_none : Option (List ActionSubscriber) → List ActionSubscriber
or_none none = []
or_none (some subs) = subs

unfoldable pub get_subscribers : String → ActionBus → List ActionSubscriber
get_subscribers action_type bus = or_none (Dict.lookup action_type bus.subscribers)

-- The first subscriber of a name, as startReplayProcedure looks for it.
unfoldable pub named : String → List ActionSubscriber → Option ActionSubscriber
named name [] = none
named name (s ∷ subs) = let rest = named name subs in if s.name == name then some s else rest

abbrev is_some {ℓ} : {A : Type ℓ} → Option A → Bool
is_some none = false
is_some (some a) = true

unfoldable pub subscriber_exist : String → String → ActionBus → Bool
unfolding named get_subscribers
subscriber_exist action_type module_name bus =
    is_some (named module_name (get_subscribers action_type bus))

unfoldable pub subscribe : String → String → ActionBus → ActionBus
unfolding get_subscribers
subscribe module_name action_type bus = record {
  subscribers =
      Dict.insert action_type
        (get_subscribers action_type bus ++ record { name = module_name } ∷ []) bus.subscribers;
  action_handlers =
      Dict.insert (compose_handler_name module_name action_type) module_name bus.action_handlers;
}

-- StartSubscriber, but for the goroutine that waits for the actions.
unfoldable pub start_subscriber : String → String → ActionBus → ActionBus
unfolding subscriber_exist subscribe
start_subscriber module_name action_type bus =
    if subscriber_exist action_type module_name bus
    then bus
    else subscribe module_name action_type bus

-- Publish: `busy` is whether the subscriber does not wait on its channel. The error, if any.
unfoldable pub publish : (busy : Bool) → ActionSubscriber → Option String
publish true s = some (sprint ("channel for subscriber " ∷ s.name ∷ " is busy" ∷ []))
publish false s = none
