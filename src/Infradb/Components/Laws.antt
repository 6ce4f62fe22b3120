-- ===== src/Infradb/Components/Laws.antt =====
-- The loops over the components of an object.
use text.Mathlib.TextEquality.{eq_iff}
use opi_evpn_bridge.Prelude.{
  ◌≡◌, ◌≤◌, refl, String, Bool, true, false, ◌&&◌, List, [], ◌∷◌, Option, none, some, arith, ◌==◌,
  string_eq, if◌then◌else◌, length, map, leb, take, drop, ◌++◌,
}
use opi_evpn_bridge.Component.{Component, pending, is_success, pending_component}
use opi_evpn_bridge.EventBus.{Subscriber}
use opi_evpn_bridge.Infradb.Components.{set_component, set_pending, replay_components}

abbrev pub names_of : List Component → List String
names_of [] = []
names_of (c ∷ cs) = c.name ∷ names_of cs

-- The state of the component of this name: the first entry that has it.
unfoldable pub find_component : String → List Component → Option Component
find_component name [] = none
find_component name (c ∷ cs) = if c.name == name then some c else find_component name cs

abbrev pub is_known : Option Component → Bool
is_known none = false
is_known (some c) = true

-- A report replaces the state of the component that it names, if the object has that component, and
-- of no other; it never adds, removes, renames or reorders components.
pub set_component_lem :
    (c : Component) (name : String) (cs : List Component)
    → (names_of (set_component c cs) ≡ names_of cs)
      × (find_component name (set_component c cs) ≡ (
          if c.name == name && is_known (find_component name cs)
          then some c
          else find_component name cs))
unfolding set_component find_component
set_component_lem c name [] = ground arith
set_component_lem c name (x ∷ xs) = ground (
  arith,
  eq_iff x.name c.name,
  eq_iff x.name name,
  eq_iff c.name name,
  set_component_lem c name xs,
)

abbrev pub pended : Component → Component
pended c = record c { comp_status = pending }

-- Marking an object for deletion panics exactly if it has fewer components than there are
-- subscribers; if not, as many components as there are subscribers are pending afterwards, the
-- first ones, and nothing else changes.
pub set_pending_lem :
    (subs : List Subscriber) (cs : List Component)
    → set_pending subs cs ≡ (
        if leb (length subs) (length cs)
        then some (map pended (take (length subs) cs) ++ drop (length subs) cs)
        else none)
unfolding set_pending
set_pending_lem [] cs = ground arith
set_pending_lem (s ∷ subs) [] = ground arith
set_pending_lem (s ∷ subs) (c ∷ cs) = ground (arith, set_pending_lem subs cs)

-- A component after a replay that the component `name` has asked for.
abbrev pub replayed : String → Component → Component
replayed name c =
    if c.name == name
    then pending_component c.name
    else if is_success c.comp_status
    then c
    else pending_component c.name

-- The subscribers, in order, whose component has asked for the replay or has not succeeded.
abbrev pub contacted : String → List Component → List Subscriber → List Subscriber
contacted name [] subs = []
contacted name (c ∷ cs) [] = []
contacted name (c ∷ cs) (s ∷ subs) =
    let rest = contacted name cs subs in
    if c.name == name then s ∷ rest else if is_success c.comp_status then rest else s ∷ rest

-- Where each component has its subscriber, a replay does not panic: it resets the component that
-- asked for it and those that have not succeeded, keeps the others, and contacts the subscribers
-- of those that it resets, in their order.
pub replay_components_lem :
    (name : String) (cs : List Component) (subs : List Subscriber)
    → length cs ≤ length subs
    → replay_components name cs subs ≡ some (map (replayed name) cs, contacted name cs subs)
unfolding replay_components
replay_components_lem name [] subs h = refl
replay_components_lem name (c ∷ cs) [] h = absurd (omega arith)
replay_components_lem name (c ∷ cs) (s ∷ subs) h =
    ground (arith, replay_components_lem name cs subs)
