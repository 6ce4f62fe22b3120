-- ===== src/Infradb/Components.antt =====
-- What the four kinds of objects share: the operational status, and the loops over the list of
-- components, which bridge.go, port.go, vrf.go, svi.go and the Delete functions of infradb.go write
-- out for each kind.
pub mod Laws
use opi_evpn_bridge.Prelude.{
  String, Bool, true, false, ◌&&◌, ◌||◌, not, List, [], ◌∷◌, Option, none, some, ◌==◌, string_eq,
  if◌then◌else◌,
}
use opi_evpn_bridge.Component.{Component, pending, pending_component, is_success}
use opi_evpn_bridge.EventBus.{Subscriber}

-- The four enumerations have the same values.
pub data OperStatus : Type 0 where
  unspecified up down to_be_deleted : OperStatus

abbrev pub is_up : OperStatus → Bool
is_up up = true
is_up _ = false

abbrev pub is_to_be_deleted : OperStatus → Bool
is_to_be_deleted to_be_deleted = true
is_to_be_deleted _ = false

-- The first component of that name is overwritten.
unfoldable pub set_component : Component → List Component → List Component
set_component c [] = []
set_component c (x ∷ xs) = if x.name == c.name then c ∷ xs else x ∷ set_component c xs

unfoldable pub all_success : List Component → Bool
all_success [] = true
all_success (c ∷ rest) = is_success c.comp_status && all_success rest

-- `for i := range subscribers { components[i].CompStatus = pending }`; `none` is the panic on an
-- index that is out of range.
unfoldable pub set_pending : List Subscriber → List Component → Option (List Component)
set_pending [] cs = some cs
set_pending (s ∷ subs) [] = none
set_pending (s ∷ subs) (c ∷ cs) = elim (set_pending subs cs) [
  | none ↦ none
  | some rest ↦ some (record c { comp_status = pending } ∷ rest)
]

abbrev first : List Subscriber → Option Subscriber
first [] = none
first (s ∷ subs) = some s

abbrev others : List Subscriber → List Subscriber
others [] = []
others (s ∷ subs) = subs

unfoldable pub needs_replay : String → Component → Bool
needs_replay component_name c = (c.name == component_name) || not (is_success c.comp_status)

reset :
    Component
    → Option Subscriber
    → Option (List Component × List Subscriber)
    → Option (List Component × List Subscriber)
reset c (some s) (some (cs, subs)) = some (pending_component c.name ∷ cs, s ∷ subs)
reset c _ _ = none

keep :
    Component
    → Option (List Component × List Subscriber)
    → Option (List Component × List Subscriber)
keep c none = none
keep c (some (cs, subs)) = some (c ∷ cs, subs)

-- The components after a replay, and the subscribers to contact; `none` is the panic on `subs[i]`.
unfoldable pub replay_components :
    String → List Component → List Subscriber → Option (List Component × List Subscriber)
unfolding needs_replay reset keep
replay_components component_name [] subs = some ([], [])
replay_components component_name (c ∷ cs) subs =
    let rest = replay_components component_name cs (others subs) in
    if needs_replay component_name c then reset c (first subs) rest else keep c rest
