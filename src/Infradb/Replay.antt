-- ===== src/Infradb/Replay.antt =====
-- pkg/infradb/replay.go: the objects to replay for a component, and the tasks for them. A range over
-- a map of the store goes through its entries in list order; `versions` gives what `generateVersion()` returns
-- for the object of a name.
pub mod Ports
use opi_evpn_bridge.Prelude.{
  String, Bool, true, false, List, [], ◌∷◌, ◌++◌, Option, none, some, ◌==◌, string_eq,
  if◌then◌else◌,
}
use opi_evpn_bridge.Prelude.Dict
use opi_evpn_bridge.EventBus.{EventBus, Subscriber, get_subscribers, has_name}
use opi_evpn_bridge.ActionBus.{
  ActionBus, ActionSubscriber, named, publish, get_subscribers as pre_subscribers,
}
use opi_evpn_bridge.Infradb.Errors.{key_not_found}
use opi_evpn_bridge.Infradb.LogicalBridge
use opi_evpn_bridge.Infradb.Vrf
use opi_evpn_bridge.Infradb.Svi
use opi_evpn_bridge.Infradb.BridgePort
use opi_evpn_bridge.Infradb.Store.{Value, bridge, vrf, svi, port, Codec}
use opi_evpn_bridge.Infradb.Program.{Prog, pure, fail, create_task, ◌>>=◌, ◌>>◌}
use opi_evpn_bridge.Infradb.Ops.{get_as, get_names, or_panic, put}

-- The objects, and for each the subscribers to contact.
abbrev pub Gathered : Type 0
Gathered = List Value × List (List Subscriber)

abbrev add_object : Value → List Subscriber → Gathered → Gathered
add_object v subs (objects, subs_for_replay) = (v ∷ objects, subs ∷ subs_for_replay)

abbrev join : Gathered → Gathered → Gathered
join (objects, subs) (objects', subs') = (objects ++ objects', subs ++ subs')

-- The loop over the names of one list: each object is read, prepared and stored.
module _ {A : Type 0} (as_type : Value → Option A) (prepare : A → Option (A × List Subscriber))
    (name_of : A → String) (value_of : A → Value) where
  unfoldable pub replay_each : List String → Prog Gathered
  replay_each [] = pure ([], [])
  replay_each (key ∷ keys) =
      let rest = replay_each keys in
      do
        found ← get_as as_type key
        elim found [
          | none ↦ fail key_not_found
          | some a ↦ (do
            (a', temp_subs) ← or_panic (prepare a)
            put (name_of a') (value_of a')
            gathered ← rest
            pure (add_object (value_of a') temp_subs gathered))
        ]

  -- One case of the switch. A list that is not found has no objects.
  unfoldable pub replay_list : Codec → String → Prog Gathered
  unfolding replay_each
  replay_list c list = do
    found ← get_names c list
    elim found [ none ↦ pure ([], []) | some m ↦ replay_each (Dict.keys m) ]

module _ (c : Codec) (bus : EventBus) (versions : String → String) (component_name : String) where
  replay_vrfs : Prog Gathered
  unfolding replay_list
  replay_vrfs =
      replay_list c.as_vrf
        (λ v.
          Vrf.prepare_objects_for_replay (versions v.name) component_name
            (get_subscribers bus "vrf") v)
        (λ v. v.name) vrf c "vrfs"

  replay_lbs : Prog Gathered
  unfolding replay_list
  replay_lbs =
      replay_list c.as_bridge
        (λ b.
          LogicalBridge.prepare_objects_for_replay (versions b.name) component_name
            (get_subscribers bus "logical-bridge") b)
        (λ b. b.name) bridge c "lbs"

  replay_svis : Prog Gathered
  unfolding replay_list
  replay_svis =
      replay_list c.as_svi
        (λ s.
          Svi.prepare_objects_for_replay (versions s.name) component_name
            (get_subscribers bus "svi") s)
        (λ s. s.name) svi c "svis"

  replay_bps : Prog Gathered
  unfolding replay_list
  replay_bps =
      replay_list c.as_port
        (λ p.
          BridgePort.prepare_objects_for_replay (versions p.name) component_name
            (get_subscribers bus "bridge-port") p)
        (λ p. p.name) port c "bps"

  -- The switch on the object type.
  gather_type : String → Prog Gathered
  unfolding replay_vrfs replay_lbs replay_svis replay_bps
  gather_type obj_type =
      if obj_type == "vrf"
      then replay_vrfs
      else if obj_type == "logical-bridge"
      then replay_lbs
      else if obj_type == "svi"
      then replay_svis
      else if obj_type == "bp"
      then replay_bps
      else pure ([], [])

  unfoldable pub gather_objects_and_subs_to_replay : List String → Prog Gathered
  unfolding gather_type
  gather_objects_and_subs_to_replay [] = pure ([], [])
  gather_objects_and_subs_to_replay (obj_type ∷ types) =
      let rest = gather_objects_and_subs_to_replay types in
      do g ← gather_type obj_type; g' ← rest; pure (join g g')

-- The keys of `typesAndSubs`.
abbrev pub object_types : List String
object_types = "bridge-port" ∷ "svi" ∷ "logical-bridge" ∷ "vrf" ∷ []

-- The loop over the types.
unfoldable pub types_of_component : EventBus → String → List String → List String
types_of_component bus component_name [] = []
types_of_component bus component_name (obj_type ∷ types) =
    let rest = types_of_component bus component_name types in
    if has_name component_name (get_subscribers bus obj_type) then obj_type ∷ rest else rest

-- `ranged` puts the keys into the order in which the range over the map goes through them.
unfoldable pub get_object_types_to_replay :
    EventBus → String → (ranged : List String → List String) → List String
unfolding types_of_component
get_object_types_to_replay bus component_name ranged =
    types_of_component bus component_name (ranged object_types)

task : String → String → String → List Subscriber → Prog (Unit {0})
task name object_type resource_version subs =
    create_task
      (record {
        name = name;
        object_type = object_type;
        resource_version = resource_version;
        subs = subs;
      })
      (pure tt)

task_for : Value → List Subscriber → Prog (Unit {0})
unfolding task
task_for (vrf v) subs = task v.name "vrf" v.resource_version subs
task_for (bridge b) subs = task b.name "logical-bridge" b.resource_version subs
task_for (svi s) subs = task s.name "svi" s.resource_version subs
task_for (port p) subs = task p.name "bridge-port" p.resource_version subs
task_for _ subs = pure tt

-- The two lists have the same length.
unfoldable pub create_replay_tasks : List Value → List (List Subscriber) → Prog (Unit {0})
unfolding task_for
create_replay_tasks [] subs_for_replay = pure tt
create_replay_tasks (v ∷ objects) [] = pure tt
create_replay_tasks (v ∷ objects) (subs ∷ subs_for_replay) = do
  task_for v subs
  create_replay_tasks objects subs_for_replay

-- The end of startReplayProcedure, once the pre-replay steps have succeeded.
unfoldable pub replay_objects :
    Codec → EventBus → (String → String) → String → (List String → List String) → Prog (Unit {0})
unfolding gather_objects_and_subs_to_replay create_replay_tasks get_object_types_to_replay
replay_objects c bus versions component_name ranged = do
  (objects, subs) ←
      gather_objects_and_subs_to_replay c bus versions component_name
        (get_object_types_to_replay bus component_name ranged)
  create_replay_tasks objects subs

-- How the exchange with the pre-replay subscriber ends: its channel is busy, or it sends an error,
-- or none.
pub record PreReplay : Type 0 where
  pub busy : Bool
  pub sent : Option String

abbrev exchange : PreReplay → ActionSubscriber → Option String
exchange pre s = elim (publish pre.busy s) [ some e ↦ some e | none ↦ pre.sent ]

-- startReplayProcedure, but for the lock and for the message that the task manager may go on, which
-- is sent in any case before the tasks are created. An error is only logged.
unfoldable pub start_replay_procedure :
    Codec
    → EventBus
    → ActionBus
    → (String → String)
    → PreReplay
    → String
    → (List String → List String)
    → Prog (Unit {0})
unfolding replay_objects
start_replay_procedure c bus actions versions pre component_name ranged =
    elim (named component_name (pre_subscribers "preReplay" actions)) [
      | none ↦ pure tt
      | some s ↦ elim (exchange pre s) [
        | some e ↦ pure tt
        | none ↦ replay_objects c bus versions component_name ranged
      ]
    ]
