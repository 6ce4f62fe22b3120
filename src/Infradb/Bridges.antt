-- ===== src/Infradb/Bridges.antt =====
-- The logical bridges of pkg/infradb/infradb.go. `bus` is the event bus, `c` the store's encoding,
-- and a `version` what `generateVersion()` returns.
pub mod Create
pub mod Status
pub mod Delete
pub mod Outcomes
use opi_evpn_bridge.Prelude.{
  String, Bool, true, false, not, List, [], ◌∷◌, Option, none, some, ◌==◌, string_eq, if◌then◌else◌,
}
use opi_evpn_bridge.Prelude.Dict
use opi_evpn_bridge.Prelude.Dict.{Dict}
use opi_evpn_bridge.Component.{Component}
use opi_evpn_bridge.EventBus.{EventBus, get_subscribers}
use opi_evpn_bridge.Infradb.Errors.{key_not_found, logical_bridge_not_empty}
use opi_evpn_bridge.Infradb.Components.{up, to_be_deleted, is_to_be_deleted, set_pending}
use opi_evpn_bridge.Infradb.LogicalBridge.{
  LogicalBridge, LogicalBridgeMetadata, set_component_state, check_for_all_success, parse_meta,
}
use opi_evpn_bridge.Infradb.Store.{Codec, bridge}
use opi_evpn_bridge.Infradb.Program.{
  Prog, pure, fail, delete, create_task, start_replay, ◌>>=◌, ◌>>◌,
}
use opi_evpn_bridge.Infradb.Ops.{
  is_empty, need_subscribers, or_panic, put, report, get_bridge, get_names, check_vni, store_vni,
  release_vni, add_name, remove_name,
}

abbrev object_type : String
object_type = "logical-bridge"

abbrev marked_for_deletion : LogicalBridge → List Component → String → LogicalBridge
marked_for_deletion lb components version = record lb {
  status = record { lb_oper_status = to_be_deleted; components = components };
  resource_version = version;
}

abbrev brought_up : LogicalBridge → LogicalBridge
brought_up lb = record lb { status = record lb.status { lb_oper_status = up } }

module _ (c : Codec) where
  unfoldable pub create_lb : EventBus → LogicalBridge → Prog (Unit {0})
  unfolding check_vni store_vni add_name
  create_lb bus lb = do
    let subscribers = get_subscribers bus object_type
    need_subscribers object_type subscribers
    vpns ← check_vni c lb.spec.vni
    put lb.name (bridge lb)
    store_vni c lb.spec.vni vpns
    add_name c "lbs" lb.name
    create_task
        (record {
          name = lb.name;
          object_type = object_type;
          resource_version = lb.resource_version;
          subs = subscribers;
        })
        (pure tt)

  delete_found_lb : EventBus → String → LogicalBridge → Prog (Unit {0})
  unfolding is_empty
  delete_found_lb bus version lb =
      if not (lb.svi == "")
      then fail logical_bridge_not_empty
      else if not (is_empty lb.bridge_ports)
      then fail logical_bridge_not_empty
      else if not (is_empty lb.mac_table)
      then fail logical_bridge_not_empty
      else do
        let subscribers = get_subscribers bus object_type
        components ← or_panic (set_pending subscribers lb.status.components)
        put lb.name (bridge (marked_for_deletion lb components version))
        create_task
            (record {
              name = lb.name;
              object_type = object_type;
              resource_version = version;
              subs = subscribers;
            })
            (pure tt)

  unfoldable pub delete_lb : EventBus → String → String → Prog (Unit {0})
  unfolding delete_found_lb
  delete_lb bus version name = do
    need_subscribers object_type (get_subscribers bus object_type)
    found ← get_bridge c name
    elim found [ none ↦ fail key_not_found | some lb ↦ delete_found_lb bus version lb ]

  unfoldable pub update_lb : EventBus → LogicalBridge → Prog (Unit {0})
  update_lb bus lb = do
    let subscribers = get_subscribers bus object_type
    need_subscribers object_type subscribers
    put lb.name (bridge lb)
    create_task
        (record {
          name = lb.name;
          object_type = object_type;
          resource_version = lb.resource_version;
          subs = subscribers;
        })
        (pure tt)

  collect : List String → Prog (List LogicalBridge)
  collect [] = pure []
  collect (k ∷ ks) =
      let rest = collect ks in
      do
        found ← get_bridge c k
        elim found [ none ↦ fail key_not_found | some lb ↦ (do lbs ← rest; pure (lb ∷ lbs)) ]

  -- GetAllLBs
  unfoldable pub get_all_lbs : Prog (List LogicalBridge)
  unfolding collect
  get_all_lbs = do
    found ← get_names c "lbs"
    elim found [ none ↦ fail key_not_found | some m ↦ collect (Dict.keys m) ]

  -- What the last component's success does to a bridge: the end of a deletion, or `up`.
  settle_lb : LogicalBridge → Prog (Unit {0})
  unfolding release_vni remove_name check_for_all_success
  settle_lb lb =
      if check_for_all_success lb
      then if is_to_be_deleted lb.status.lb_oper_status
        then (do delete lb.name (pure tt); release_vni c lb.spec.vni; remove_name c "lbs" lb.name)
        else put lb.name (bridge (brought_up lb))
      else put lb.name (bridge lb)

  update_found_lb :
      String → String → Option LogicalBridgeMetadata → Component → LogicalBridge → Prog (Unit {0})
  unfolding settle_lb set_component_state parse_meta
  update_found_lb resource_version notification_id lb_meta component lb =
      if not (lb.resource_version == resource_version)
      then report lb.name object_type lb.resource_version notification_id true component
      else if component.replay
      then (do
        report lb.name object_type lb.resource_version notification_id true component
        start_replay component.name (pure tt))
      else do
        settle_lb (parse_meta lb_meta (set_component_state component lb))
        report lb.name object_type lb.resource_version notification_id false component

  unfoldable pub update_lb_status :
      String → String → String → Option LogicalBridgeMetadata → Component → Prog (Unit {0})
  unfolding update_found_lb
  update_lb_status name resource_version notification_id lb_meta component = do
    found ← get_bridge c name
    elim found [
      | none ↦ report name object_type "" notification_id true component
      | some lb ↦ update_found_lb resource_version notification_id lb_meta component lb
    ]
