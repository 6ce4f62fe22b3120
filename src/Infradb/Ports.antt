-- ===== src/Infradb/Ports.antt =====
-- The bridge ports of pkg/infradb/infradb.go: each logical bridge of a port holds a reference to
-- it. `bus` is the event bus, `c` the store's encoding, and a `version` what `generateVersion()`
-- returns.
pub mod Attach
pub mod Detach
pub mod Status
use opi_evpn_bridge.Prelude.{
  String, Bool, true, false, not, List, [], ◌∷◌, ◌++◌, Option, none, some, ◌==◌, string_eq,
  if◌then◌else◌,
}
use opi_evpn_bridge.Prelude.Dict
use opi_evpn_bridge.Component.{Component}
use opi_evpn_bridge.EventBus.{EventBus, get_subscribers}
use opi_evpn_bridge.Infradb.Errors.{key_not_found, logical_bridge_not_found}
use opi_evpn_bridge.Infradb.Components.{up, to_be_deleted, is_to_be_deleted, set_pending}
use opi_evpn_bridge.Infradb.LogicalBridge.{
  LogicalBridge, zero_bridge, add_bridge_port, delete_bridge_port,
}
use opi_evpn_bridge.Infradb.BridgePort.{
  BridgePort, BridgePortMetadata, set_component_state, check_for_all_success, parse_meta,
}
use opi_evpn_bridge.Infradb.Store.{Codec, port, bridge}
use opi_evpn_bridge.Infradb.Program.{
  Prog, pure, fail, delete, create_task, start_replay, from_result, ◌>>=◌, ◌>>◌,
}
use opi_evpn_bridge.Infradb.Ops.{
  need_subscribers, or_panic, put, report, get_bridge, get_port, get_names, add_name, remove_name,
}

abbrev object_type : String
object_type = "bridge-port"

abbrev marked_for_deletion : BridgePort → List Component → String → BridgePort
marked_for_deletion bp components version = record bp {
  status = record { bp_oper_status = to_be_deleted; components = components };
  resource_version = version;
}

abbrev brought_up : BridgePort → BridgePort
brought_up bp = record bp { status = record bp.status { bp_oper_status = up } }

abbrev or_zero_bridge : Option LogicalBridge → LogicalBridge
or_zero_bridge none = zero_bridge
or_zero_bridge (some lb) = lb

abbrev with_bridges : BridgePort → List String → BridgePort
with_bridges bp lbs = record bp {
  spec = record bp.spec { logical_bridges = bp.spec.logical_bridges ++ lbs };
}

abbrev with_vlan : BridgePort → LogicalBridge → BridgePort
with_vlan bp lb = record bp { vlans = bp.vlans ++ lb.spec.vlan_id ∷ [] }

module _ (c : Codec) where
  -- A transparent trunk belongs to every logical bridge.
  unfoldable pub expand_trunk : BridgePort → Prog BridgePort
  expand_trunk bp =
      if bp.transparent_trunk
      then (do
        found ← get_names c "lbs"
        elim found [
          | none ↦ fail key_not_found
          | some lbs ↦ pure (with_bridges bp (Dict.keys lbs))
        ])
      else pure bp

  -- The loop of CreateBP over the names of the bridges: each bridge is stored before the next one
  -- is read.
  unfoldable pub attach_port : List String → BridgePort → Prog BridgePort
  unfolding add_bridge_port
  attach_port [] bp = pure bp
  attach_port (lb_name ∷ rest) bp = do
    found ← get_bridge c lb_name
    elim found [
      | none ↦ fail logical_bridge_not_found
      | some lb ↦ (do
        lb' ← from_result (add_bridge_port bp.name bp.spec.mac_address lb)
        put lb'.name (bridge lb')
        attach_port rest (with_vlan bp lb))
    ]

  -- The end of CreateBP.
  store_port : EventBus → BridgePort → Prog (Unit {0})
  unfolding add_name
  store_port bus bp = do
    put bp.name (port bp)
    add_name c "bps" bp.name
    create_task
        (record {
          name = bp.name;
          object_type = object_type;
          resource_version = bp.resource_version;
          subs = get_subscribers bus object_type;
        })
        (pure tt)

  attach_and_store : EventBus → BridgePort → Prog (Unit {0})
  unfolding store_port
  attach_and_store bus bp = attach_port bp.spec.logical_bridges bp >>= store_port bus

  unfoldable pub create_bp : EventBus → BridgePort → Prog (Unit {0})
  unfolding expand_trunk attach_and_store
  create_bp bus bp = do
    need_subscribers object_type (get_subscribers bus object_type)
    expanded ← expand_trunk bp
    attach_and_store bus expanded

  delete_found_bp : EventBus → String → BridgePort → Prog (Unit {0})
  delete_found_bp bus version bp = do
    let subscribers = get_subscribers bus object_type
    components ← or_panic (set_pending subscribers bp.status.components)
    put bp.name (port (marked_for_deletion bp components version))
    create_task
        (record {
          name = bp.name;
          object_type = object_type;
          resource_version = version;
          subs = subscribers;
        })
        (pure tt)

  unfoldable pub delete_bp : EventBus → String → String → Prog (Unit {0})
  unfolding delete_found_bp
  delete_bp bus version name = do
    need_subscribers object_type (get_subscribers bus object_type)
    found ← get_port c name
    elim found [ none ↦ fail key_not_found | some bp ↦ delete_found_bp bus version bp ]

  unfoldable pub update_bp : EventBus → BridgePort → Prog (Unit {0})
  update_bp bus bp = do
    let subscribers = get_subscribers bus object_type
    need_subscribers object_type subscribers
    put bp.name (port bp)
    create_task
        (record {
          name = bp.name;
          object_type = object_type;
          resource_version = bp.resource_version;
          subs = subscribers;
        })
        (pure tt)

  collect : List String → Prog (List BridgePort)
  collect [] = pure []
  collect (k ∷ ks) =
      let rest = collect ks in
      do
        found ← get_port c k
        elim found [ none ↦ fail key_not_found | some bp ↦ (do bps ← rest; pure (bp ∷ bps)) ]

  -- GetAllBPs
  unfoldable pub get_all_bps : Prog (List BridgePort)
  unfolding collect
  get_all_bps = do
    found ← get_names c "bps"
    elim found [ none ↦ fail key_not_found | some m ↦ collect (Dict.keys m) ]

  -- The loop of UpdateBPStatus over the bridges of a port whose deletion ends. A bridge that is
  -- not found is read as the zero value.
  unfoldable pub detach_port : BridgePort → List String → Prog (Unit {0})
  unfolding delete_bridge_port
  detach_port bp [] = pure tt
  detach_port bp (lb_name ∷ rest) = do
    found ← get_bridge c lb_name
    lb ← from_result (delete_bridge_port bp.name bp.spec.mac_address (or_zero_bridge found))
    put lb.name (bridge lb)
    detach_port bp rest

  settle_bp : BridgePort → Prog (Unit {0})
  unfolding remove_name check_for_all_success
  settle_bp bp =
      if check_for_all_success bp
      then if is_to_be_deleted bp.status.bp_oper_status
        then (do
          detach_port bp bp.spec.logical_bridges
          delete bp.name (pure tt)
          remove_name c "bps" bp.name)
        else put bp.name (port (brought_up bp))
      else put bp.name (port bp)

  update_found_bp :
      String → String → Option BridgePortMetadata → Component → BridgePort → Prog (Unit {0})
  unfolding settle_bp set_component_state parse_meta
  update_found_bp resource_version notification_id bp_meta component bp =
      if not (bp.resource_version == resource_version)
      then report bp.name object_type bp.resource_version notification_id true component
      else if component.replay
      then (do
        report bp.name object_type bp.resource_version notification_id true component
        start_replay component.name (pure tt))
      else do
        settle_bp (parse_meta bp_meta (set_component_state component bp))
        report bp.name object_type bp.resource_version notification_id false component

  unfoldable pub update_bp_status :
      String → String → String → Option BridgePortMetadata → Component → Prog (Unit {0})
  unfolding update_found_bp
  update_bp_status name resource_version notification_id bp_meta component = do
    found ← get_port c name
    elim found [
      | none ↦ report name object_type "" notification_id true component
      | some bp ↦ update_found_bp resource_version notification_id bp_meta component bp
    ]
