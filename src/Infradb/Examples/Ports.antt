-- ===== src/Infradb/Examples/Ports.antt =====
-- The theorems about bridge ports, replays and routing tables, at sample objects.
use opi_evpn_bridge.Prelude.Int.{pos}
use opi_evpn_bridge.Prelude.{◌≡◌, refl, false, String, [], ◌∷◌, none, string_eq, nat_eq}
use opi_evpn_bridge.Prelude.Dict.{lookup, insert, delete}
use opi_evpn_bridge.EventBus.{EventBus, get_subscribers, has_name}
use opi_evpn_bridge.Infradb.Errors.{Result, ok, err, routing_table_in_use}
use opi_evpn_bridge.Infradb.Components.{down, to_be_deleted, set_component, all_success}
use opi_evpn_bridge.Infradb.LogicalBridge.{LogicalBridge, add_bridge_port, delete_bridge_port}
use opi_evpn_bridge.Infradb.BridgePort.{
  BridgePort, set_component_state, parse_meta, check_for_all_success,
}
use opi_evpn_bridge.Infradb.Store.{Value, numbers, bridge, names}
use opi_evpn_bridge.Infradb.Program.{Content, World, update, run, done}
use opi_evpn_bridge.Infradb.Program.Refine.{view}
use opi_evpn_bridge.Infradb.Ports.{create_bp, attach_port, update_bp_status, detach_port}
use opi_evpn_bridge.Infradb.Ports.Status.{IsReported, updated, update_bp_status-IsReported}
use opi_evpn_bridge.Infradb.Ports.Attach.{IsCreated, is_distinct, contains, create_bp-IsCreated}
use opi_evpn_bridge.Infradb.Replay.{replay_objects}
use opi_evpn_bridge.Infradb.Replay.Ports.{replay_objects-ports}
use opi_evpn_bridge.Infradb.Examples.Objects.{
  awaited, codec, memory, bus, bridge_of, port_of, empty, world, subs, last_success,
}

abbrev bridges : String → LogicalBridge
bridges n = bridge_of n none down []

abbrev two_bridges : World Content
two_bridges =
    world (update (update empty "b1" (bridge (bridges "b1"))) "b2" (bridge (bridges "b2")))

abbrev p1 : BridgePort
p1 = port_of "p1" ("b1" ∷ "b2" ∷ [])

create_bp-IsCreated_example :
    IsCreated bus p1 bridges two_bridges
      (view memory (run memory (create_bp codec bus p1) two_bridges).1)
      "b2"
unfolding run create_bp attach_port lookup insert get_subscribers is_distinct contains
    add_bridge_port
create_bp-IsCreated_example =
    create_bp-IsCreated memory codec bus p1 bridges two_bridges "b2" refl refl
      ((refl, refl), ((refl, refl), tt)) refl refl refl

-- A bus on which the component `ports` handles bridge ports and nothing else.
abbrev port_bus : EventBus
port_bus = record bus {
  subscribers =
      ("bridge-port", record { id = 7; name = "ports"; priority = pos 1 } ∷ [])
      ∷ ("vrf", subs)
      ∷ [];
}

replay_objects-ports_example :
    run memory (replay_objects codec port_bus (λ n. n) "ports" (λ ts. ts)) two_bridges
    ≡ (done (ok tt), two_bridges)
unfolding lookup get_subscribers has_name
replay_objects-ports_example =
    replay_objects-ports memory codec port_bus (λ n. n) "ports" (λ ts. ts) two_bridges
      (refl, (refl, (refl, (refl, tt))))

abbrev tables : World Content
tables = world (update empty "rts" (numbers ((1001, false) ∷ [])))

abbrev rejected : Result (Unit {0})
rejected = err routing_table_in_use

abbrev full : String → LogicalBridge
full n = record (bridges n) {
  bridge_ports = ("p1", false) ∷ [];
  mac_table = ("aa:aa:aa:00:00:02", "p1") ∷ [];
}

abbrev dying : BridgePort
dying = record p1 { status = record { bp_oper_status = to_be_deleted; components = awaited } }

abbrev with_port : World Content
with_port = world (
    update
      (update (update (update empty "b1" (bridge (full "b1"))) "b2" (bridge (full "b2"))) "p1"
        (Value.port dying))
      "bps" (names (("p1", false) ∷ [])))

update_bp_status-IsReported_example :
    IsReported codec last_success "n1"
      (updated none last_success dying)
      full
      with_port
      (view memory
        (run memory (update_bp_status codec "p1" "1" "n1" none last_success) with_port).1)
      "b2"
      "p1"
unfolding run update_bp_status detach_port delete_bridge_port lookup delete set_component
    all_success set_component_state parse_meta check_for_all_success is_distinct contains
update_bp_status-IsReported_example =
    update_bp_status-IsReported memory codec "p1" "1" "n1" none last_success dying full with_port
      refl "b2" "p1" refl ((refl, refl), ((refl, refl), tt)) refl refl refl refl refl refl
