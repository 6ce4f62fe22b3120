-- ===== src/Infradb/Examples/Bridges.antt =====
-- The theorems about logical bridges, at sample objects.
use opi_evpn_bridge.Prelude.{◌≡◌, refl, false, [], ◌∷◌, none, some, string_eq}
use opi_evpn_bridge.Prelude.Dict.{lookup, insert, delete}
use opi_evpn_bridge.EventBus.{get_subscribers}
use opi_evpn_bridge.Infradb.Errors.{ok}
use opi_evpn_bridge.Infradb.Components.{down, to_be_deleted, set_component, all_success}
use opi_evpn_bridge.Infradb.LogicalBridge.{
  LogicalBridge, set_component_state, check_for_all_success, parse_meta,
}
use opi_evpn_bridge.Infradb.Store.{bridge, names, numbers}
use opi_evpn_bridge.Infradb.Program.{Content, World, update, run, done}
use opi_evpn_bridge.Infradb.Program.Refine.{view}
use opi_evpn_bridge.Infradb.Bridges.{create_lb, update_lb_status}
use opi_evpn_bridge.Infradb.Bridges.Create.{IsCreated, create_lb-IsCreated}
use opi_evpn_bridge.Infradb.Bridges.Status.{IsReported, updated, update_lb_status-IsReported}
use opi_evpn_bridge.Infradb.Bridges.Outcomes.{create_lb-result}
use opi_evpn_bridge.Infradb.Ops.{is_empty}
use opi_evpn_bridge.Infradb.Examples.Objects.{
  codec, memory, memory-IsReliable, bus, bridge_of, awaited, last_success, empty, world,
}

abbrev b1 : LogicalBridge
b1 = bridge_of "b1" (some 100) down awaited

abbrev after_create : World Content
after_create = (run memory (create_lb codec bus b1) (world empty)).1

create_lb-IsCreated_example :
    IsCreated codec bus b1 (world empty) (view memory after_create) 100 "b1"
unfolding run create_lb lookup insert get_subscribers
create_lb-IsCreated_example =
    create_lb-IsCreated memory codec bus b1 (world empty) 100 "b1" refl refl refl

-- A store with a bridge, one of whose components has not yet succeeded.
abbrev with_bridge : LogicalBridge → World Content
with_bridge lb = world (
    update
      (update (update empty lb.name (bridge lb)) "vpns" (numbers ((100, false) ∷ (0, false) ∷ [])))
      "lbs" (names ((lb.name, false) ∷ [])))

abbrev dying : LogicalBridge
dying = bridge_of "b1" (some 100) to_be_deleted awaited

update_lb_status-IsReported_example :
    IsReported codec last_success "n1"
      (updated none last_success dying)
      (with_bridge dying)
      (view memory
        (run memory (update_lb_status codec "b1" "1" "n1" none last_success) (with_bridge dying)).1)
      "b1"
      "b1"
      100
unfolding run update_lb_status lookup delete get_subscribers set_component all_success
    set_component_state parse_meta check_for_all_success
update_lb_status-IsReported_example =
    update_lb_status-IsReported memory codec "b1" "1" "n1" none last_success dying
      (with_bridge dying) refl "b1" "b1" 100 refl refl refl refl refl refl refl

create_lb-result_example :
    (run memory (create_lb codec bus (bridge_of "b2" (some 200) down [])) (with_bridge b1)).0
    ≡ done (ok tt)
unfolding lookup get_subscribers is_empty
create_lb-result_example =
    create_lb-result memory codec bus (with_bridge b1) memory-IsReliable
      (bridge_of "b2" (some 200) down []) refl refl refl
