-- ===== src/Server/Bridges/Examples.antt =====
-- The server of logical bridges on a store in memory.
use opi_evpn_bridge.Prelude.{◌≡◌, refl, true, false, [], none, some, ◌==◌, string_eq, nat_eq}
use opi_evpn_bridge.Prelude.Dict.{lookup, insert}
use opi_evpn_bridge.EventBus.{get_subscribers}
use opi_evpn_bridge.Infradb.Components.{down}
use opi_evpn_bridge.Infradb.LogicalBridge.{IpNet, LogicalBridge}
use opi_evpn_bridge.Infradb.Store.{bridge}
use opi_evpn_bridge.Infradb.Program.{Content, World, update, run}
use opi_evpn_bridge.Infradb.Bridges.{create_lb, update_lb}
use opi_evpn_bridge.Infradb.Bridges.Delete.{is_unused}
use opi_evpn_bridge.Infradb.Reads.{get_lb}
use opi_evpn_bridge.Infradb.Examples.Objects.{codec, memory, bus, bridge_of, empty, world}
use opi_evpn_bridge.Server.Messages.{PbBridge, to_pb, new_logical_bridge, domain_bridge}
use opi_evpn_bridge.Server.Bridges.{
  Aip, answer, is_spec_valid, create_bridge, update_bridge, create_logical_bridge,
  update_logical_bridge,
}
use opi_evpn_bridge.Server.Bridges.Create.{create_logical_bridge_idem}
use opi_evpn_bridge.Server.Bridges.Update.{rebuilt, update_logical_bridge-is_unused}

-- Every request is well formed, and the mask takes over the whole object.
abbrev aip : Aip
aip = record {
  Mask = Unit;
  is_required_set = λ pb. true;
  is_user_settable = λ id. true;
  is_valid_name = λ name. true;
  is_valid_mask = λ mask pb. true;
  full_name = λ id. id;
  apply_mask = λ mask old new. new;
  deep_equal = λ old new. old.spec.vlan_id == new.spec.vlan_id;
}

abbrev vtep : IpNet
vtep = record { ip = 1; len = 32 }

abbrev request : PbBridge
request = record {
  name = "";
  spec = record { vlan_id = 10; vni = some 100; vtep_ip_prefix = none };
  status = record { oper_status = down; components = [] };
}

abbrev created : PbBridge
created =
    to_pb (
      domain_bridge vtep "1" (get_subscribers bus "logical-bridge")
        (record request { name = "b1" }))

abbrev after_create : World Content
after_create =
    (create_logical_bridge memory codec bus aip vtep "1" "g" "b1" request (world empty)).1

create_logical_bridge_idem_example :
    create_logical_bridge memory codec bus aip vtep "2" "h" "b1" request after_create
    ≡ (answer created, after_create)
unfolding create_logical_bridge create_bridge get_lb is_spec_valid new_logical_bridge run create_lb
    lookup insert get_subscribers
create_logical_bridge_idem_example =
    create_logical_bridge_idem memory codec bus aip vtep "1" "2" "g" "h" "b1" request request
      (world empty) created refl refl refl refl refl refl

-- A bridge that an SVI uses, and a request for another VLAN.
abbrev used : LogicalBridge
used = record (bridge_of "b1" (some 100) down []) { svi = "s1" }

abbrev with_used : World Content
with_used = world (update empty "b1" (bridge used))

abbrev other_vlan : PbBridge
other_vlan = record request { name = "b1"; spec = record request.spec { vlan_id = 20 } }

abbrev after_update : World Content
after_update = (update_logical_bridge memory codec bus aip vtep "2" tt other_vlan false with_used).1

update_logical_bridge-is_unused_example :
    (after_update.db "b1"
      ≡ some (bridge (rebuilt memory codec bus aip vtep "2" tt other_vlan false with_used used)))
    × (is_unused (rebuilt memory codec bus aip vtep "2" tt other_vlan false with_used used) ≡ true)
unfolding update_logical_bridge update_bridge get_lb is_spec_valid new_logical_bridge run update_lb
    lookup get_subscribers to_pb domain_bridge
update_logical_bridge-is_unused_example =
    update_logical_bridge-is_unused memory codec bus aip vtep "2" tt other_vlan false with_used used
      (to_pb (rebuilt memory codec bus aip vtep "2" tt other_vlan false with_used used)) refl refl
      refl refl
