-- ===== src/Netlink/Examples.antt =====
-- The theorems about the netlink watcher, at sample entries.
mod Routes
use opi_evpn_bridge.Prelude.{
  ℕ, String, ◌≡◌, refl, Bool, true, false, [], ◌∷◌, Option, none, some, ◌↔◌, nat_eq, string_eq,
  nat_beq_iff, nat_beq, if◌then◌else◌,
}
use opi_evpn_bridge.Prelude.Dict.{Dict, lookup, insert}
use opi_evpn_bridge.Infradb.Errors.{Result, err, key_not_found}
use opi_evpn_bridge.Infradb.Components.{OperStatus, up, to_be_deleted}
use opi_evpn_bridge.Infradb.BridgePort.{BridgePort}
use opi_evpn_bridge.Netlink.Changes.{
  Event, route, fdb, route_operations, fdb_operations, notify_changes, monitor, monitor_netlink,
  filter_map, resync,
}
use opi_evpn_bridge.Netlink.Changes.Received.{receive_all}
use opi_evpn_bridge.Netlink.Changes.Subscriber.{notify_changes-expected}
use opi_evpn_bridge.Netlink.Changes.Subscriber.Polls.{
  monitor-receive_all, monitor_netlink-receive_all,
}
use opi_evpn_bridge.Netlink.Ids.{initial_ids, assign_id}
use opi_evpn_bridge.Netlink.Ids.Unique.{assign_all, assign_id-assign_id, initial_ids-IsUnique}
use opi_evpn_bridge.Netlink.Entries.{
  NexthopStruct, RouteStruct, nexthop_eq, route_eq, neigh_eq, acc, static,
}
use opi_evpn_bridge.Netlink.Nexthops.{Snapshot, RouteAdded, add_route}
use opi_evpn_bridge.Netlink.Nexthops.Ecmp.{add_route-panicked}
use opi_evpn_bridge.Netlink.Nexthops.Depth.{IsPlain, AllPlain}
use opi_evpn_bridge.Netlink.Fdb.{
  FdbIpStruct, L2NexthopKey, L2NexthopStruct, FdbSnapshot, fdb_eq, l2_eq,
}
use opi_evpn_bridge.Netlink.Fdb.Added.{IsLinked}
use opi_evpn_bridge.Netlink.Fdb.Linked.{add_all, parsed, empty_snapshot, add_all-IsLinked}

-- Routes to the number `dst`, of which the metric is compared; the route to 9 is of a VRF that is to
-- be deleted.
pub record Sample : Type 0 where
  pub dst : ℕ
  pub metric : ℕ

abbrev same_metric : Sample → Sample → Bool
same_metric a b = nat_beq a.metric b.metric

abbrev vrf_status : Sample → Option OperStatus
vrf_status a = if nat_beq a.dst 9 then some to_be_deleted else some up

abbrev to : ℕ → ℕ → ℕ × Sample
to dst metric = (dst, record { dst = dst; metric = metric })

abbrev routes : Event
routes = record { event_type = route; operation = route_operations }

-- The route to 1 stays, the one to 2 gets another metric, as does the one to 9, and 3 goes.
abbrev old_routes : Dict ℕ Sample
old_routes = to 1 5 ∷ to 2 5 ∷ to 3 5 ∷ to 9 5 ∷ []

abbrev new_routes : Dict ℕ Sample
new_routes = to 9 6 ∷ to 2 6 ∷ to 1 5 ∷ to 4 5 ∷ []

notify_changes-expected_example :
    receive_all
      (λ v. v.dst)
      route_operations
      (notify_changes same_metric vrf_status routes new_routes old_routes)
      2
      (some (record { dst = 2; metric = 5 }))
    ≡ some (record { dst = 2; metric = 6 })
unfolding lookup
notify_changes-expected_example =
    notify_changes-expected same_metric vrf_status routes (λ v. v.dst) new_routes old_routes 2
      (some (record { dst = 2; metric = 5 })) refl refl
      (refl, refl, (refl, refl, (refl, refl, (refl, refl, tt))))
      (refl, refl, (refl, refl, (refl, refl, (refl, refl, tt))))

abbrev entries : Event
entries = record { event_type = fdb; operation = fdb_operations }

abbrev always : Sample → Bool
always a = true

compares : (v w : Sample) → (same_metric v w ≡ true) ↔ (v.metric ≡ w.metric)
compares v w = nat_beq_iff v.metric w.metric

abbrev metric_of : Option Sample → Option ℕ
metric_of none = none
metric_of (some a) = some a.metric

monitor-receive_all_example :
    metric_of (
      receive_all
        (λ v. v.dst)
        fdb_operations
        (monitor same_metric vrf_status entries always (old_routes ∷ new_routes ∷ []) []).0
        4
        none)
    ≡ some 5
unfolding lookup monitor filter_map resync
monitor-receive_all_example =
    monitor-receive_all same_metric vrf_status entries (λ v. v.dst) (λ v. v.metric) always compares
      refl refl (old_routes ∷ new_routes ∷ []) 4
      (
        (refl, refl, refl, (refl, refl, refl, (refl, refl, refl, (refl, refl, refl, tt)))),
        ((refl, refl, refl, (refl, refl, refl, (refl, refl, refl, (refl, refl, refl, tt)))), tt),
      )

abbrev first_key : String
first_key = "a"

abbrev other_key : String
other_key = "b"

monitor_netlink-receive_all_example :
    metric_of (
      receive_all
        (λ v. v.dst)
        fdb_operations
        (monitor_netlink same_metric vrf_status entries always (old_routes ∷ new_routes ∷ []))
        4
        none)
    ≡ none
unfolding lookup filter_map
monitor_netlink-receive_all_example =
    monitor_netlink-receive_all same_metric vrf_status entries (λ v. v.dst) (λ v. v.metric) always
      compares refl refl (old_routes ∷ new_routes ∷ []) 4
      (
        (refl, refl, refl, (refl, refl, refl, (refl, refl, refl, (refl, refl, refl, tt)))),
        ((refl, refl, refl, (refl, refl, refl, (refl, refl, refl, (refl, refl, refl, tt)))), tt),
      )

assign_id-assign_id_example :
    ((assign_id other_key (assign_all ("c" ∷ []) (assign_id first_key initial_ids).1)).0 ≡ 16)
    ↔ (other_key ≡ first_key)
unfolding assign_id assign_all lookup insert
assign_id-assign_id_example = assign_id-assign_id [] ("c" ∷ []) first_key other_key

abbrev mac : String → FdbIpStruct
mac m = record { mac = m; ifname = "vxlan-10"; vlan = 10; state = "permanent"; dst = "10.0.0.1" }

abbrev no_port : String → Result BridgePort
no_port name = err key_not_found

abbrev snapshot : FdbSnapshot
snapshot = add_all (parsed [] no_port (mac "aa" ∷ mac "bb" ∷ [])) (empty_snapshot initial_ids)

add_all-IsLinked_example :
    IsLinked snapshot
    × ((k l : L2NexthopKey) (m n : L2NexthopStruct)
        → lookup k snapshot.latest_l2_nexthop ≡ some m
        → lookup l snapshot.latest_l2_nexthop ≡ some n
        → m.id ≡ n.id
        → k ≡ l)
add_all-IsLinked_example =
    add_all-IsLinked [] no_port (mac "aa" ∷ mac "bb" ∷ []) initial_ids initial_ids-IsUnique
