-- ===== src/Netlink/Examples/Routes.antt =====
-- The theorems about routes and their next hops, at sample ones.
use opi_evpn_bridge.Prelude.{ℕ, ◌≡◌, refl, false, [], ◌∷◌, none, some}
use opi_evpn_bridge.Prelude.Dict.{lookup}
use opi_evpn_bridge.Infradb.Components.{up}
use opi_evpn_bridge.Netlink.Ids.{initial_ids}
use opi_evpn_bridge.Netlink.Entries.{
  NexthopStruct, RouteStruct, nexthop_eq, route_eq, neigh_eq, acc, static, vxlan,
}
use opi_evpn_bridge.Netlink.Nexthops.{Snapshot, RouteAdded, add_route}
use opi_evpn_bridge.Netlink.Nexthops.Ecmp.{add_route-panicked}

abbrev hop : ℕ → NexthopStruct
hop dev = record {
  gw = none;
  link_index = dev;
  vrf_name = "red";
  vrf_oper_status = up;
  local = false;
  weight = 1;
  id = 0;
  route_refs = [];
  key = record { vrf_name = "red"; dst = "<nil>"; dev = dev; local = false; weight = 1 };
  resolved = false;
  neighbor = none;
  nh_type = acc;
  meta = [];
}

abbrev two_hops : RouteStruct
two_hops = record {
  vrf_name = "red";
  vrf_oper_status = up;
  dst_ip = "10.0.0.0";
  dst_is_loopback = false;
  priority = 1;
  nexthops = [];
  nl_type = static;
  key = record { table = 1000; dst = "10.0.0.0/24" };
}

abbrev nothing : Snapshot
nothing = record {
  latest_neighbors = [];
  latest_nexthop = [];
  latest_routes = [];
  nh_ids = initial_ids;
  lookup_route = λ ip. none;
}

add_route-panicked_example :
    add_route false 3 (record { route = two_hops; parsed_nexthops = hop 1 ∷ hop 2 ∷ [] }) nothing
    ≡ RouteAdded.panicked
unfolding lookup
add_route-panicked_example = add_route-panicked nothing two_hops (hop 1) (hop 2) [] 1 refl refl

-- A VXLAN next hop over the next hop 3 of a route in the GRD.
abbrev over_vxlan : NexthopStruct
over_vxlan = record (hop 2) { gw = some "10.1.1.1"; nh_type = vxlan }

abbrev in_grd : Snapshot
in_grd = record nothing {
  latest_neighbors =
      (
        record { dst = "10.1.1.1"; vrf_name = "red"; dev = 2 },
        record {
          key = record { dst = "10.1.1.1"; vrf_name = "red"; dev = 2 };
          neigh_type = vxlan;
          hardware_addr = "aa";
        },
      )
      ∷ [];
  lookup_route = λ ip. some (hop 3 ∷ []);
}
