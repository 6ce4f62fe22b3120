-- ===== src/Netlink/Nexthops.antt =====
-- tryResolve and addNexthop of pkg/netlink/nexthop.go, and addRoute of route.go.
pub mod Resolved
pub mod Depth
pub mod Enough
pub mod Ecmp
use opi_evpn_bridge.Prelude.{
  ℕ, zero, suc, String, Bool, true, false, ◌&&◌, not, List, [], ◌∷◌, ◌++◌, Option, none, some, ◌==◌,
  string_eq, if◌then◌else◌,
}
use opi_evpn_bridge.Prelude.Dict.{Dict, lookup, insert}
use opi_evpn_bridge.Netlink.Ids.{IdCache, assign_id}
use opi_evpn_bridge.Netlink.Entries.{
  NhType, NexthopKey, NeighKey, RouteKey, NeighStruct, NexthopStruct, RouteStruct, vxlan,
  nexthop_eq, route_eq, neigh_eq,
}

-- The snapshot that is being built. `lookup_route` is what lookupRoute finds for an address in the
-- GRD, from the kernel's answer: the next hops of the route, if there is one.
pub record Snapshot : Type 0 where
  pub latest_neighbors : Dict NeighKey NeighStruct
  pub latest_nexthop : Dict NexthopKey NexthopStruct
  pub latest_routes : Dict RouteKey RouteStruct
  pub nh_ids : IdCache NexthopKey
  pub lookup_route : String → Option (List NexthopStruct)

abbrev pub is_vxlan : NhType → Bool
is_vxlan vxlan = true
is_vxlan _ = false

-- The text of an address, which may be nil.
abbrev ip_text : Option String → String
ip_text none = "<nil>"
ip_text (some ip) = ip

abbrev is_empty {ℓ} : {A : Type ℓ} → List A → Bool
is_empty [] = true
is_empty (x ∷ xs) = false

abbrev over_grd : NexthopStruct → NexthopStruct → NexthopStruct
over_grd nh grd = record nh {
  gw = grd.gw;
  link_index = grd.link_index;
  key = record {
    vrf_name = nh.vrf_name;
    dst = ip_text grd.gw;
    dev = grd.link_index;
    local = nh.local;
    weight = nh.weight;
  };
  neighbor = grd.neighbor;
  weight = grd.weight;
  resolved = true;
}

-- For each next hop in the GRD that resolves, the VXLAN next hop over it.
each_over :
    (NexthopStruct → NexthopStruct × List NexthopStruct)
    → NexthopStruct
    → List NexthopStruct
    → List NexthopStruct
each_over resolve nh [] = []
each_over resolve nh (grd ∷ grds) =
    let (grd', found) = resolve grd in
    let rest = each_over resolve nh grds in if is_empty found then rest else over_grd nh grd' ∷ rest

abbrev unresolved : NexthopStruct → NexthopStruct × List NexthopStruct
unresolved nh = (record nh { resolved = false; neighbor = none }, [])

abbrev with_vtep : String → NeighStruct → NexthopStruct → NexthopStruct
with_vtep gw n nh = record nh {
  meta = insert "inner_dmac" n.hardware_addr (insert "remote_vtep_ip" gw nh.meta);
}

abbrev alone : NexthopStruct → NexthopStruct × List NexthopStruct
alone nh = (nh, nh ∷ [])

over_route :
    (NexthopStruct → NexthopStruct × List NexthopStruct)
    → NexthopStruct
    → Option (List NexthopStruct)
    → NexthopStruct × List NexthopStruct
unfolding each_over
over_route resolve nh none = (nh, [])
over_route resolve nh (some grds) = (nh, each_over resolve nh grds)

-- tryResolve: the next hop as it leaves it, and what it returns. The fuel is the depth of VXLAN next
-- hops that lead to one another, which the source does not bound.
unfoldable pub try_resolve : ℕ → Snapshot → NexthopStruct → NexthopStruct × List NexthopStruct
unfolding over_route
try_resolve zero db nh = (nh, [])
try_resolve (suc fuel) db nh =
    let resolve = try_resolve fuel db in
    elim nh.gw [
      | none ↦ alone (record nh { resolved = true })
      | some gw ↦
          elim (lookup (record { dst = gw; vrf_name = nh.vrf_name; dev = nh.link_index })
            db.latest_neighbors) [
              | none ↦ unresolved nh
              | some n ↦
                  if is_vxlan nh.nh_type
                  then over_route resolve (with_vtep gw n nh) (db.lookup_route gw)
                  else alone (record nh { resolved = true; neighbor = some n })
            ]
    ]

-- addNexthop returns a route, or nil; a nil pointer that is read panics.
pub data Added : Type 0 where
  panicked : Added
  out_of_fuel : Added
  returned : Option RouteStruct → Snapshot → Added

abbrev join_route : NexthopKey → RouteStruct → RouteStruct
join_route key r = record r { nexthops = r.nexthops ++ key ∷ [] }

-- `route = nexthop.addNexthop(route)` for each of the next hops.
unfoldable pub add_each :
    (NexthopStruct → Option RouteStruct → Snapshot → Added)
    → List NexthopStruct
    → Option RouteStruct
    → Snapshot
    → Added
add_each add [] r db = returned r db
add_each add (nh ∷ nhs) r db = elim (add nh r db) [
  | panicked ↦ panicked
  | out_of_fuel ↦ out_of_fuel
  | returned r' db' ↦ add_each add nhs r' db'
]

link_existing : NexthopStruct → NexthopStruct → RouteStruct → Snapshot → Added
link_existing nh nh0 r db = returned (some (join_route nh.key r)) (record db {
  latest_nexthop =
      insert nh.key (record nh0 { route_refs = nh0.route_refs ++ r.key ∷ [] }) db.latest_nexthop;
})

store_new : NexthopStruct → RouteStruct → Snapshot → Added
store_new nh r db =
    let (id, ids) = assign_id nh.key db.nh_ids in
    returned (some (join_route nh.key r)) (record db {
      latest_nexthop =
          insert nh.key (record nh { route_refs = nh.route_refs ++ r.key ∷ []; id = id })
            db.latest_nexthop;
      nh_ids = ids;
    })

unfoldable pub add_nexthop :
    (enable_ecmp : Bool) → ℕ → NexthopStruct → Option RouteStruct → Snapshot → Added
unfolding link_existing store_new
add_nexthop enable_ecmp zero nh r db = out_of_fuel
add_nexthop enable_ecmp (suc fuel) nh none db = panicked
add_nexthop enable_ecmp (suc fuel) nh (some r) db =
    let add = add_nexthop enable_ecmp fuel in
    if not (is_empty r.nexthops) && not enable_ecmp
    then returned none db
    else elim (lookup nh.key db.latest_nexthop) [
      | some nh0 ↦ link_existing nh nh0 r db
      | none ↦
          if nh.resolved
          then store_new nh r db
          else add_each add (try_resolve fuel db nh).1 (some r) db
    ]

-- A route that has been parsed, with its next hops.
pub record ParsedRoute : Type 0 where
  pub route : RouteStruct
  pub parsed_nexthops : List NexthopStruct

abbrev cleared : NexthopStruct → NexthopStruct
cleared nh = record nh { meta = [] }

abbrev map_cleared : List NexthopStruct → List NexthopStruct
map_cleared [] = []
map_cleared (nh ∷ nhs) = cleared nh ∷ map_cleared nhs

-- addRoute, where `none` is a panic. The first route of a key stays, whatever the metrics.
pub data RouteAdded : Type 0 where
  panicked : RouteAdded
  out_of_fuel : RouteAdded
  added : Snapshot → RouteAdded

abbrev stored : Added → RouteAdded
stored panicked = panicked
stored out_of_fuel = out_of_fuel
stored (returned none db) = panicked
stored (returned (some r) db) =
    added (record db { latest_routes = insert r.key r db.latest_routes })

unfoldable pub add_route : (enable_ecmp : Bool) → ℕ → ParsedRoute → Snapshot → RouteAdded
add_route enable_ecmp fuel p db = elim (lookup p.route.key db.latest_routes) [
  | some r0 ↦ added db
  | none ↦ stored (
      add_each (add_nexthop enable_ecmp fuel) (map_cleared p.parsed_nexthops)
        (some (record p.route { nexthops = [] })) db)
]
