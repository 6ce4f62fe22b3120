-- ===== src/Netlink/Entries.antt =====
-- The entries of pkg/netlink's tables of routes and next hops, of route.go, nexthop.go and
-- neighbor.go, as far as the code here reads them. A pointer into a table is the key that it has
-- there. An IP or MAC address is the text that its `String` method prints.
use opi_evpn_bridge.Prelude.{
  ℕ, String, Bool, true, false, ◌&&◌, not, ◌≡◌, ◌↔◌, List, Option, ◌==◌, nat_eq, string_eq,
  nat_beq_iff, Eq, arith,
}
use text.Mathlib.TextEquality.{eq_iff}
use opi_evpn_bridge.Prelude.Dict.{Dict}
use opi_evpn_bridge.Infradb.Components.{OperStatus}

-- The types of next hops, of L2 next hops and of forwarding entries.
pub data NhType : Type 0 where
  phy vrf_neighbor svi acc vxlan bridge_port other ignore ecmp : NhType

pub data NlType : Type 0 where
  connected evpn_vxlan static bgp local neighbor unknown : NlType

pub record NexthopKey : Type 0 where
  pub vrf_name : String
  pub dst : String
  pub dev : ℕ
  pub local : Bool
  pub weight : ℕ

pub record RouteKey : Type 0 where
  pub table : ℕ
  pub dst : String

pub record NeighKey : Type 0 where
  pub dst : String
  pub vrf_name : String
  pub dev : ℕ

abbrev same_bool : Bool → Bool → Bool
same_bool true b = b
same_bool false b = not b

abbrev same_nexthop : NexthopKey → NexthopKey → Bool
same_nexthop k l =
    k.vrf_name == l.vrf_name
    && k.dst == l.dst
    && k.dev == l.dev
    && same_bool k.local l.local
    && k.weight == l.weight

pub same_nexthop_iff : (k l : NexthopKey) → (same_nexthop k l ≡ true) ↔ (k ≡ l)
same_nexthop_iff k l = ground (
  arith,
  eq_iff k.vrf_name l.vrf_name,
  eq_iff k.dst l.dst,
  nat_beq_iff k.dev l.dev,
  nat_beq_iff k.weight l.weight,
)

instance abbrev pub nexthop_eq : Eq NexthopKey
nexthop_eq = record { same = same_nexthop; same_iff = same_nexthop_iff }

abbrev same_route : RouteKey → RouteKey → Bool
same_route k l = k.table == l.table && k.dst == l.dst

pub same_route_iff : (k l : RouteKey) → (same_route k l ≡ true) ↔ (k ≡ l)
same_route_iff k l = ground (arith, eq_iff k.dst l.dst, nat_beq_iff k.table l.table)

instance abbrev pub route_eq : Eq RouteKey
route_eq = record { same = same_route; same_iff = same_route_iff }

abbrev same_neigh : NeighKey → NeighKey → Bool
same_neigh k l = k.dst == l.dst && k.vrf_name == l.vrf_name && k.dev == l.dev

pub same_neigh_iff : (k l : NeighKey) → (same_neigh k l ≡ true) ↔ (k ≡ l)
same_neigh_iff k l =
    ground (arith, eq_iff k.dst l.dst, eq_iff k.vrf_name l.vrf_name, nat_beq_iff k.dev l.dev)

instance abbrev pub neigh_eq : Eq NeighKey
neigh_eq = record { same = same_neigh; same_iff = same_neigh_iff }

pub record NeighStruct : Type 0 where
  pub key : NeighKey
  pub neigh_type : NhType
  pub hardware_addr : String

pub record NexthopStruct : Type 0 where
  pub gw : Option String
  pub link_index : ℕ
  pub vrf_name : String
  pub vrf_oper_status : OperStatus
  pub local : Bool
  pub weight : ℕ
  pub id : ℕ
  pub route_refs : List RouteKey
  pub key : NexthopKey
  pub resolved : Bool
  pub neighbor : Option NeighStruct
  pub nh_type : NhType
  pub meta : Dict String String

pub record RouteStruct : Type 0 where
  pub vrf_name : String
  pub vrf_oper_status : OperStatus
  pub dst_ip : String
  pub dst_is_loopback : Bool
  pub priority : ℕ
  pub nexthops : List NexthopKey
  pub nl_type : NlType
  pub key : RouteKey
