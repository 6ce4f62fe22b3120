-- ===== src/Netlink/Fdb.antt =====
-- The forwarding entries and their L2 next hops, of pkg/netlink/fdb.go and l2nexthop.go. The pointer
-- of an entry to its next hop is the key in the table; a next hop holds the entries that were added
-- to it themselves, since a later entry can take the place of one of them in the table. `lbs` is
-- what GetAllLBs returns, and `get_bp` is GetBP.
pub mod Added
pub mod Linked
use opi_evpn_bridge.Prelude.{
  ℕ, String, Bool, true, false, ◌&&◌, not, ◌≡◌, ◌↔◌, List, [], ◌∷◌, ◌++◌, Option, none, some, ◌==◌,
  nat_eq, string_eq, nat_beq_iff, Eq, arith, if◌then◌else◌,
}
use text.Mathlib.TextEquality.{eq_iff}
use opi_evpn_bridge.Prelude.Dict.{Dict, lookup, insert}
use opi_evpn_bridge.Prelude.Text.{sprint, decimal}
use opi_evpn_bridge.Infradb.Errors.{Result, ok, err}
use opi_evpn_bridge.Infradb.LogicalBridge.{LogicalBridge}
use opi_evpn_bridge.Infradb.BridgePort.{BridgePort}
use opi_evpn_bridge.Netlink.Ids.{IdCache, assign_id}
use opi_evpn_bridge.Netlink.Entries.{NhType, phy, svi, vxlan, bridge_port}

pub record FdbKey : Type 0 where
  pub vlan_id : ℕ
  pub mac : String

pub record L2NexthopKey : Type 0 where
  pub dev : String
  pub vlan_id : ℕ
  pub dst : String

abbrev same_fdb : FdbKey → FdbKey → Bool
same_fdb k l = k.vlan_id == l.vlan_id && k.mac == l.mac

pub same_fdb_iff : (k l : FdbKey) → (same_fdb k l ≡ true) ↔ (k ≡ l)
same_fdb_iff k l = ground (arith, eq_iff k.mac l.mac, nat_beq_iff k.vlan_id l.vlan_id)

instance abbrev pub fdb_eq : Eq FdbKey
fdb_eq = record { same = same_fdb; same_iff = same_fdb_iff }

abbrev same_l2 : L2NexthopKey → L2NexthopKey → Bool
same_l2 k l = k.dev == l.dev && k.vlan_id == l.vlan_id && k.dst == l.dst

pub same_l2_iff : (k l : L2NexthopKey) → (same_l2 k l ≡ true) ↔ (k ≡ l)
same_l2_iff k l =
    ground (arith, eq_iff k.dev l.dev, eq_iff k.dst l.dst, nat_beq_iff k.vlan_id l.vlan_id)

instance abbrev pub l2_eq : Eq L2NexthopKey
l2_eq = record { same = same_l2; same_iff = same_l2_iff }

-- An entry of the kernel's table, as `bridge fdb` prints it.
pub record FdbIpStruct : Type 0 where
  pub mac : String
  pub ifname : String
  pub vlan : ℕ
  pub state : String
  pub dst : String

pub record FdbEntryStruct : Type 0 where
  pub vlan_id : ℕ
  pub mac : String
  pub key : FdbKey
  pub state : String
  pub lb : Option LogicalBridge
  pub bp : Option BridgePort
  pub nexthop : L2NexthopKey
  pub fdb_type : NhType

pub record L2NexthopStruct : Type 0 where
  pub dev : String
  pub vlan_id : ℕ
  pub dst : String
  pub key : L2NexthopKey
  pub lb : Option LogicalBridge
  pub bp : Option BridgePort
  pub id : ℕ
  pub fdb_refs : List FdbEntryStruct
  pub resolved : Bool
  pub l2_type : NhType

-- `None`, which the source stores as the type of other next hops, is the number of PHY.
l2_type_of : ℕ → String → Option BridgePort → NhType
l2_type_of vlan_id dev bp =
    if dev == sprint ("svi-" ∷ decimal vlan_id ∷ [])
    then svi
    else if dev == sprint ("vxlan-" ∷ decimal vlan_id ∷ [])
    then vxlan
    else elim bp [ some _ ↦ bridge_port | none ↦ phy ]

unfoldable pub parse_l2nh :
    ℕ → String → String → Option LogicalBridge → Option BridgePort → L2NexthopStruct
unfolding l2_type_of
parse_l2nh vlan_id dev dst lb bp = record {
  dev = dev;
  vlan_id = vlan_id;
  dst = dst;
  key = record { dev = dev; vlan_id = vlan_id; dst = dst };
  lb = lb;
  bp = bp;
  id = 0;
  fdb_refs = [];
  resolved = true;
  l2_type = l2_type_of vlan_id dev bp;
}

first_of_vlan : ℕ → List LogicalBridge → Option LogicalBridge
first_of_vlan vlan [] = none
first_of_vlan vlan (lb ∷ lbs) =
    let rest = first_of_vlan vlan lbs in if lb.spec.vlan_id == vlan then some lb else rest

-- A read of a map gives "" where the key is missing.
abbrev or_no_name : Option String → String
or_no_name none = ""
or_no_name (some s) = s

abbrev found_port : Result BridgePort → Option BridgePort
found_port (ok bp) = some bp
found_port (err e) = none

port_of_mac : (String → Result BridgePort) → String → Option LogicalBridge → Option BridgePort
port_of_mac get_bp mac none = none
port_of_mac get_bp mac (some lb) =
    let bp = or_no_name (lookup mac lb.mac_table) in
    if bp == "" then none else found_port (get_bp bp)

module _ (lbs : List LogicalBridge) (get_bp : String → Result BridgePort) where
  -- ParseFdb: the entry, and its new next hop.
  unfoldable pub parse_fdb : FdbIpStruct → FdbEntryStruct × L2NexthopStruct
  unfolding first_of_vlan port_of_mac parse_l2nh
  parse_fdb ip =
      let lb = first_of_vlan ip.vlan lbs in
      let bp = port_of_mac get_bp ip.mac lb in
      let nh = parse_l2nh ip.vlan ip.ifname ip.dst lb bp in
      (
        record {
          vlan_id = ip.vlan;
          mac = ip.mac;
          key = record { vlan_id = ip.vlan; mac = ip.mac };
          state = ip.state;
          lb = lb;
          bp = bp;
          nexthop = nh.key;
          fdb_type = nh.l2_type;
        },
        nh,
      )

pub record FdbSnapshot : Type 0 where
  pub latest_fdb : Dict FdbKey FdbEntryStruct
  pub latest_l2_nexthop : Dict L2NexthopKey L2NexthopStruct
  pub l2_ids : IdCache L2NexthopKey

abbrev referred : FdbEntryStruct → L2NexthopStruct → L2NexthopStruct
referred fdb nh = record nh { fdb_refs = nh.fdb_refs ++ fdb ∷ [] }

unfoldable pub add_l2_nexthop : FdbEntryStruct → L2NexthopStruct → FdbSnapshot → FdbSnapshot
add_l2_nexthop fdb nh db = elim (lookup nh.key db.latest_l2_nexthop) [
  | some nh0 ↦ record db {
    latest_l2_nexthop = insert nh.key (referred fdb nh0) db.latest_l2_nexthop;
  }
  | none ↦
      let (id, ids) = assign_id nh.key db.l2_ids in
      record db {
        latest_l2_nexthop =
            insert nh.key (record (referred fdb nh) { id = id }) db.latest_l2_nexthop;
        l2_ids = ids;
      }
]

unfoldable pub add_fdb_entry : FdbEntryStruct × L2NexthopStruct → FdbSnapshot → FdbSnapshot
unfolding add_l2_nexthop
add_fdb_entry (fdb, nh) db =
    let db' = add_l2_nexthop fdb nh db in
    record db' { latest_fdb = insert fdb.key fdb db'.latest_fdb }

abbrev check_fdb_type : NhType → Bool
check_fdb_type bridge_port = true
check_fdb_type vxlan = true
check_fdb_type _ = false

abbrev is_some {ℓ} : {A : Type ℓ} → Option A → Bool
is_some none = false
is_some (some a) = true

-- `nh` is the next hop that the entry points to.
unfoldable pub install_filter_fdb : FdbEntryStruct → L2NexthopStruct → Bool
install_filter_fdb fdb nh =
    not (fdb.vlan_id == 0) && is_some fdb.lb && check_fdb_type fdb.fdb_type && nh.resolved

abbrev is_phy : NhType → Bool
is_phy phy = true
is_phy _ = false

abbrev no_refs : List FdbEntryStruct → Bool
no_refs [] = true
no_refs _ = false

unfoldable pub install_filter_l2n : L2NexthopStruct → Bool
install_filter_l2n nh = not (is_phy nh.l2_type && nh.resolved && no_refs nh.fdb_refs)
