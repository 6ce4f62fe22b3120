-- ===== src/Netlink/Fdb/Linked.antt =====
-- The entries and the next hops of a snapshot refer to one another.
use opi_evpn_bridge.Prelude.{String, ◌≡◌, refl, List, [], ◌∷◌, some, arith}
use opi_evpn_bridge.Prelude.Dict.{lookup}
use opi_evpn_bridge.Infradb.Errors.{Result}
use opi_evpn_bridge.Infradb.LogicalBridge.{LogicalBridge}
use opi_evpn_bridge.Infradb.BridgePort.{BridgePort}
use opi_evpn_bridge.Netlink.Ids.{IdCache}
use opi_evpn_bridge.Netlink.Ids.Unique.{IsUnique}
use opi_evpn_bridge.Netlink.Fdb.{
  L2NexthopKey, FdbIpStruct, FdbEntryStruct, L2NexthopStruct, FdbSnapshot, fdb_eq, l2_eq, parse_fdb,
  add_fdb_entry, parse_l2nh,
}
use opi_evpn_bridge.Netlink.Fdb.Added.{IsLinked, IsLinked-after}

abbrev pub empty_snapshot : IdCache L2NexthopKey → FdbSnapshot
empty_snapshot ids = record { latest_fdb = []; latest_l2_nexthop = []; l2_ids = ids }

-- readLatestNetlinkState, for the forwarding entries that pass preFilterMac.
unfoldable pub add_all : List (FdbEntryStruct × L2NexthopStruct) → FdbSnapshot → FdbSnapshot
add_all [] db = db
add_all (m ∷ ms) db = add_all ms (add_fdb_entry m db)

abbrev pub parsed :
    List LogicalBridge
    → (String → Result BridgePort)
    → List FdbIpStruct
    → List (FdbEntryStruct × L2NexthopStruct)
parsed lbs get_bp [] = []
parsed lbs get_bp (ip ∷ ips) = parse_fdb lbs get_bp ip ∷ parsed lbs get_bp ips

module _ (lbs : List LogicalBridge) (get_bp : String → Result BridgePort) where
  parsed_points :
      (ip : FdbIpStruct) → (parse_fdb lbs get_bp ip).0.nexthop ≡ (parse_fdb lbs get_bp ip).1.key
  unfolding parse_fdb
  parsed_points ip = refl

  parsed_fresh : (ip : FdbIpStruct) → (parse_fdb lbs get_bp ip).1.fdb_refs ≡ []
  unfolding parse_fdb parse_l2nh
  parsed_fresh ip = refl

  stays-IsLinked :
      (ips : List FdbIpStruct) (db : FdbSnapshot)
      → IsLinked db
      → IsLinked (add_all (parsed lbs get_bp ips) db)
  unfolding add_all
  stays-IsLinked [] db l = l
  stays-IsLinked (ip ∷ ips) db l =
      let (fdb, nh) = parse_fdb lbs get_bp ip in
      stays-IsLinked ips (add_fdb_entry (fdb, nh) db)
        (IsLinked-after fdb nh db (parsed_points ip) (parsed_fresh ip) l)

  empty-IsLinked : (ids : IdCache L2NexthopKey) → IsUnique ids → IsLinked (empty_snapshot ids)
  unfolding lookup
  empty-IsLinked ids u = record {
    ids = u;
    entries = λ k e h. absurd (ground arith);
    nexthops = λ k n h. absurd (ground arith);
  }

  -- In a snapshot of the kernel's forwarding entries, whatever they are, where the identifiers given
  -- before are distinct: each entry stands at its key, and the L2 next hop that it points to is in
  -- the table and refers to this entry. Each next hop stands at its key, has the identifier that was
  -- given to its key, and refers to at least one entry. All that it refers to point to it, and the
  -- table has an entry for their VLAN and MAC, if only a later one. And two next hops with the same
  -- identifier are at the same key.
  pub add_all-IsLinked :
      (ips : List FdbIpStruct) (ids : IdCache L2NexthopKey)
      → IsUnique ids
      → (let db = add_all (parsed lbs get_bp ips) (empty_snapshot ids) in
          IsLinked db
          × ((k l : L2NexthopKey) (m n : L2NexthopStruct)
              → lookup k db.latest_l2_nexthop ≡ some m
              → lookup l db.latest_l2_nexthop ≡ some n
              → m.id ≡ n.id
              → k ≡ l))
  add_all-IsLinked ips ids u =
      let db = add_all (parsed lbs get_bp ips) (empty_snapshot ids) in
      let linked = stays-IsLinked ips (empty_snapshot ids) (empty-IsLinked ids u) in
      (
        linked,
        λ k l m n km ln same.
            linked.ids.unshared k l n.id (rw (← same) (linked.nexthops k m km).1)
              (linked.nexthops l n ln).1,
      )
