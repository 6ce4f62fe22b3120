-- ===== src/Netlink/Changes.antt =====
-- The comparison of two snapshots of a table, of pkg/netlink/common.go and netlink_watcher.go. A
-- table's values are compared by `deep_check`; `status` is GetVrfOperStatus, of the values that have
-- it. A map's `range` goes in list order, which may be any.
pub mod Received
pub mod Subscriber
use opi_evpn_bridge.Prelude.{
  String, Bool, true, false, not, ◌&&◌, List, [], ◌∷◌, ◌++◌, Option, none, some, Eq, if◌then◌else◌,
}
use opi_evpn_bridge.Prelude.Dict.{Dict, lookup, delete}
use opi_evpn_bridge.Infradb.Components.{OperStatus, is_to_be_deleted}

pub data EventType : Type 0 where
  route nexthop fdb l2_nexthop : EventType

-- The names of the events of a table.
pub record Operations : Type 0 where
  pub add : String
  pub update : String
  pub delete : String

pub record Event : Type 0 where
  pub event_type : EventType
  pub operation : Operations

abbrev pub route_operations : Operations
route_operations = record {
  add = "route_added";
  update = "route_updated";
  delete = "route_deleted";
}

abbrev pub nexthop_operations : Operations
nexthop_operations = record {
  add = "nexthop_added";
  update = "nexthop_updated";
  delete = "nexthop_deleted";
}

abbrev pub fdb_operations : Operations
fdb_operations = record {
  add = "fdb_entry_added";
  update = "fdb_entry_updated";
  delete = "fdb_entry_deleted";
}

abbrev pub l2_nexthop_operations : Operations
l2_nexthop_operations = record {
  add = "l2_nexthop_added";
  update = "l2_nexthop_updated";
  delete = "l2_nexthop_deleted";
}

abbrev is_route : EventType → Bool
is_route route = true
is_route _ = false

abbrev pub has_vrf : EventType → Bool
has_vrf route = true
has_vrf nexthop = true
has_vrf _ = false

abbrev pub is_l2_nexthop : EventType → Bool
is_l2_nexthop l2_nexthop = true
is_l2_nexthop _ = false

module _ {K V : Type 0} where
  -- notifyAddDel for each value of a map.
  unfoldable pub notify_all : String → Dict K V → List (String × V)
  notify_all operation [] = []
  notify_all operation ((k, v) ∷ m) = (operation, v) ∷ notify_all operation m

-- What is left of the two maps, and what has been published.
pub record Progress (K V : Type 0) : Type 0 where
  pub new_db : Dict K V
  pub old_db : Dict K V
  pub published : List (String × V)

abbrev pub both_deleted :
    {K V : Type 0} ⦃eq_key : Eq K⦄ → K → List (String × V) → Progress K V → Progress K V
both_deleted k events p = record {
  new_db = delete k p.new_db;
  old_db = delete k p.old_db;
  published = p.published ++ events;
}

-- A route is deleted and added again.
abbrev pub notify_change : {V : Type 0} → Event → V → V → List (String × V)
notify_change event v1 v2 =
    if is_route event.event_type
    then (event.operation.delete, v2) ∷ (event.operation.add, v1) ∷ []
    else (event.operation.update, v1) ∷ []

-- filterMap: the values that pass the filter stay.
unfoldable pub filter_map : {K V : Type 0} → (V → Bool) → Dict K V → Dict K V
filter_map should_filter [] = []
filter_map should_filter ((k, v) ∷ m) =
    let rest = filter_map should_filter m in if should_filter v then (k, v) ∷ rest else rest

module _ {K V : Type 0} ⦃eq_key : Eq K⦄ (deep_check : V → V → Bool) (status : V → Option OperStatus)
    (event : Event) where
  -- A value that differs. One of a VRF that is to be deleted counts as deleted.
  notify_differing : K → V → V → Progress K V → Progress K V
  notify_differing k v1 v2 p =
      if has_vrf event.event_type
      then elim (status v1) [
        | none ↦ p
        | some st ↦
            if is_to_be_deleted st
            then both_deleted k ((event.operation.delete, v1) ∷ []) p
            else both_deleted k (notify_change event v1 v2) p
      ]
      else both_deleted k (notify_change event v1 v2) p

  -- The first loop of notify_changes, over the entries of the new map.
  unfoldable pub compare_entries : Dict K V → Progress K V → Progress K V
  unfolding notify_differing
  compare_entries [] p = p
  compare_entries ((k1, v1) ∷ rest) p = compare_entries rest (elim (lookup k1 p.old_db) [
    | none ↦ p
    | some v2 ↦ if deep_check v1 v2 then both_deleted k1 [] p else notify_differing k1 v1 v2 p
  ])

  unfoldable pub notify_changes : Dict K V → Dict K V → List (String × V)
  notify_changes new_db old_db =
      let p =
        compare_entries new_db (record { new_db = new_db; old_db = old_db; published = [] }) in
      p.published
      ++ notify_all event.operation.add p.new_db
      ++ notify_all event.operation.delete p.old_db

  -- applyInstallFilters and notifyDBChanges of resyncWithKernel, for one table: what is published,
  -- and the snapshot that is kept. `latest_db` is the snapshot as read and annotated.
  unfoldable pub resync : (keep : V → Bool) → Dict K V → Dict K V → List (String × V) × Dict K V
  unfolding notify_changes
  resync keep latest_db db =
      let filtered = filter_map keep latest_db in (notify_changes filtered db, filtered)

  -- monitorNetlink, for one table: a resync for each of the polls.
  unfoldable pub monitor :
      (keep : V → Bool) → List (Dict K V) → Dict K V → List (String × V) × Dict K V
  monitor keep [] db = ([], db)
  monitor keep (latest_db ∷ polls) db =
      let (events, filtered) = resync keep latest_db db in
      let (later, last_db) = monitor keep polls filtered in (events ++ later, last_db)

  -- The whole of monitorNetlink, for one table: at the end the values that are left are published
  -- as deleted, but for the table of L2 next hops.
  unfoldable pub monitor_netlink : (keep : V → Bool) → List (Dict K V) → List (String × V)
  monitor_netlink keep polls =
      let (events, last_db) = monitor keep polls [] in
      if is_l2_nexthop event.event_type
      then events
      else events ++ notify_all event.operation.delete last_db
