-- ===== src/Netlink/Changes/Subscriber/Polls.antt =====
-- What a subscriber knows after any number of polls.
use opi_evpn_bridge.Prelude.{
  ◌≡◌, refl, ap, ◌∙◌, Bool, true, false, ◌&&◌, ◌↔◌, List, [], ◌∷◌, Option, none, some, Eq, All,
  arith, ◌==◌, string_eq, if◌then◌else◌, inl, inr, Option-cases, Bool-cases,
}
use opi_evpn_bridge.Prelude.Dict.{Dict, lookup}
use opi_evpn_bridge.Infradb.Components.{OperStatus, is_to_be_deleted}
use opi_evpn_bridge.Netlink.Changes.{
  Event, Operations, has_vrf, notify_all, notify_changes, filter_map, resync, monitor,
  monitor_netlink, is_l2_nexthop,
}
use opi_evpn_bridge.Netlink.Changes.Received.{
  receive_all, receive_all-append, receive_all-deleted, IsTable,
}
use opi_evpn_bridge.Netlink.Changes.Subscriber.{notify_changes-expected}

module _ {K V : Type 0} ⦃eq_key : Eq K⦄ (deep_check : V → V → Bool) (status : V → Option OperStatus)
    (event : Event) (key_of : V → K) {O : Type 0} (observe : V → O) (keep : V → Bool) where
  abbrev ops : Operations
  ops = event.operation

  -- A value of a VRF that is not known, or is to be deleted.
  abbrev is_dropped : V → Bool
  is_dropped v =
      has_vrf event.event_type && elim (status v) [ none ↦ true | some st ↦ is_to_be_deleted st ]

  -- The snapshot is a table in which no VRF is to be deleted.
  abbrev pub IsSnapshot : Dict K V → Type 0
  IsSnapshot [] = Unit
  IsSnapshot ((k, v) ∷ m) =
      (key_of v ≡ k) × (lookup k m ≡ none) × (is_dropped v ≡ false) × IsSnapshot m

  filter_map-absent :
      (m : Dict K V) (k : K) → lookup k m ≡ none → lookup k (filter_map keep m) ≡ none
  unfolding lookup filter_map
  filter_map-absent [] k h = refl
  filter_map-absent ((j, v) ∷ m) k h = ground (arith, filter_map-absent m k)

  filter_map-IsSnapshot : (m : Dict K V) → IsSnapshot m → IsSnapshot (filter_map keep m)
  unfolding filter_map
  filter_map-IsSnapshot [] t = tt
  filter_map-IsSnapshot ((k, v) ∷ m) t = elim (Bool-cases (keep v)) [
    | inl e ↦ rw (e, filter_map) (t.0, filter_map-absent m k t.1, t.2, filter_map-IsSnapshot m t.3)
    | inr e ↦ rw (e, filter_map) (filter_map-IsSnapshot m t.3)
  ]

  is_table : (m : Dict K V) → IsSnapshot m → IsTable key_of ops m
  is_table [] t = tt
  is_table ((k, v) ∷ m) t = (t.0, t.1, is_table m t.3)

  not_dropped :
      (m : Dict K V) (k : K) (v : V) → IsSnapshot m → lookup k m ≡ some v → is_dropped v ≡ false
  unfolding lookup
  not_dropped [] k v t h = absurd (ground arith)
  not_dropped ((j, w) ∷ m) k v t h = ground (arith, not_dropped m k v t.3)

  abbrev seen : Option V → Option O
  seen none = none
  seen (some v) = some (observe v)

  module _ (observes : (v w : V) → (deep_check v w ≡ true) ↔ (observe v ≡ observe w))
      (d : (ops.add == ops.delete) ≡ false) (u : (ops.update == ops.delete) ≡ false) where
    seen_after :
        (new_db old_db : Dict K V) (k : K) (before : Option V)
        → IsSnapshot new_db
        → IsSnapshot old_db
        → seen before ≡ seen (lookup k old_db)
        → seen
            (receive_all key_of ops (notify_changes deep_check status event new_db old_db) k before)
          ≡ seen (lookup k new_db)
    seen_after new_db old_db k before tn to h =
        rw
          (notify_changes-expected deep_check status event key_of new_db old_db k before d u
            (is_table new_db tn) (is_table old_db to))
          (elim (Option-cases (lookup k new_db)) [
            | inl e ↦ ground (arith, h)
            | inr (v1, e) ↦ elim (Option-cases (lookup k old_db)) [
              | inl e' ↦ ground arith
              | inr (v2, e') ↦ ground (arith, h, observes v1 v2, not_dropped new_db k v1 tn e)
            ]
          ])

    polled :
        (polls : List (Dict K V)) (db : Dict K V) (k : K) (before : Option V)
        → All IsSnapshot polls
        → IsSnapshot db
        → seen before ≡ seen (lookup k db)
        → (let (events, last_db) = monitor deep_check status event keep polls db in
            seen (receive_all key_of ops events k before) ≡ seen (lookup k last_db))
    unfolding monitor resync receive_all
    polled [] db k before all t h = h
    polled (latest_db ∷ polls) db k before all t h =
        let filtered = filter_map keep latest_db in
        let t' = filter_map-IsSnapshot latest_db all.0 in
        let events = notify_changes deep_check status event filtered db in
        let rest = monitor deep_check status event keep polls filtered in
        ap seen (receive_all-append key_of ops events rest.0 k before)
        ∙ polled polls filtered k (receive_all key_of ops events k before) all.1 t'
            (seen_after filtered db k before t' t h)

    -- From the start and after any number of polls, a subscriber that takes all the events knows
    -- the snapshot that the watcher keeps: it has a value for the same keys, and values that the
    -- comparison does not tell apart. The snapshots are tables without a VRF that is to be deleted,
    -- the comparison is by what is observed of a value, and the event names differ.
    pub monitor-receive_all :
        (polls : List (Dict K V)) (k : K)
        → All IsSnapshot polls
        → (let (events, last_db) = monitor deep_check status event keep polls [] in
            seen (receive_all key_of ops events k none) ≡ seen (lookup k last_db))
    unfolding lookup
    monitor-receive_all polls k all = polled polls [] k none all tt refl

    last-IsSnapshot :
        (polls : List (Dict K V)) (db : Dict K V)
        → All IsSnapshot polls
        → IsSnapshot db
        → IsSnapshot (monitor deep_check status event keep polls db).1
    unfolding monitor resync
    last-IsSnapshot [] db all t = t
    last-IsSnapshot (latest_db ∷ polls) db all t =
        last-IsSnapshot polls (filter_map keep latest_db) all.1
          (filter_map-IsSnapshot latest_db all.0)

    -- When the watcher has stopped, a subscriber that has taken all the events knows nothing, except
    -- of the table of L2 next hops: of that it still knows what the watcher had last. The
    -- conditions are those on the snapshots, the comparison and the event names: the snapshots are
    -- tables without a VRF that is to be deleted, the comparison is by what is observed of a value,
    -- and the names differ.
    pub monitor_netlink-receive_all :
        (polls : List (Dict K V)) (k : K)
        → All IsSnapshot polls
        → seen (receive_all key_of ops (monitor_netlink deep_check status event keep polls) k none)
          ≡ (if is_l2_nexthop event.event_type
              then seen (lookup k (monitor deep_check status event keep polls []).1)
              else none)
    unfolding monitor_netlink
    monitor_netlink-receive_all polls k all =
        let (events, last_db) = monitor deep_check status event keep polls [] in
        let known = receive_all key_of ops events k none in
        let e = monitor-receive_all polls k all in
        let table = is_table last_db (last-IsSnapshot polls [] all tt) in
        ground (
          arith,
          e,
          receive_all-append key_of ops events (notify_all ops.delete last_db) k none,
          receive_all-deleted key_of ops last_db k known table,
        )
