-- ===== src/Netlink/Nexthops/Ecmp.antt =====
-- Routes of several next hops.
use opi_evpn_bridge.Prelude.{
  ℕ, suc, ◌≡◌, refl, Bool, true, false, List, [], ◌∷◌, none, some, arith, not, ◌&&◌,
}
use opi_evpn_bridge.Prelude.Dict.{lookup}
use opi_evpn_bridge.Infradb.View.{is_some}
use opi_evpn_bridge.Netlink.Entries.{NexthopStruct, RouteStruct, route_eq, nexthop_eq, neigh_eq}
use opi_evpn_bridge.Netlink.Nexthops.{
  Snapshot, Added, RouteAdded, add_nexthop, add_each, add_route, try_resolve, is_vxlan, is_empty,
  stored, returned, cleared, map_cleared, panicked as added_panicked, RouteAdded.panicked,
}

-- The next hop resolves by itself: it has no gateway, or one that is a known neighbour, and it is no
-- VXLAN next hop.
abbrev pub resolves_alone : Snapshot → NexthopStruct → Bool
resolves_alone db nh = elim nh.gw [
  | none ↦ true
  | some gw ↦
      not (is_vxlan nh.nh_type)
      && is_some (
          lookup (record { dst = gw; vrf_name = nh.vrf_name; dev = nh.link_index })
            db.latest_neighbors)
]

abbrev joined : Added → Bool
joined (returned (some r) db) = not (is_empty r.nexthops)
joined _ = false

stored_second :
    (fuel : ℕ) (nh2 : NexthopStruct) (rest : List NexthopStruct) (r : RouteStruct) (db : Snapshot)
    → is_empty r.nexthops ≡ false
    → stored (add_each (add_nexthop false (suc fuel)) (nh2 ∷ rest) (some r) db) ≡ panicked
unfolding add_each add_nexthop
stored_second fuel nh2 [] r db h = ground arith
stored_second fuel nh2 (nh3 ∷ rest) r db h = ground arith

stored_after :
    (fuel : ℕ) (nh2 : NexthopStruct) (rest : List NexthopStruct) (o : Added)
    → joined o ≡ true
    → stored (elim o [
      | Added.panicked ↦ Added.panicked
      | Added.out_of_fuel ↦ Added.out_of_fuel
      | returned r db ↦ add_each (add_nexthop false (suc fuel)) (nh2 ∷ rest) r db
    ])
      ≡ panicked
stored_after fuel nh2 rest Added.panicked h = absurd (ground arith)
stored_after fuel nh2 rest Added.out_of_fuel h = absurd (ground arith)
stored_after fuel nh2 rest (returned none db) h = absurd (ground arith)
stored_after fuel nh2 rest (returned (some r) db) h =
    stored_second fuel nh2 rest r db (ground arith)

module _ (db : Snapshot) (route : RouteStruct) (nh1 nh2 : NexthopStruct) (rest : List NexthopStruct)
    (fuel : ℕ) where
  first_joins :
      (nh : NexthopStruct) (r : RouteStruct)
      → r.nexthops ≡ []
      → resolves_alone db nh ≡ true
      → joined (add_nexthop false (suc (suc fuel)) nh (some r) db) ≡ true
  unfolding add_nexthop try_resolve add_each
  first_joins nh r h direct = ground arith

  -- Where ECMP is disabled, adding a route with two or more next hops panics, if the first of them
  -- resolves by itself and the table has no route of that key.
  pub add_route-panicked :
      lookup route.key db.latest_routes ≡ none
      → resolves_alone db nh1 ≡ true
      → add_route false
          (suc (suc fuel))
          (record { route = route; parsed_nexthops = nh1 ∷ nh2 ∷ rest })
          db
        ≡ panicked
  unfolding add_route add_each
  add_route-panicked new direct =
      rw (new, add_route)
        (stored_after (suc fuel) (cleared nh2) (map_cleared rest)
          (add_nexthop false (suc (suc fuel)) (cleared nh1) (some (record route { nexthops = [] }))
            db)
          (first_joins (cleared nh1) (record route { nexthops = [] }) refl direct))

-- With ECMP, every function returns a route.
abbrev finishes : Added → Bool
finishes (returned (some r) db) = true
finishes _ = false
