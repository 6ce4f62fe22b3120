-- ===== src/Netlink/Nexthops/Resolved.antt =====
-- The next hops that tryResolve returns are resolved.
use opi_evpn_bridge.Prelude.{
  ℕ, zero, suc, ◌≡◌, refl, true, List, [], ◌∷◌, Option, inl, inr, Bool-cases, Option-cases, none,
  some, All,
}
use opi_evpn_bridge.Prelude.Dict.{lookup}
use opi_evpn_bridge.Netlink.Entries.{NexthopStruct, neigh_eq}
use opi_evpn_bridge.Netlink.Nexthops.{
  Snapshot, try_resolve, each_over, over_route, with_vtep, is_vxlan, is_empty,
}

abbrev pub AllResolved : List NexthopStruct → Type 0
AllResolved = All (λ n. n.resolved ≡ true)

each_over-AllResolved :
    (resolve : NexthopStruct → NexthopStruct × List NexthopStruct) (nh : NexthopStruct)
    (grds : List NexthopStruct)
    → AllResolved (each_over resolve nh grds)
unfolding each_over
each_over-AllResolved resolve nh [] = tt
each_over-AllResolved resolve nh (grd ∷ grds) = elim (Bool-cases (is_empty (resolve grd).1)) [
  | inl e ↦ rw (e, each_over) (each_over-AllResolved resolve nh grds)
  | inr e ↦ rw (e, each_over) (refl, each_over-AllResolved resolve nh grds)
]

over_route-AllResolved :
    (resolve : NexthopStruct → NexthopStruct × List NexthopStruct) (nh : NexthopStruct)
    (grds : Option (List NexthopStruct))
    → AllResolved (over_route resolve nh grds).1
unfolding over_route
over_route-AllResolved resolve nh none = tt
over_route-AllResolved resolve nh (some grds) = each_over-AllResolved resolve nh grds

pub try_resolve-AllResolved :
    (fuel : ℕ) (db : Snapshot) (nh : NexthopStruct) → AllResolved (try_resolve fuel db nh).1
unfolding try_resolve
try_resolve-AllResolved zero db nh = tt
try_resolve-AllResolved (suc fuel) db nh = elim (Option-cases nh.gw) [
  | inl e ↦ rw (e, try_resolve) (refl, tt)
  | inr (gw, e) ↦
      elim (Option-cases (
        lookup (record { dst = gw; vrf_name = nh.vrf_name; dev = nh.link_index })
          db.latest_neighbors)) [
            | inl a ↦ rw (e, a, try_resolve) tt
            | inr (n, a) ↦ elim (Bool-cases (is_vxlan nh.nh_type)) [
              | inl b ↦
                  rw (e, a, b, try_resolve)
                    (over_route-AllResolved (try_resolve fuel db) (with_vtep gw n nh)
                      (db.lookup_route gw))
              | inr b ↦ rw (e, a, b, try_resolve) (refl, tt)
            ]
          ]
]
