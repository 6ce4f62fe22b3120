-- ===== src/Netlink/Nexthops/Depth.antt =====
-- tryResolve calls itself through the routes of the GRD. Where these lead to no VXLAN next hop, it
-- does so once at most.
use opi_evpn_bridge.Prelude.{
  ℕ, suc, String, ◌≡◌, refl, false, List, [], ◌∷◌, some, inl, inr, Option-cases, arith, All,
}
use opi_evpn_bridge.Prelude.Dict.{lookup}
use opi_evpn_bridge.Netlink.Entries.{NexthopStruct, neigh_eq}
use opi_evpn_bridge.Netlink.Nexthops.{
  Snapshot, try_resolve, each_over, over_route, with_vtep, is_vxlan,
}

abbrev pub AllPlain : List NexthopStruct → Type 0
AllPlain = All (λ n. is_vxlan n.nh_type ≡ false)

abbrev pub IsPlain : Snapshot → Type 0
IsPlain db =
    (gw : String) (grds : List NexthopStruct) → db.lookup_route gw ≡ some grds → AllPlain grds

module _ (db : Snapshot) (fuel : ℕ) where
  try_resolve-plain :
      (nh : NexthopStruct)
      → is_vxlan nh.nh_type ≡ false
      → try_resolve (suc fuel) db nh ≡ try_resolve 1 db nh
  unfolding try_resolve
  try_resolve-plain nh plain = ground arith

  each_over-plain :
      (nh : NexthopStruct) (grds : List NexthopStruct)
      → AllPlain grds
      → each_over (try_resolve (suc fuel) db) nh grds ≡ each_over (try_resolve 1 db) nh grds
  unfolding each_over
  each_over-plain nh [] plain = refl
  each_over-plain nh (grd ∷ grds) (p, plain) =
      rw (try_resolve-plain grd p, each_over-plain nh grds plain) refl

  over_route-plain :
      (nh : NexthopStruct) (gw : String)
      → IsPlain db
      → over_route (try_resolve (suc fuel) db) nh (db.lookup_route gw)
        ≡ over_route (try_resolve 1 db) nh (db.lookup_route gw)
  unfolding over_route
  over_route-plain nh gw plain = elim (Option-cases (db.lookup_route gw)) [
    | inl e ↦ rw e refl
    | inr (grds, e) ↦ rw (e, each_over-plain nh grds (plain gw grds e)) refl
  ]

  -- A depth of 2 is enough: more fuel gives the same next hops.
  pub try_resolve_enough :
      (nh : NexthopStruct) → IsPlain db → try_resolve (suc (suc fuel)) db nh ≡ try_resolve 2 db nh
  unfolding try_resolve
  try_resolve_enough nh plain = elim (Option-cases nh.gw) [
    | inl e ↦ ground arith
    | inr (gw, e) ↦
        elim (Option-cases (
          lookup (record { dst = gw; vrf_name = nh.vrf_name; dev = nh.link_index })
            db.latest_neighbors)) [
              | inl l ↦ ground arith
              | inr (n, l) ↦
                  let deeper = over_route-plain (with_vtep gw n nh) gw plain in ground arith
            ]
  ]
