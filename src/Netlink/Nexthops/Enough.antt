-- ===== src/Netlink/Nexthops/Enough.antt =====
-- How deep addNexthop goes: as tryResolve, whose next hops are resolved.
use opi_evpn_bridge.Prelude.{
  ℕ, zero, suc, ◌≡◌, refl, sym, ◌∙◌, Bool, true, false, not, ◌&&◌, if◌then◌else◌, List, [], ◌∷◌,
  Option, none, some, inl, inr, Bool-cases, Option-cases, arith,
}
use opi_evpn_bridge.Prelude.Dict.{lookup}
use opi_evpn_bridge.Netlink.Entries.{NexthopStruct, RouteStruct, nexthop_eq}
use opi_evpn_bridge.Netlink.Nexthops.{
  Snapshot, Added, add_nexthop, add_each, try_resolve, returned, is_empty,
}
use opi_evpn_bridge.Netlink.Nexthops.Depth.{IsPlain, try_resolve_enough}
use opi_evpn_bridge.Netlink.Nexthops.Resolved.{AllResolved, try_resolve-AllResolved}

abbrev Next : Type 0
Next = Option RouteStruct → Snapshot → Added

abbrev after : Next → Added → Added
after next o = elim o [
  | Added.panicked ↦ Added.panicked
  | Added.out_of_fuel ↦ Added.out_of_fuel
  | returned r db ↦ next r db
]

-- What it returns, if it does, has the routes of the GRD as before.
abbrev pub IsPlainAfter : Added → Type 0
IsPlainAfter (returned r db) = IsPlain db
IsPlainAfter Added.panicked = Unit {0}
IsPlainAfter Added.out_of_fuel = Unit {0}

after_same :
    (f g : Next) (o : Added)
    → IsPlainAfter o
    → ((r : Option RouteStruct) (db : Snapshot) → IsPlain db → f r db ≡ g r db)
    → after f o ≡ after g o
after_same f g Added.panicked plain h = refl
after_same f g Added.out_of_fuel plain h = refl
after_same f g (returned r db) plain h = h r db plain

after-IsPlainAfter :
    (f : Next) (o : Added)
    → IsPlainAfter o
    → ((r : Option RouteStruct) (db : Snapshot) → IsPlain db → IsPlainAfter (f r db))
    → IsPlainAfter (after f o)
after-IsPlainAfter f Added.panicked plain h = tt
after-IsPlainAfter f Added.out_of_fuel plain h = tt
after-IsPlainAfter f (returned r db) plain h = h r db plain

if-IsPlainAfter :
    (o o' : Added) (b : Bool)
    → IsPlainAfter o
    → IsPlainAfter o'
    → IsPlainAfter (if b then o else o')
if-IsPlainAfter o o' true p p' = p
if-IsPlainAfter o o' false p p' = p'

each-IsPlainAfter :
    (add : NexthopStruct → Next)
    → ((nh : NexthopStruct) (r : Option RouteStruct) (db : Snapshot)
        → IsPlain db
        → IsPlainAfter (add nh r db))
    → (nhs : List NexthopStruct) (r : Option RouteStruct) (db : Snapshot) → IsPlain db
    → IsPlainAfter (add_each add nhs r db)
unfolding add_each
each-IsPlainAfter add h [] r db plain = plain
each-IsPlainAfter add h (nh ∷ nhs) r db plain =
    after-IsPlainAfter (add_each add nhs) (add nh r db) (h nh r db plain)
      (λ r' db' p. each-IsPlainAfter add h nhs r' db' p)

module _ (ecmp : Bool) where
  nexthop-IsPlainAfter :
      (fuel : ℕ) (nh : NexthopStruct) (r : Option RouteStruct) (db : Snapshot)
      → IsPlain db
      → IsPlainAfter (add_nexthop ecmp fuel nh r db)
  unfolding add_nexthop
  nexthop-IsPlainAfter zero nh r db plain = tt
  nexthop-IsPlainAfter (suc fuel) nh none db plain = tt
  nexthop-IsPlainAfter (suc fuel) nh (some r) db plain =
      elim (Bool-cases (not (is_empty r.nexthops) && not ecmp)) [
        | inl e ↦ rw (e, add_nexthop) plain
        | inr e ↦ elim (Option-cases (lookup nh.key db.latest_nexthop)) [
          | inr (nh0, l) ↦ rw (e, l, add_nexthop) plain
          | inl l ↦
              rw (e, l, add_nexthop)
                (if-IsPlainAfter _ _ nh.resolved plain (
                  each-IsPlainAfter (add_nexthop ecmp fuel)
                    (λ n r' db' p. nexthop-IsPlainAfter fuel n r' db' p) (try_resolve fuel db nh).1
                    (some r) db plain))
        ]
      ]

  resolved_same :
      (fuel : ℕ) (nh : NexthopStruct) (r : Option RouteStruct) (db : Snapshot)
      → nh.resolved ≡ true
      → add_nexthop ecmp (suc fuel) nh r db ≡ add_nexthop ecmp 1 nh r db
  unfolding add_nexthop
  resolved_same fuel nh none db h = refl
  resolved_same fuel nh (some r) db h = ground arith

  each_resolved_same :
      (fuel : ℕ) (nhs : List NexthopStruct) (r : Option RouteStruct) (db : Snapshot)
      → IsPlain db
      → AllResolved nhs
      → add_each (add_nexthop ecmp (suc fuel)) nhs r db ≡ add_each (add_nexthop ecmp 1) nhs r db
  unfolding add_each
  each_resolved_same fuel [] r db plain all = refl
  each_resolved_same fuel (nh ∷ nhs) r db plain all =
      rw (resolved_same fuel nh r db all.0, add_each)
        (after_same (add_each (add_nexthop ecmp (suc fuel)) nhs) (add_each (add_nexthop ecmp 1) nhs)
          (add_nexthop ecmp 1 nh r db) (nexthop-IsPlainAfter 1 nh r db plain)
          (λ r' db' p. each_resolved_same fuel nhs r' db' p all.1))

  nexthop_enough :
      (fuel : ℕ) (nh : NexthopStruct) (r : Option RouteStruct) (db : Snapshot)
      → IsPlain db
      → add_nexthop ecmp (suc (suc (suc fuel))) nh r db ≡ add_nexthop ecmp 3 nh r db
  unfolding add_nexthop
  nexthop_enough fuel nh none db plain = refl
  nexthop_enough fuel nh (some r) db plain =
      let same_found = try_resolve_enough db fuel nh plain in
      let found = (try_resolve 2 db nh).1 in
      let resolved = try_resolve-AllResolved 2 db nh in
      let same =
        each_resolved_same (suc fuel) found (some r) db plain resolved
        ∙ sym (each_resolved_same 1 found (some r) db plain resolved) in
      ground (arith, same_found, same)

  -- A depth of 3 is enough.
  pub each_enough :
      (fuel : ℕ) (nhs : List NexthopStruct) (r : Option RouteStruct) (db : Snapshot)
      → IsPlain db
      → add_each (add_nexthop ecmp (suc (suc (suc fuel)))) nhs r db
        ≡ add_each (add_nexthop ecmp 3) nhs r db
  unfolding add_each
  each_enough fuel [] r db plain = refl
  each_enough fuel (nh ∷ nhs) r db plain =
      rw (nexthop_enough fuel nh r db plain, add_each)
        (after_same (add_each (add_nexthop ecmp (suc (suc (suc fuel)))) nhs)
          (add_each (add_nexthop ecmp 3) nhs) (add_nexthop ecmp 3 nh r db)
          (nexthop-IsPlainAfter 3 nh r db plain) (λ r' db' p. each_enough fuel nhs r' db' p))
