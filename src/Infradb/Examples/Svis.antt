-- ===== src/Infradb/Examples/Svis.antt =====
-- The theorems about SVIs, at sample objects.
use opi_evpn_bridge.Prelude.{◌≡◌, refl, false, [], ◌∷◌, none, some, string_eq}
use opi_evpn_bridge.Prelude.Dict.{lookup, insert, delete}
use opi_evpn_bridge.EventBus.{get_subscribers}
use opi_evpn_bridge.Infradb.Errors.{Result, err, already_associated}
use opi_evpn_bridge.Infradb.Components.{down, to_be_deleted, set_component, all_success}
use opi_evpn_bridge.Infradb.LogicalBridge.{LogicalBridge}
use opi_evpn_bridge.Infradb.Vrf.{Vrf}
use opi_evpn_bridge.Infradb.Svi.{Svi, set_component_state, check_for_all_success, parse_meta}
use opi_evpn_bridge.Infradb.Store.{Value, names, bridge}
use opi_evpn_bridge.Infradb.Program.{Content, World, update, run, done}
use opi_evpn_bridge.Infradb.Program.Refine.{view}
use opi_evpn_bridge.Infradb.Svis.{create_svi, update_svi_status}
use opi_evpn_bridge.Infradb.Svis.Outcomes.{create_svi-result}
use opi_evpn_bridge.Infradb.Ops.{is_empty}
use opi_evpn_bridge.Infradb.Svis.Link.{IsLinked, create_svi-IsLinked, create_svi-dangling}
use opi_evpn_bridge.Infradb.Svis.Status.{IsReported, updated, update_svi_status-IsReported}
use opi_evpn_bridge.Infradb.Examples.Objects.{
  codec, memory, memory-IsReliable, bus, vrf_of, bridge_of, svi_of, awaited, last_success, empty,
  world,
}

abbrev red : Vrf
red = vrf_of "red" none down []

abbrev b1 : LogicalBridge
b1 = bridge_of "b1" none down []

abbrev s1 : Svi
s1 = svi_of "s1" down awaited

abbrev with_parts : Vrf → LogicalBridge → World Content
with_parts v lb = world (update (update empty v.name (Value.vrf v)) lb.name (bridge lb))

create_svi-IsLinked_example :
    IsLinked codec bus s1 red b1
      (with_parts red b1)
      (view memory (run memory (create_svi codec bus s1) (with_parts red b1)).1)
      "red"
      "s1"
unfolding run create_svi lookup insert get_subscribers
create_svi-IsLinked_example =
    create_svi-IsLinked memory codec bus s1 red b1 (with_parts red b1) refl refl "red" "s1" refl
      refl refl refl refl

-- The bridge has the SVI `s0`.
abbrev taken : LogicalBridge
taken = record b1 { svi = "s0" }

abbrev refused : Result (Unit {0})
refused = err (already_associated "b1" "s0")

create_svi-dangling_example :
    (refused ≡ err (already_associated "b1" "s0"))
    × ((run memory (create_svi codec bus s1) (with_parts red taken)).1.db "red"
        ≡ some (Value.vrf (record red { svis = ("s1", false) ∷ [] })))
unfolding run create_svi lookup insert get_subscribers
create_svi-dangling_example =
    create_svi-dangling memory codec bus s1 red taken (with_parts red taken) refl refl refused _ _
      "red" refl refl refl refl

abbrev dying : Svi
dying = svi_of "s1" to_be_deleted awaited

abbrev linked : World Content
linked = world (
    update
      (update (with_parts (record red { svis = ("s1", false) ∷ [] }) (record b1 { svi = "s1" })).db
        "s1" (Value.svi dying))
      "svis" (names (("s1", false) ∷ [])))

update_svi_status-IsReported_example :
    IsReported codec last_success "n1"
      (updated none last_success dying)
      (record red { svis = ("s1", false) ∷ [] })
      (record b1 { svi = "s1" })
      linked
      (view memory (run memory (update_svi_status codec "s1" "1" "n1" none last_success) linked).1)
      "b1"
      "s1"
unfolding run update_svi_status lookup delete set_component all_success set_component_state
    parse_meta check_for_all_success
update_svi_status-IsReported_example =
    update_svi_status-IsReported memory codec "s1" "1" "n1" none last_success dying
      (record red { svis = ("s1", false) ∷ [] }) (record b1 { svi = "s1" }) linked refl "b1" "s1"
      refl refl refl refl refl refl refl refl refl

create_svi-result_example :
    (run memory (create_svi codec bus s1) (with_parts red taken)).0 ≡ done refused
unfolding lookup get_subscribers is_empty
create_svi-result_example =
    create_svi-result memory codec bus s1 (with_parts red taken) memory-IsReliable refl refl refl
      refl refl refl
