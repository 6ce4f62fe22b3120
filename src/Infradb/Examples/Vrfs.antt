-- ===== src/Infradb/Examples/Vrfs.antt =====
-- The theorems about VRFs, at sample objects.
use opi_evpn_bridge.Prelude.{◌≡◌, refl, false, [], ◌∷◌, none, some, string_eq}
use opi_evpn_bridge.Prelude.Dict.{lookup, delete}
use opi_evpn_bridge.EventBus.{get_subscribers}
use opi_evpn_bridge.Infradb.Errors.{err, vni_in_use}
use opi_evpn_bridge.Infradb.Components.{down, to_be_deleted, set_component, all_success}
use opi_evpn_bridge.Infradb.Vrf.{Vrf, set_component_state, check_for_all_success, parse_meta}
use opi_evpn_bridge.Infradb.Store.{Value, names, numbers}
use opi_evpn_bridge.Infradb.Program.{Content, World, update, run, done}
use opi_evpn_bridge.Infradb.Program.Refine.{view}
use opi_evpn_bridge.Infradb.Vrfs.{create_vrf, update_vrf_status}
use opi_evpn_bridge.Infradb.Vrfs.Create.{create_vrf-vni_in_use}
use opi_evpn_bridge.Infradb.Vrfs.Status.{IsReported, updated, update_vrf_status-IsReported}
use opi_evpn_bridge.Infradb.Examples.Objects.{
  codec, memory, bus, vrf_of, awaited, last_success, empty, world,
}

abbrev red : Vrf
red = vrf_of "red" (some 100) down awaited

abbrev with_vrf : Vrf → World Content
with_vrf v = world (
    update (update (update empty v.name (Value.vrf v)) "vpns" (numbers ((100, false) ∷ []))) "vrfs"
      (names ((v.name, false) ∷ [])))

create_vrf-vni_in_use_example :
    run memory (create_vrf codec bus (vrf_of "blue" (some 100) down [])) (with_vrf red)
    ≡ (done (err vni_in_use), with_vrf red)
unfolding lookup get_subscribers
create_vrf-vni_in_use_example =
    create_vrf-vni_in_use memory codec bus (vrf_of "blue" (some 100) down []) (with_vrf red) 100 _ _
      refl refl refl refl

abbrev dying : Vrf
dying = vrf_of "red" (some 100) to_be_deleted awaited

update_vrf_status-IsReported_example :
    IsReported codec last_success "n1"
      (updated none last_success dying)
      (with_vrf dying)
      (view memory
        (run memory (update_vrf_status codec "red" "1" "n1" none last_success) (with_vrf dying)).1)
      "red"
      "red"
      100
unfolding run update_vrf_status lookup delete set_component all_success set_component_state
    parse_meta check_for_all_success
update_vrf_status-IsReported_example =
    update_vrf_status-IsReported memory codec "red" "1" "n1" none last_success dying
      (with_vrf dying) refl "red" "red" 100 refl refl refl refl refl refl refl
