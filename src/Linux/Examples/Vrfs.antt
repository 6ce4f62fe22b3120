-- ===== src/Linux/Examples/Vrfs.antt =====
-- The theorems about the general module's VRFs and SVIs, and about the CI module's bridge ports.
use opi_evpn_bridge.Prelude.{
  ℕ, String, ◌≡◌, ◌≢◌, refl, arith, false, List, [], ◌∷◌, none, some, string_eq,
}
use opi_evpn_bridge.Prelude.Text.{decimal, path_base}
use opi_evpn_bridge.Component.{error, Component}
use opi_evpn_bridge.Infradb.Components.{set_component, all_success}
use opi_evpn_bridge.Infradb.Vrf.{
  Vrf, VrfMetadata, set_component_state, check_for_all_success, parse_meta,
}
use opi_evpn_bridge.Infradb.Store.{Value}
use opi_evpn_bridge.Infradb.Program.{update, run}
use opi_evpn_bridge.Infradb.Vrfs.{update_vrf_status}
use opi_evpn_bridge.Infradb.Vrfs.Status.{updated, settled}
use opi_evpn_bridge.Infradb.Examples.Objects.{codec, memory, empty, world, comp}
use opi_evpn_bridge.IdPool.{get_id}
use opi_evpn_bridge.Linux.Kernel.{Links, Request, released, effect, route_flush_table}
use opi_evpn_bridge.Linux.Plan.{run_plan, succeeds, final}
use opi_evpn_bridge.Linux.Plan.Performed.{performed}
use opi_evpn_bridge.Linux.Report.{ObjectData, own_component, reported, retry_timer}
use opi_evpn_bridge.Linux.Vrfs.{
  plan_vrf, set_up_vrf, tear_down_vrf, bridge_name, vxlan_name, tables_of,
}
use opi_evpn_bridge.Linux.Vrfs.Links.{plan_vrf-links, vxlan_device}
use opi_evpn_bridge.Linux.Vrfs.TearDown.{tear_down_vrf-plan_vrf}
use opi_evpn_bridge.Linux.Vrfs.HalfUp.{Attempts, IsHalfUp, half_up-stuck}
use opi_evpn_bridge.Linux.Handlers.{Host, handle_vrf}
use opi_evpn_bridge.Linux.Handlers.Vrfs.{handle_vrf-flushes_0}
use opi_evpn_bridge.Linux.Examples.Objects.{
  kernel, kernel-IsDocumented, never, no_address, host_links, text, vtep, red,
}

abbrev red_up : Links
red_up = final (kernel never) (plan_vrf 1500 text [] red 1000) host_links

plan_vrf-links_example : red_up "vxlan-red" ≡ some (vxlan_device red 100 vtep)
unfolding run_plan plan_vrf effect vxlan_name bridge_name decimal path_base
plan_vrf-links_example =
    plan_vrf-links (kernel never) (λ s. s) (kernel-IsDocumented never) 1500 text [] red 100 1000
      vtep vtep refl refl refl host_links refl "vxlan-red"

unreferenced_red : (n : String) → released "red" (host_links n) ≡ host_links n
unreferenced_red n = ground arith

unreferenced_bridge : (n : String) → released "br-red" (host_links n) ≡ host_links n
unreferenced_bridge n = ground arith

unreferenced_vxlan : (n : String) → released "vxlan-red" (host_links n) ≡ host_links n
unreferenced_vxlan n = ground arith

tear_down_vrf-plan_vrf_example :
    final (kernel never) (tear_down_vrf 1500 text [] red) red_up "red" ≡ none
unfolding run_plan plan_vrf tear_down_vrf effect vxlan_name bridge_name decimal path_base
tear_down_vrf-plan_vrf_example =
    tear_down_vrf-plan_vrf (kernel never) (λ s. s) (kernel-IsDocumented never) 1500 text [] red 100
      1000 vtep vtep refl refl refl host_links refl refl refl refl refl unreferenced_red
      unreferenced_bridge unreferenced_vxlan "red"

-- The set-up of the VRF has failed when its address was added.
abbrev red_half_up : Links
red_half_up = final (kernel no_address) (plan_vrf 1500 text [] red 1000) host_links

red_half_up-IsHalfUp : IsHalfUp (kernel never) 1500 text [] red (λ s. s) red_half_up
unfolding run_plan plan_vrf effect vxlan_name decimal path_base
red_half_up-IsHalfUp = record { device = λ e. ground arith; no_vxlan = refl }

found_if_there : (t : Links) (n : String) → t n ≢ none → (kernel never).find_error t n ≡ none
found_if_there t n h = ground arith

half_up-stuck_example :
    ((table : ℕ) → succeeds (kernel never) (plan_vrf 1500 text [] red table) red_half_up ≡ false)
    × ((meta : VrfMetadata)
        → succeeds
            (kernel never)
            (tear_down_vrf 1500 text [] (record red { meta = meta }))
            red_half_up
          ≡ false)
unfolding path_base
half_up-stuck_example =
    half_up-stuck (kernel never) 1500 text [] red (λ s. s) (kernel-IsDocumented never) 100 refl refl
      found_if_there Attempts.start red_half_up-IsHalfUp

-- A VRF without a VNI.
abbrev plain : Vrf
plain = record red { spec = record red.spec { vni = none } }

abbrev event : ObjectData
event = record {
  name = "//network.opiproject.org/vrfs/red";
  resource_version = "1";
  notification_id = "n1";
}

abbrev host : Host memory (kernel no_address)
host = record {
  db = world (update empty "//network.opiproject.org/vrfs/red" (Value.vrf plain));
  kernel = host_links;
  tables = record {
    name = "RTtable";
    unused_ids = 1001 ∷ 1000 ∷ [];
    ids_in_use = [];
    ids_for_reuse = [];
    refs = [];
    size = 2;
  };
}

-- What the module reports, with the text of the set-up's failure.
abbrev failed : Component
failed = record (comp "lgm" error) {
  details = "LGM: Unable to set the loopback ip to vrf link //network.opiproject.org/vrfs/red \n";
  timer = 2000000000;
}

handle_vrf-flushes_0_example :
    (m' : Host memory (kernel no_address)) × (rest : List Request) × (handle_vrf memory codec
        (kernel no_address)
        1500
        text
        []
        event
        host
      ≡ some m')
    × (m'.db.db "//network.opiproject.org/vrfs/red"
        ≡ some (Value.vrf (settled (updated (some (tables_of (0 ∷ []))) failed plain))))
    × (performed
          (kernel no_address)
          (tear_down_vrf 1500 text [] (record plain { meta = tables_of (0 ∷ []) }))
          red_half_up
        ≡ route_flush_table "0" ∷ rest)
unfolding run run_plan plan_vrf set_up_vrf tear_down_vrf effect vxlan_name bridge_name decimal
    path_base own_component reported retry_timer set_component all_success set_component_state
    parse_meta check_for_all_success update_vrf_status get_id
handle_vrf-flushes_0_example =
    handle_vrf-flushes_0 memory codec (kernel no_address) 1500 text [] event host plain refl refl
      refl refl failed.details false (record plain { meta = tables_of (0 ∷ []) }) red_half_up refl
      refl refl refl refl refl refl refl refl refl refl refl
