-- ===== src/Linux/Examples/Bridges.antt =====
-- The theorems about the general module's logical bridges.
use opi_evpn_bridge.Prelude.{
  ◌^◌, ◌<◌, ◌≡◌, refl, arith, true, false, [], ◌∷◌, none, some, string_eq,
}
use opi_evpn_bridge.Prelude.Text.{decimal}
use opi_evpn_bridge.Component.{success}
use opi_evpn_bridge.Infradb.Components.{up, set_component, all_success}
use opi_evpn_bridge.Infradb.LogicalBridge.{set_component_state, check_for_all_success, parse_meta}
use opi_evpn_bridge.Infradb.Store.{bridge}
use opi_evpn_bridge.Infradb.Program.{update, run}
use opi_evpn_bridge.Infradb.Program.Refine.{view}
use opi_evpn_bridge.Infradb.Bridges.{update_lb_status}
use opi_evpn_bridge.Infradb.Bridges.Status.{IsReported, updated}
use opi_evpn_bridge.Infradb.Examples.Objects.{codec, memory, memory-IsReliable, empty, world, comp}
use opi_evpn_bridge.Linux.Kernel.{Links, effect}
use opi_evpn_bridge.Linux.Plan.{run_plan, succeeds, final, retried}
use opi_evpn_bridge.Linux.Plan.Performed.{performed}
use opi_evpn_bridge.Linux.Report.{ObjectData, own_component, reported}
use opi_evpn_bridge.Linux.Report.Timers.{after_failures, after_failures-timer}
use opi_evpn_bridge.Linux.Bridges.{set_up_bridge, vxlan_name}
use opi_evpn_bridge.Linux.Bridges.Links.{set_up_bridge-stuck}
use opi_evpn_bridge.Linux.Handlers.{Host, handle_lb}
use opi_evpn_bridge.Linux.Handlers.Bridges.{handle_lb-IsReported, handle_lb-up}
use opi_evpn_bridge.Linux.Examples.Objects.{
  kernel, kernel-IsDocumented, never, no_master, host_links, text, vtep, lb,
}

abbrev brought_up : Links
brought_up = final (kernel never) (set_up_bridge 1500 text lb) host_links

abbrev half_way : Links
half_way = final (kernel no_master) (set_up_bridge 1500 text lb) host_links

set_up_bridge-stuck_example :
    (succeeds
        (kernel no_master)
        (set_up_bridge 1500 text lb)
        (retried (kernel no_master) (set_up_bridge 1500 text lb) 3 half_way)
      ≡ false)
    × (retried (kernel no_master) (set_up_bridge 1500 text lb) 3 half_way "vxlan-10"
        ≡ half_way "vxlan-10")
unfolding run_plan set_up_bridge effect vxlan_name decimal performed
set_up_bridge-stuck_example =
    set_up_bridge-stuck (kernel no_master) (λ s. s) (kernel-IsDocumented no_master) 1500 text lb
      host_links 100 vtep refl refl 3 "vxlan-10" (λ e. ground arith) refl

after_failures-timer_example :
    ((after_failures "lgm" ("a" ∷ "b" ∷ "c" ∷ []) (comp "lgm" success)).timer ≡ 8000000000)
    × ((after_failures "lgm" ("a" ∷ "b" ∷ "c" ∷ []) (comp "lgm" success)).timer < 2 ^ 63)
after_failures-timer_example =
    after_failures-timer "lgm" "a" ("b" ∷ "c" ∷ []) (comp "lgm" success) refl (omega arith)

abbrev event : ObjectData
event = record { name = "b1"; resource_version = "1"; notification_id = "n1" }

abbrev host : Host memory (kernel never)
host = record {
  db = world (update empty "b1" (bridge lb));
  kernel = host_links;
  tables = record {
    name = "RTtable";
    unused_ids = 1001 ∷ 1000 ∷ [];
    ids_in_use = [];
    ids_for_reuse = [];
    refs = [];
    size = 2;
  };
}

handle_lb-up_example :
    (m' : Host memory (kernel never)) × (handle_lb memory codec
        (kernel never)
        1500
        text
        []
        event
        host
      ≡ some m')
    × (m'.db.db "b1"
        ≡ some (
            bridge (record lb {
              status = record {
                lb_oper_status = up;
                components = comp "frr" success ∷ comp "lgm" success ∷ [];
              };
            })))
unfolding run run_plan set_up_bridge effect vxlan_name decimal own_component reported set_component
    all_success set_component_state parse_meta
handle_lb-up_example =
    handle_lb-up memory codec (kernel never) 1500 text [] event host lb refl refl refl "" true
      memory-IsReliable refl refl refl refl refl refl

handle_lb-IsReported_example :
    (m' : Host memory (kernel never)) × (handle_lb memory codec
        (kernel never)
        1500
        text
        []
        event
        host
      ≡ some m')
    × (m'.kernel ≡ brought_up)
    × IsReported codec
        (comp "lgm" success)
        "n1"
        (updated none (comp "lgm" success) lb)
        (view memory host.db)
        (view memory m'.db)
        "b1"
        "b1"
        100
unfolding run run_plan set_up_bridge effect vxlan_name decimal own_component reported set_component
    all_success set_component_state parse_meta check_for_all_success update_lb_status
handle_lb-IsReported_example =
    handle_lb-IsReported memory codec (kernel never) 1500 text [] event host lb refl refl refl ""
      true "b1" "b1" 100 refl refl refl refl refl refl refl
