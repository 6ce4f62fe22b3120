-- ===== src/Linux/Examples/Svis.antt =====
-- The theorems about the general module's SVIs and the CI module's bridge ports.
use opi_evpn_bridge.Prelude.{
  String, ◌≡◌, refl, arith, [], none, some, ◌==◌, string_eq, if◌then◌else◌,
}
use opi_evpn_bridge.Prelude.Text.{decimal, path_base}
use opi_evpn_bridge.Infradb.Errors.{Result, ok, err, key_not_found}
use opi_evpn_bridge.Infradb.Components.{down}
use opi_evpn_bridge.Infradb.LogicalBridge.{LogicalBridge}
use opi_evpn_bridge.Infradb.Svi.{Svi}
use opi_evpn_bridge.Infradb.Examples.Objects.{svi_of}
use opi_evpn_bridge.Linux.Kernel.{Links, released, effect, created, other}
use opi_evpn_bridge.Linux.Plan.{run_plan, final}
use opi_evpn_bridge.Linux.Svis.{set_up_svi, tear_down_svi, svi_link_name}
use opi_evpn_bridge.Linux.Svis.Links.{tear_down_svi-set_up_svi}
use opi_evpn_bridge.Linux.Examples.Objects.{
  kernel, kernel-IsDocumented, never, host_links, text, lb,
}

abbrev find_bridge : String → Result LogicalBridge
find_bridge name = if name == "b1" then ok lb else err key_not_found

-- The SVI of VRF red and bridge b1, and a host on which the VRF is up.
abbrev svi : Svi
svi = svi_of "s1" down []

abbrev with_red : Links
with_red n = if n == "red" then some (created other) else host_links n

abbrev svi_up : Links
svi_up = final (kernel never) (set_up_svi 1500 text find_bridge svi) with_red

unreferenced : (n : String) → released (svi_link_name svi lb) (with_red n) ≡ with_red n
unfolding svi_link_name
unreferenced n = ground arith

tear_down_svi-set_up_svi_example :
    final (kernel never) (tear_down_svi 1500 text find_bridge svi) svi_up "red-10" ≡ none
unfolding run_plan set_up_svi tear_down_svi effect svi_link_name decimal path_base
tear_down_svi-set_up_svi_example =
    tear_down_svi-set_up_svi (kernel never) (λ s. s) (kernel-IsDocumented never) 1500 text
      find_bridge svi lb with_red refl refl refl refl unreferenced "red-10"
