-- ===== src/Linux/Vrfs/TearDown.antt =====
-- tearDownVrf, after a set-up that succeeded and after one that did not.
use opi_evpn_bridge.Prelude.{
  ℕ, String, ◌≡◌, true, false, List, [], ◌∷◌, none, some, arith, ◌==◌, string_eq, if◌then◌else◌,
}
use opi_evpn_bridge.Prelude.Text.{path_base, decimal}
use text.Mathlib.TextEquality.{eq_iff}
use opi_evpn_bridge.Infradb.LogicalBridge.{IpNet}
use opi_evpn_bridge.Infradb.Vrf.{Vrf}
use opi_evpn_bridge.Linux.Kernel.{
  Kernel, Links, IsDocumented, effect, link_del, route_flush_table, released,
}
use opi_evpn_bridge.Linux.Plan.{Plan, run_plan, succeeds, final}
use opi_evpn_bridge.Linux.Plan.Performed.{performed, effects, links-run_plan}
use opi_evpn_bridge.Linux.Report.{Fmt}
use opi_evpn_bridge.Linux.Vrfs.{plan_vrf, tear_down_vrf, is_grd, bridge_name, vxlan_name, tables_of}
use opi_evpn_bridge.Linux.Vrfs.Links.{plan_vrf-links, were_free}

module _ (K : Kernel) (mtu : ℕ) (text : Fmt) (random : List ℕ) (v : Vrf) (table : ℕ)
    (ordinary : is_grd v ≡ false) (has_table : v.meta ≡ tables_of (table ∷ [])) (s : K.State) where
  abbrev down : Plan
  down = tear_down_vrf mtu text random v

  module _ (links : K.State → Links) (documented : IsDocumented K links) (vni : ℕ)
      (has_vni : v.spec.vni ≡ some vni) where
    performed-tear_down_vrf :
        K.find_error s (path_base v.name) ≡ none
        → succeeds K down s ≡ true
        → performed K down s
          ≡ link_del (vxlan_name v)
            ∷ link_del (bridge_name v)
            ∷ route_flush_table (decimal table)
            ∷ link_del (path_base v.name)
            ∷ []
    unfolding performed run_plan tear_down_vrf
    performed-tear_down_vrf found h = ground arith

    removed :
        K.find_error s (path_base v.name) ≡ none
        → succeeds K down s ≡ true
        → (n : String)
        → links (final K down s) n ≡ (
            if path_base v.name == n
            then none
            else released (path_base v.name) (
                if bridge_name v == n
                then none
                else released
                    (bridge_name v)
                    (if vxlan_name v == n then none else released (vxlan_name v) (links s n))))
    unfolding effects effect
    removed found h n =
        rw (links-run_plan K links documented down s, performed-tear_down_vrf found h)
          (ground
            (arith, eq_iff (vxlan_name v) n, eq_iff (bridge_name v) n, eq_iff (path_base v.name) n))

module _ (K : Kernel) (links : K.State → Links) (documented : IsDocumented K links) (mtu : ℕ)
    (text : Fmt) (random : List ℕ) (v : Vrf) (vni table : ℕ) (vtep loopback : IpNet)
    (has_vni : v.spec.vni ≡ some vni) (has_vtep : v.spec.vtep_ip ≡ some vtep)
    (has_loopback : v.spec.loopback_ip ≡ some loopback) (s : K.State) where
  abbrev done_up : K.State
  done_up = final K (plan_vrf mtu text random v table) s

  -- A set-up of a VRF that succeeds is undone by a tear-down that succeeds: every link is as it was
  -- before. The VRF is not the GRD, it has a VNI and its addresses, the set-up's routing table is in
  -- it, its device is found again, no link has one of the three new ones as master or
  -- parent, and the kernel does what netlink documents.
  pub tear_down_vrf-plan_vrf :
      is_grd v ≡ false
      → v.meta ≡ tables_of (table ∷ [])
      → succeeds K (plan_vrf mtu text random v table) s ≡ true
      → K.find_error done_up (path_base v.name) ≡ none
      → succeeds K (tear_down_vrf mtu text random v) done_up ≡ true
      → ((m : String) → released (path_base v.name) (links s m) ≡ links s m)
      → ((m : String) → released (bridge_name v) (links s m) ≡ links s m)
      → ((m : String) → released (vxlan_name v) (links s m) ≡ links s m)
      → (n : String) → links (final K (tear_down_vrf mtu text random v) done_up) n ≡ links s n
  tear_down_vrf-plan_vrf ordinary has_table h found k base br vx n =
      let free =
        were_free K links documented mtu text random v vni table vtep loopback has_vni has_vtep
          has_loopback s h in
      rw
        (
          removed K mtu text random v table ordinary has_table done_up links documented vni has_vni
              found k n,
          plan_vrf-links K links documented mtu text random v vni table vtep loopback has_vni
              has_vtep has_loopback s h n,
        )
        (ground (
          arith,
          free,
          base n,
          br n,
          vx n,
          eq_iff (path_base v.name) n,
          eq_iff (bridge_name v) n,
          eq_iff (vxlan_name v) n,
        ))
