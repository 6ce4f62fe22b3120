-- ===== src/Linux/Vrfs/Links.antt =====
-- What setUpVrf and tearDownVrf do to the links.
use opi_evpn_bridge.Prelude.{
  ℕ, String, ◌≡◌, subst, true, false, List, [], ◌∷◌, none, some, arith, ◌==◌, string_eq,
  if◌then◌else◌,
}
use opi_evpn_bridge.Prelude.Text.{path_base}
use text.Mathlib.TextEquality.{eq_iff}
use opi_evpn_bridge.Infradb.LogicalBridge.{IpNet}
use opi_evpn_bridge.Infradb.Vrf.{Vrf}
use opi_evpn_bridge.Linux.Kernel.{
  Kernel, Link, Links, Request, IsDocumented, vrf, bridge, vxlan, effect, link_add, link_set_master,
  link_set_mtu, link_set_up, link_set_hardware_addr, addr_add, route_add,
}
use opi_evpn_bridge.Linux.Plan.{Plan, run_plan, succeeds, final}
use opi_evpn_bridge.Linux.Plan.Performed.{
  performed, effects, links-run_plan, AllFree, performed-AllFree,
}
use opi_evpn_bridge.Linux.Report.{Fmt}
use opi_evpn_bridge.Linux.Vrfs.{
  plan_vrf, bridge_name, vxlan_name, vrf_link, vrf_bridge, vrf_vxlan, generate_mac,
}

abbrev pub vrf_device : ℕ → Link
vrf_device table = record { kind = vrf table; master = none; is_up = true }

abbrev pub bridge_device : Vrf → Link
bridge_device v = record { kind = bridge false; master = some (path_base v.name); is_up = true }

abbrev pub vxlan_device : Vrf → ℕ → IpNet → Link
vxlan_device v vni vtep = record {
  kind = vxlan vni 4789 (some vtep.ip) false true;
  master = some (bridge_name v);
  is_up = true;
}

module _ (K : Kernel) (links : K.State → Links) (documented : IsDocumented K links) (mtu : ℕ)
    (text : Fmt) (random : List ℕ) (v : Vrf) (vni table : ℕ) (vtep loopback : IpNet)
    (has_vni : v.spec.vni ≡ some vni) (has_vtep : v.spec.vtep_ip ≡ some vtep)
    (has_loopback : v.spec.loopback_ip ≡ some loopback) (s : K.State) where
  -- The calls of a set-up that succeeds.
  abbrev set_up_calls : List Request
  set_up_calls =
      link_add (vrf_link v table)
      ∷ link_set_mtu (path_base v.name) mtu
      ∷ link_set_up (path_base v.name)
      ∷ addr_add (path_base v.name) (some loopback)
      ∷ route_add (record { table = table; protocol = 255; priority = 9999; src = 0 })
      ∷ link_add (vrf_bridge v)
      ∷ link_set_hardware_addr (bridge_name v) (text.hardware_addr (generate_mac random))
      ∷ link_set_mtu (bridge_name v) mtu
      ∷ link_set_master (bridge_name v) (path_base v.name)
      ∷ link_set_up (bridge_name v)
      ∷ link_add (vrf_vxlan mtu v vni vtep.ip)
      ∷ link_set_master (vxlan_name v) (bridge_name v)
      ∷ link_set_up (vxlan_name v)
      ∷ []

  abbrev up : Plan
  up = plan_vrf mtu text random v table

  performed-plan_vrf : succeeds K up s ≡ true → performed K up s ≡ set_up_calls
  unfolding performed run_plan plan_vrf
  performed-plan_vrf h = ground arith

  -- The three names were free.
  pub were_free :
      succeeds K up s ≡ true
      → (links s (path_base v.name) ≡ none)
        × (links s (bridge_name v) ≡ none)
        × (links s (vxlan_name v) ≡ none)
  unfolding effect
  were_free h =
      let free =
        subst (λ rs. AllFree rs (links s)) (performed-plan_vrf h)
          (performed-AllFree K links documented up s) in
      ground (
        arith,
        free,
        eq_iff (path_base v.name) (bridge_name v),
        eq_iff (path_base v.name) (vxlan_name v),
        eq_iff (bridge_name v) (vxlan_name v),
      )

  -- A set-up of a VRF that succeeds adds its device, its bridge and its VXLAN link, each up and in
  -- the one before, and leaves every other link as it was. The VRF has a VNI, a VTEP address and a
  -- loopback address, and the kernel does what netlink documents.
  pub plan_vrf-links :
      succeeds K up s ≡ true
      → (n : String)
      → links (final K up s) n ≡ (
          if vxlan_name v == n
          then some (vxlan_device v vni vtep)
          else if bridge_name v == n
          then some (bridge_device v)
          else if path_base v.name == n
          then some (vrf_device table)
          else links s n)
  unfolding effects effect
  plan_vrf-links h n =
      rw (links-run_plan K links documented up s, performed-plan_vrf h)
        (ground
          (arith, eq_iff (vxlan_name v) n, eq_iff (bridge_name v) n, eq_iff (path_base v.name) n))
