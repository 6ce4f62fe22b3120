-- ===== src/Linux/Svis/Links.antt =====
-- What setUpSvi and tearDownSvi do to the links.
use opi_evpn_bridge.Prelude.{
  ℕ, ◌%◌, ◌^◌, String, ◌≡◌, refl, ap, subst, ◌∙◌, true, List, [], ◌∷◌, ◌++◌, none, some, arith,
  ◌==◌, string_eq, inl, inr, Option-cases, if◌then◌else◌,
}
use opi_evpn_bridge.Prelude.Text.{path_base, sprint}
use text.Mathlib.TextEquality.{eq_iff}
use opi_evpn_bridge.Infradb.Errors.{Result, ok}
use opi_evpn_bridge.Infradb.LogicalBridge.{LogicalBridge, IpNet}
use opi_evpn_bridge.Infradb.Svi.{Svi}
use opi_evpn_bridge.Linux.Kernel.{
  Kernel, Link, Links, Request, IsDocumented, vlan, effect, link_add, link_del, link_set_master,
  link_set_mtu, link_set_up, link_set_hardware_addr, bridge_vlan_add, bridge_vlan_del, sysctl,
  addr_add, released,
}
use opi_evpn_bridge.Linux.Plan.{Plan, finish, attempt, run_plan, succeeds, final}
use opi_evpn_bridge.Linux.Plan.Performed.{
  performed, effects, links-run_plan, effects-append, AllFree, performed-AllFree,
}
use opi_evpn_bridge.Linux.Report.{Fmt}
use opi_evpn_bridge.Linux.Bridges.{br_tenant}
use opi_evpn_bridge.Linux.Svis.{
  set_up_svi, tear_down_svi, svi_link_name, svi_link, self_flags, add_addresses,
}

abbrev pub vlan_device : Svi → LogicalBridge → Link
vlan_device svi lb = record {
  kind = vlan br_tenant lb.spec.vlan_id;
  master = some (path_base svi.spec.vrf);
  is_up = true;
}

module _ (K : Kernel) (links : K.State → Links) (documented : IsDocumented K links) (mtu : ℕ)
    (text : Fmt) (get_lb : String → Result LogicalBridge) where
  harmless-add_addresses :
      (link : String) (ips : List IpNet) (s : K.State) (l : Links)
      → effects (performed K (add_addresses mtu text get_lb link ips (finish "" true)) s) l ≡ l
  unfolding performed effects effect add_addresses
  harmless-add_addresses link [] s l = refl
  harmless-add_addresses link (ip ∷ ips) s l =
      elim (Option-cases (K.perform s (addr_add link (some ip))).0) [
        | inl e ↦
            rw (e, performed)
              (harmless-add_addresses link ips (K.perform s (addr_add link (some ip))).1 l)
        | inr (m, e) ↦ rw (e, performed) refl
      ]

  abbrev tail : Svi → LogicalBridge → Plan
  tail svi lb =
      attempt (sysctl (sprint ("net.ipv4.conf." ∷ svi_link_name svi lb ∷ ".arp_accept=1" ∷ [])))
        (add_addresses mtu text get_lb (svi_link_name svi lb) svi.spec.gateway_ips (finish "" true))

  harmless-tail :
      (svi : Svi) (lb : LogicalBridge) (s : K.State) (l : Links)
      → effects (performed K (tail svi lb) s) l ≡ l
  unfolding performed effects effect
  harmless-tail svi lb s l =
      let call = sysctl (sprint ("net.ipv4.conf." ∷ svi_link_name svi lb ∷ ".arp_accept=1" ∷ [])) in
      let rest =
        harmless-add_addresses (svi_link_name svi lb) svi.spec.gateway_ips (K.perform s call).1 l in
      elim (Option-cases (K.perform s call).0) [
        | inl e ↦ rw (e, performed) rest
        | inr (m, e) ↦ rw (e, performed) rest
      ]

  module _ (svi : Svi) (lb : LogicalBridge) (s : K.State)
      (has_bridge : get_lb svi.spec.logical_bridge ≡ ok lb)
      (found : K.find_error
          (K.perform s (bridge_vlan_del br_tenant (lb.spec.vlan_id % 2 ^ 16) self_flags)).1
          (svi_link_name svi lb)
        ≡ none)
      (h : succeeds K (tear_down_svi mtu text get_lb svi) s ≡ true) where
    performed-tear_down_svi :
        performed K (tear_down_svi mtu text get_lb svi) s
        ≡ bridge_vlan_del br_tenant (lb.spec.vlan_id % 2 ^ 16) self_flags
          ∷ link_del (svi_link_name svi lb)
          ∷ []
    unfolding performed run_plan tear_down_svi
    performed-tear_down_svi = ground arith

    removed :
        (n : String)
        → links (final K (tear_down_svi mtu text get_lb svi) s) n ≡ (
            if svi_link_name svi lb == n then none else released (svi_link_name svi lb) (links s n))
    unfolding effects effect
    removed n =
        rw
          (
            links-run_plan K links documented (tear_down_svi mtu text get_lb svi) s,
            performed-tear_down_svi,
          )
          refl

  module _ (svi : Svi) (lb : LogicalBridge) (s : K.State)
      (has_bridge : get_lb svi.spec.logical_bridge ≡ ok lb) where
    abbrev up : Plan
    up = set_up_svi mtu text get_lb svi

    abbrev set_up_calls : List Request
    set_up_calls =
        bridge_vlan_add br_tenant (lb.spec.vlan_id % 2 ^ 16) self_flags
        ∷ link_add (svi_link svi lb)
        ∷ link_set_hardware_addr (svi_link_name svi lb) svi.spec.mac_address
        ∷ link_set_master (svi_link_name svi lb) (path_base svi.spec.vrf)
        ∷ link_set_up (svi_link_name svi lb)
        ∷ link_set_mtu (svi_link_name svi lb) mtu
        ∷ []

    -- The state in which the calls have been made.
    after_calls : List Request → K.State → K.State
    after_calls [] t = t
    after_calls (r ∷ rs) t = after_calls rs (K.perform t r).1

    performed-set_up_svi :
        succeeds K up s ≡ true
        → performed K up s ≡ set_up_calls ++ performed K (tail svi lb) (after_calls set_up_calls s)
    unfolding performed run_plan set_up_svi after_calls
    performed-set_up_svi h = ground arith

    links_after : succeeds K up s ≡ true → links (final K up s) ≡ effects set_up_calls (links s)
    links_after h =
        let rest = performed K (tail svi lb) (after_calls set_up_calls s) in
        links-run_plan K links documented up s
        ∙ ap (λ rs. effects rs (links s)) (performed-set_up_svi h)
        ∙ effects-append set_up_calls rest (links s)
        ∙ harmless-tail svi lb (after_calls set_up_calls s) (effects set_up_calls (links s))

    was_free : succeeds K up s ≡ true → links s (svi_link_name svi lb) ≡ none
    unfolding effect
    was_free h =
        let free =
          subst (λ rs. AllFree rs (links s)) (performed-set_up_svi h)
            (performed-AllFree K links documented up s) in
        free.1.0

    -- A set-up of an SVI that succeeds adds one link, which is up and in the VRF, a VLAN link of the
    -- bridge of the tenants, and leaves every other link as it was. The logical bridge of the SVI is
    -- in the database.
    pub set_up_svi-links :
        succeeds K up s ≡ true
        → (n : String)
        → links (final K up s) n
          ≡ (if svi_link_name svi lb == n then some (vlan_device svi lb) else links s n)
    unfolding effects effect
    set_up_svi-links h n = rw (links_after h) (ground (arith, eq_iff (svi_link_name svi lb) n))

    abbrev down : Plan
    down = tear_down_svi mtu text get_lb svi

    -- A set-up of an SVI that succeeds is undone by a tear-down that succeeds: every link is as it
    -- was before. The logical bridge is in the database, the link is found again, no link has the
    -- new one as its master or parent, and the kernel does what netlink documents.
    pub tear_down_svi-set_up_svi :
        succeeds K up s ≡ true
        → K.find_error
            (K.perform
              (final K up s)
              (bridge_vlan_del br_tenant (lb.spec.vlan_id % 2 ^ 16) self_flags)).1
            (svi_link_name svi lb)
          ≡ none
        → succeeds K down (final K up s) ≡ true
        → ((m : String) → released (svi_link_name svi lb) (links s m) ≡ links s m)
        → (n : String) → links (final K down (final K up s)) n ≡ links s n
    tear_down_svi-set_up_svi h found k unreferenced n =
        rw (removed svi lb (final K up s) has_bridge found k n, set_up_svi-links h n)
          (ground (arith, unreferenced n, was_free h, eq_iff (svi_link_name svi lb) n))
