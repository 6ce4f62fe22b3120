-- ===== src/Linux/Bridges/Links.antt =====
-- What setUpBridge and tearDownBridge do to the links.
use opi_evpn_bridge.Prelude.{
  ℕ, zero, suc, ◌%◌, ◌^◌, String, ◌≡◌, ◌≢◌, refl, ap, ◌∙◌, true, false, List, [], ◌∷◌, none, some,
  arith, ◌==◌, string_eq, if◌then◌else◌,
}
use text.Mathlib.TextEquality.{eq_iff}
use opi_evpn_bridge.Infradb.LogicalBridge.{LogicalBridge, IpNet}
use opi_evpn_bridge.Linux.Kernel.{
  Kernel, Link, Links, Request, IsDocumented, vxlan, effect, link_add, link_set_master, link_set_up,
  link_del, bridge_vlan_add, link_set_br_neigh_suppress, released,
}
use opi_evpn_bridge.Linux.Kernel.Laws.{missing_deleted, accepted_or_same}
use opi_evpn_bridge.Linux.Plan.{Plan, run_plan, succeeds, final, retried}
use opi_evpn_bridge.Linux.Plan.Performed.{performed, effects, links-run_plan}
use opi_evpn_bridge.Linux.Report.{Fmt}
use opi_evpn_bridge.Linux.Bridges.{
  set_up_bridge, tear_down_bridge, br_tenant, access_flags, vxlan_name, vxlan_link,
}

-- The calls of a set-up that succeeds.
abbrev set_up_calls : ℕ → LogicalBridge → ℕ → IpNet → List Request
set_up_calls mtu lb vni vtep =
    link_add (vxlan_link mtu lb vni vtep.ip)
    ∷ link_set_master (vxlan_name lb) br_tenant
    ∷ link_set_up (vxlan_name lb)
    ∷ bridge_vlan_add (vxlan_name lb) (lb.spec.vlan_id % 2 ^ 16) access_flags
    ∷ link_set_br_neigh_suppress (vxlan_name lb) true
    ∷ []

abbrev vxlan_device : ℕ → IpNet → Link
vxlan_device vni vtep = record {
  kind = vxlan vni 4789 (some vtep.ip) false false;
  master = some br_tenant;
  is_up = true;
}

module _ (K : Kernel) (links : K.State → Links) (documented : IsDocumented K links)
    (lb : LogicalBridge) (s : K.State) where
  abbrev down : Plan
  down = tear_down_bridge lb

  -- A tear-down that finds the link and succeeds deletes it.
  removed :
      (vni : ℕ)
      → lb.spec.vni ≡ some vni
      → K.find_error s (vxlan_name lb) ≡ none
      → succeeds K down s ≡ true
      → (n : String)
      → links (final K down s) n
        ≡ (if vxlan_name lb == n then none else released (vxlan_name lb) (links s n))
  unfolding run_plan tear_down_bridge effect
  removed vni has_vni found h n =
      let e = documented.accepted s (link_del (vxlan_name lb)) in
      ground (arith, e, eq_iff (vxlan_name lb) n)

  -- After a tear-down of a logical bridge that succeeds, another one succeeds and does nothing.
  pub tear_down_bridge_idem :
      succeeds K down s ≡ true
      → (succeeds K down (final K down s) ≡ true) × (final K down (final K down s) ≡ final K down s)
  unfolding run_plan tear_down_bridge effect
  tear_down_bridge_idem h = ground (arith, missing_deleted K links documented s (vxlan_name lb))

module _ (K : Kernel) (links : K.State → Links) (documented : IsDocumented K links) (mtu : ℕ)
    (text : Fmt) (lb : LogicalBridge) (s : K.State) where
  abbrev up : Plan
  up = set_up_bridge mtu text lb

  module _ (vni : ℕ) (vtep : IpNet) (has_vni : lb.spec.vni ≡ some vni)
      (has_vtep : lb.spec.vtep_ip ≡ some vtep) where
    performed-set_up_bridge :
        succeeds K up s ≡ true → performed K up s ≡ set_up_calls mtu lb vni vtep
    unfolding performed run_plan set_up_bridge
    performed-set_up_bridge h = ground arith

    free_name : succeeds K up s ≡ true → links s (vxlan_name lb) ≡ none
    unfolding run_plan set_up_bridge
    free_name h = ground (arith, documented.free s (vxlan_link mtu lb vni vtep.ip))

    pub set_up_bridge-links :
        succeeds K up s ≡ true
        → (n : String)
        → links (final K up s) n
          ≡ (if vxlan_name lb == n then some (vxlan_device vni vtep) else links s n)
    unfolding effects effect
    set_up_bridge-links h n =
        rw (links-run_plan K links documented up s, performed-set_up_bridge h)
          (ground (arith, eq_iff (vxlan_name lb) n))

    -- A set-up of a logical bridge that succeeds is undone by a tear-down that succeeds: every link
    -- is as it was before. The bridge has a VNI and a VTEP address, the link is found again, no link
    -- has the new one as its master or parent, and the kernel does what netlink documents.
    pub tear_down_bridge-set_up_bridge :
        succeeds K up s ≡ true
        → K.find_error (final K up s) (vxlan_name lb) ≡ none
        → succeeds K (tear_down_bridge lb) (final K up s) ≡ true
        → ((m : String) → released (vxlan_name lb) (links s m) ≡ links s m)
        → (n : String) → links (final K (tear_down_bridge lb) (final K up s)) n ≡ links s n
    tear_down_bridge-set_up_bridge h found deleted unreferenced n =
        let m = final K up s in
        rw (removed K links documented lb m vni has_vni found deleted n, set_up_bridge-links h n)
          (ground (arith, unreferenced n, free_name h, eq_iff (vxlan_name lb) n))

    added :
        (performed K up s ≢ [])
        → succeeds K up s ≡ false
        → links (final K up s) (vxlan_name lb) ≢ none
    unfolding effects effect performed run_plan set_up_bridge
    added h k gone =
        let name = vxlan_name lb in
        let e = ap (λ f. f name) (links-run_plan K links documented up s) in
        ground (arith, e, eq_iff name name)

    refuses :
        (t : K.State) (n : String)
        → links t (vxlan_name lb) ≢ none
        → (succeeds K up t ≡ false) × (links (final K up t) n ≡ links t n)
    unfolding run_plan set_up_bridge
    refuses t n taken =
        let new_link = vxlan_link mtu lb vni vtep.ip in
        ground (
          arith,
          documented.free t new_link,
          accepted_or_same K links documented t (link_add new_link) n,
        )

    stays_refused :
        (t : K.State) (k : ℕ) (n : String)
        → links t (vxlan_name lb) ≢ none
        → (succeeds K up (retried K up k t) ≡ false) × (links (retried K up k t) n ≡ links t n)
    unfolding retried
    stays_refused t zero n taken = ((refuses t n taken).0, refl)
    stays_refused t (suc k) n taken =
        let kept = (refuses t (vxlan_name lb) taken).1 in
        let rest = stays_refused (final K up t) k n (rw kept taken) in
        (rest.0, rest.1 ∙ (refuses t n taken).1)

    -- A set-up of a logical bridge that fails after it has changed something never recovers: each
    -- of the retries fails, and changes no link. The bridge has a VNI and a VTEP address, and the
    -- kernel does what netlink documents.
    pub set_up_bridge-stuck :
        (k : ℕ) (n : String)
        → performed K up s ≢ []
        → succeeds K up s ≡ false
        → (succeeds K up (retried K up k (final K up s)) ≡ false)
          × (links (retried K up k (final K up s)) n ≡ links (final K up s) n)
    set_up_bridge-stuck k n changed h = stays_refused (final K up s) k n (added changed h)
