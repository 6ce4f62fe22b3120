-- ===== src/Linux/Ports/Vlans.antt =====
-- The VLANs of a bridge port's interface.
use opi_evpn_bridge.Prelude.{
  ℕ, ◌^◌, String, ◌≡◌, Bool, true, false, List, [], ◌∷◌, ◌++◌, arith, ltb, All,
}
use opi_evpn_bridge.Prelude.Text.{path_base, sprint}
use opi_evpn_bridge.Infradb.Errors.{Result, ok, err}
use opi_evpn_bridge.Infradb.LogicalBridge.{LogicalBridge}
use opi_evpn_bridge.Infradb.BridgePort.{BridgePort, BridgePortType, access, trunk, unspecified}
use opi_evpn_bridge.Linux.Kernel.{
  Kernel, Request, VlanFlags, link_set_master, link_set_up, link_set_down, bridge_vlan_add,
  bridge_vlan_del, link_del,
}
use opi_evpn_bridge.Linux.Plan.{Plan, request, finish, run_plan, succeeds}
use opi_evpn_bridge.Linux.Plan.Performed.{performed}
use opi_evpn_bridge.Linux.Report.{Fmt}
use opi_evpn_bridge.Linux.Bridges.{br_tenant, access_flags}
use opi_evpn_bridge.Linux.Ports.{set_up_bp, tear_down_bp, trunk_flags, add_vlans, delete_vlans}

-- An access port gets a VLAN untagged and as its own, a trunk port gets it tagged.
abbrev pub flags_of : BridgePortType → VlanFlags
flags_of access = access_flags
flags_of _ = trunk_flags

module _ (get_lb : String → Result LogicalBridge) where
  abbrev vid_of : Result LogicalBridge → ℕ
  vid_of (ok lb) = lb.spec.vlan_id
  vid_of (err e) = 0

  -- The bridge is in the database, with a VLAN of 16 bits.
  abbrev pub is_usable : Result LogicalBridge → Bool
  is_usable (ok lb) = ltb lb.spec.vlan_id (2 ^ 16)
  is_usable (err e) = false

  -- One call for each of the bridges, in order.
  unfoldable pub vlan_calls : (ℕ → Request) → List String → List Request
  vlan_calls call [] = []
  vlan_calls call (name ∷ names) = call (vid_of (get_lb name)) ∷ vlan_calls call names

  module _ (K : Kernel) (text : Fmt) where
    set_up_tail : String → Plan
    set_up_tail iface =
        request (link_set_up iface) (λ e. sprint ("Failed to up iface link: " ∷ e ∷ []))
          (finish "" true)

    usable_first :
        (iface : String) (ptype : BridgePortType) (name : String) (names : List String)
        (s : K.State)
        → succeeds K (add_vlans text get_lb iface ptype (name ∷ names) (set_up_tail iface)) s ≡ true
        → is_usable (get_lb name) ≡ true
    unfolding run_plan add_vlans
    usable_first iface ptype name names s h = ground arith

    performed-add_vlans :
        (iface : String) (ptype : BridgePortType) (names : List String) (s : K.State)
        → succeeds K (add_vlans text get_lb iface ptype names (set_up_tail iface)) s ≡ true
        → All (λ name. is_usable (get_lb name) ≡ true) names
          × (performed K (add_vlans text get_lb iface ptype names (set_up_tail iface)) s
              ≡ vlan_calls (λ vid. bridge_vlan_add iface vid (flags_of ptype)) names
                ++ link_set_up iface ∷ [])
    unfolding performed run_plan vlan_calls add_vlans set_up_tail
    performed-add_vlans iface ptype [] s h = (tt, ground arith)
    performed-add_vlans iface access (name ∷ names) s h =
        let s' = (K.perform s (bridge_vlan_add iface (vid_of (get_lb name)) access_flags)).1 in
        let usable = usable_first iface access name names s h in
        let rest = performed-add_vlans iface access names s' (ground (arith, usable)) in
        ((usable, rest.0), ground (arith, usable, rest.1))
    performed-add_vlans iface trunk (name ∷ names) s h =
        let s' = (K.perform s (bridge_vlan_add iface (vid_of (get_lb name)) trunk_flags)).1 in
        let usable = usable_first iface trunk name names s h in
        let rest = performed-add_vlans iface trunk names s' (ground (arith, usable)) in
        ((usable, rest.0), ground (arith, usable, rest.1))
    performed-add_vlans iface unspecified (name ∷ names) s h = absurd (ground arith)

    -- A set-up of a bridge port that succeeds has found each of its logical bridges, with a VLAN of
    -- 16 bits, and the calls that the kernel accepted are: put the interface into the bridge of the
    -- tenants, add it to the VLAN of each of the logical bridges, in order, and set it up.
    pub performed-set_up_bp :
        (bp : BridgePort) (s : K.State)
        → succeeds K (set_up_bp text get_lb bp) s ≡ true
        → All (λ name. is_usable (get_lb name) ≡ true) bp.spec.logical_bridges
          × (performed K (set_up_bp text get_lb bp) s
              ≡ link_set_master (path_base bp.name) br_tenant
                  ∷ vlan_calls
                      (λ vid. bridge_vlan_add (path_base bp.name) vid (flags_of bp.spec.ptype))
                      bp.spec.logical_bridges
                ++ link_set_up (path_base bp.name) ∷ [])
    unfolding performed run_plan set_up_bp set_up_tail
    performed-set_up_bp bp s h =
        let iface = path_base bp.name in
        let s' = (K.perform s (link_set_master iface br_tenant)).1 in
        let rest =
          performed-add_vlans iface bp.spec.ptype bp.spec.logical_bridges s' (ground arith) in
        (rest.0, ground (arith, rest.1))

    tear_down_tail : String → Plan
    tear_down_tail iface =
        request (link_del iface) (λ e. sprint ("Failed to delete link: " ∷ e ∷ [])) (finish "" true)

    performed-delete_vlans :
        (iface : String) (names : List String) (s : K.State)
        → succeeds K (delete_vlans text get_lb iface names (tear_down_tail iface)) s ≡ true
        → performed K (delete_vlans text get_lb iface names (tear_down_tail iface)) s
          ≡ vlan_calls (λ vid. bridge_vlan_del iface vid access_flags) names ++ link_del iface ∷ []
    unfolding performed run_plan vlan_calls delete_vlans tear_down_tail
    performed-delete_vlans iface [] s h = ground arith
    performed-delete_vlans iface (name ∷ names) s h =
        let s' = (K.perform s (bridge_vlan_del iface (vid_of (get_lb name)) access_flags)).1 in
        let rest = performed-delete_vlans iface names s' (ground arith) in ground (arith, rest)

    -- A tear-down of a bridge port that succeeds undoes the VLANs in the order of the set-up: the
    -- calls that the kernel accepted are: set the interface down, take it from the VLAN of each of
    -- the logical bridges, and delete it.
    pub performed-tear_down_bp :
        (bp : BridgePort) (s : K.State)
        → succeeds K (tear_down_bp text get_lb bp) s ≡ true
        → performed K (tear_down_bp text get_lb bp) s
          ≡ link_set_down (path_base bp.name)
              ∷ vlan_calls
                  (λ vid. bridge_vlan_del (path_base bp.name) vid access_flags)
                  bp.spec.logical_bridges
            ++ link_del (path_base bp.name) ∷ []
    unfolding performed run_plan tear_down_bp tear_down_tail
    performed-tear_down_bp bp s h =
        let iface = path_base bp.name in
        let s' = (K.perform s (link_set_down iface)).1 in
        ground (arith, performed-delete_vlans iface bp.spec.logical_bridges s' (ground arith))
