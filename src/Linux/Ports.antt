-- ===== src/Linux/Ports.antt =====
-- setUpBp and tearDownBp of pkg/LinuxCIModule/lci.go. `get_lb` is infradb.GetLB.
pub mod Vlans
use opi_evpn_bridge.Prelude.{ℕ, String, Bool, true, false, List, [], ◌∷◌}
use opi_evpn_bridge.Prelude.Text.{sprint, path_base}
use opi_evpn_bridge.Infradb.Errors.{Result}
use opi_evpn_bridge.Infradb.LogicalBridge.{LogicalBridge}
use opi_evpn_bridge.Infradb.BridgePort.{BridgePort, BridgePortType, access, trunk, unspecified}
use opi_evpn_bridge.Linux.Kernel.{
  VlanFlags, link_set_master, link_set_up, link_set_down, bridge_vlan_add, bridge_vlan_del,
  link_del,
}
use opi_evpn_bridge.Linux.Plan.{Plan, finish, request, find, in_order}
use opi_evpn_bridge.Linux.Report.{Fmt}
use opi_evpn_bridge.Linux.Bridges.{br_tenant, access_flags}
use opi_evpn_bridge.Linux.Svis.{with_bridge, with_vid}

abbrev pub trunk_flags : VlanFlags
trunk_flags = record { pvid = false; untagged = false; self = false; master = false }

-- The number that `%d` prints of a type of port.
abbrev type_number : BridgePortType → String
type_number unspecified = "0"
type_number access = "1"
type_number trunk = "2"

module _ (text : Fmt) (get_lb : String → Result LogicalBridge) where
  add_vlan : String → BridgePortType → ℕ → Plan → Plan
  add_vlan iface access vid rest =
      request (bridge_vlan_add iface vid access_flags)
        (λ e. sprint ("Failed to add vlan to bridge: " ∷ e ∷ [])) rest
  add_vlan iface trunk vid rest =
      request (bridge_vlan_add iface vid trunk_flags)
        (λ e. sprint ("Failed to add vlan to bridge: " ∷ e ∷ [])) rest
  add_vlan iface unspecified vid rest =
      finish
        (sprint ("Only ACCESS or TRUNK supported and not (" ∷ type_number unspecified ∷ ")" ∷ []))
        false

  add_vlans : String → BridgePortType → List String → Plan → Plan
  unfolding add_vlan
  add_vlans iface ptype [] rest = rest
  add_vlans iface ptype (name ∷ names) rest =
      with_bridge text "LCI" get_lb name
        λ lb. with_vid "LVM" lb λ vid. add_vlan iface ptype vid (add_vlans iface ptype names rest)

  unfoldable pub set_up_bp : BridgePort → Plan
  unfolding add_vlans
  set_up_bp bp =
      let iface = path_base bp.name in
      in_order
        (find br_tenant (λ e. sprint ("LCI: Unable to find key br-tenant, " ∷ e ∷ [])) false
          ∷ find iface (λ e. sprint ("LCI: Unable to find key " ∷ iface ∷ "\n" ∷ [])) false
          ∷ request (link_set_master iface br_tenant)
              (λ e. sprint ("LCI: Failed to add iface to bridge: " ∷ e ∷ []))
          ∷ add_vlans iface bp.spec.ptype bp.spec.logical_bridges
          ∷ request (link_set_up iface) (λ e. sprint ("Failed to up iface link: " ∷ e ∷ []))
          ∷ [])
        (finish "" true)

  delete_vlans : String → List String → Plan → Plan
  delete_vlans iface [] rest = rest
  delete_vlans iface (name ∷ names) rest = with_bridge text "LCI" get_lb name λ lb.
      with_vid "LVM" lb λ vid.
        request (bridge_vlan_del iface vid access_flags)
          (λ e. sprint ("LCI: Failed to delete vlan to bridge: " ∷ e ∷ []))
          (delete_vlans iface names rest)

  unfoldable pub tear_down_bp : BridgePort → Plan
  unfolding delete_vlans
  tear_down_bp bp =
      let iface = path_base bp.name in
      in_order
        (find iface (λ e. sprint ("LCI: Unable to find key " ∷ iface ∷ "\n" ∷ [])) false
          ∷ request (link_set_down iface) (λ e. sprint ("LCI: Failed to down link: " ∷ e ∷ []))
          ∷ delete_vlans iface bp.spec.logical_bridges
          ∷ request (link_del iface) (λ e. sprint ("Failed to delete link: " ∷ e ∷ []))
          ∷ [])
        (finish "" true)
