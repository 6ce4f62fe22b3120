-- ===== src/Infradb/LogicalBridge/Links.antt =====
-- The references of a logical bridge, taken back.
use text.Mathlib.TextEquality.{eq_iff}
use opi_evpn_bridge.Prelude.{String, ◌≡◌, arith, false, string_eq}
use opi_evpn_bridge.Prelude.Dict.{lookup-insert, delete-insert}
use opi_evpn_bridge.Infradb.Errors.{ok}
use opi_evpn_bridge.Infradb.LogicalBridge.{LogicalBridge, add_bridge_port, delete_bridge_port}

-- A reference to a bridge port that AddBridgePort could add to a bridge is taken away by
-- DeleteBridgePort, for the same name and MAC address, which gives the bridge as it was.
pub delete_bridge_port-add_bridge_port :
    (bp_name bp_mac : String) (lb lb' : LogicalBridge)
    → add_bridge_port bp_name bp_mac lb ≡ ok lb'
    → delete_bridge_port bp_name bp_mac lb' ≡ ok lb
unfolding add_bridge_port delete_bridge_port
delete_bridge_port-add_bridge_port bp_name bp_mac lb lb' h = ground (
  arith,
  eq_iff bp_name bp_name,
  eq_iff bp_mac bp_mac,
  lookup-insert bp_name bp_name false lb.bridge_ports,
  lookup-insert bp_mac bp_mac bp_name lb.mac_table,
  delete-insert bp_name false lb.bridge_ports,
  delete-insert bp_mac bp_name lb.mac_table,
)
