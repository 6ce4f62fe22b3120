-- ===== src/Infradb/LogicalBridge.antt =====
-- pkg/infradb/bridge.go: the logical bridge object.
pub mod Links
use opi_evpn_bridge.Prelude.{
  ℕ, String, Bool, false, List, [], Option, none, some, ◌==◌, string_eq, if◌then◌else◌,
}
use opi_evpn_bridge.Prelude.Dict.{Dict, lookup, insert, delete}
use opi_evpn_bridge.Component.{Component}
use opi_evpn_bridge.EventBus.{Subscriber}
use opi_evpn_bridge.Infradb.Errors.{Result, ok, err, already_associated, not_associated}
use opi_evpn_bridge.Infradb.Components.{
  OperStatus, unspecified, down, is_up, set_component, all_success, replay_components,
}

-- An IPv4 network: the address and the length of its prefix.
pub record IpNet : Type 0 where
  pub ip : ℕ
  pub len : ℕ

pub record LogicalBridgeStatus : Type 0 where
  pub lb_oper_status : OperStatus
  pub components : List Component

pub record LogicalBridgeSpec : Type 0 where
  pub vlan_id : ℕ
  pub vni : Option ℕ
  pub vtep_ip : Option IpNet

pub data LogicalBridgeMetadata : Type 0 where
  metadata : LogicalBridgeMetadata

pub record LogicalBridge : Type 0 where
  pub name : String
  pub spec : LogicalBridgeSpec
  pub status : LogicalBridgeStatus
  pub meta : LogicalBridgeMetadata
  pub svi : String
  pub bridge_ports : Dict String Bool
  pub mac_table : Dict String String
  pub resource_version : String

-- `LogicalBridge{}`, as far as the program reads it.
abbrev pub zero_bridge : LogicalBridge
zero_bridge = record {
  name = "";
  spec = record { vlan_id = 0; vni = none; vtep_ip = none };
  status = record { lb_oper_status = unspecified; components = [] };
  meta = metadata;
  svi = "";
  bridge_ports = [];
  mac_table = [];
  resource_version = "";
}

unfoldable pub add_svi : String → LogicalBridge → Result LogicalBridge
add_svi svi_name lb =
    if lb.svi == ""
    then ok (record lb { svi = svi_name })
    else err (already_associated lb.name lb.svi)

unfoldable pub delete_svi : String → LogicalBridge → Result LogicalBridge
delete_svi svi_name lb =
    if lb.svi == svi_name
    then ok (record lb { svi = "" })
    else err (not_associated lb.name svi_name)

unfoldable pub add_bridge_port : String → String → LogicalBridge → Result LogicalBridge
add_bridge_port bp_name bp_mac lb = elim (lookup bp_name lb.bridge_ports) [
  | some _ ↦ err (already_associated lb.name bp_name)
  | none ↦ elim (lookup bp_mac lb.mac_table) [
    | some _ ↦ err (already_associated lb.name bp_mac)
    | none ↦ ok (record lb {
      bridge_ports = insert bp_name false lb.bridge_ports;
      mac_table = insert bp_mac bp_name lb.mac_table;
    })
  ]
]

unfoldable pub delete_bridge_port : String → String → LogicalBridge → Result LogicalBridge
delete_bridge_port bp_name bp_mac lb = elim (lookup bp_name lb.bridge_ports) [
  | none ↦ err (not_associated lb.name bp_name)
  | some _ ↦ elim (lookup bp_mac lb.mac_table) [
    | none ↦ err (not_associated lb.name bp_mac)
    | some _ ↦ ok (record lb {
      bridge_ports = delete bp_name lb.bridge_ports;
      mac_table = delete bp_mac lb.mac_table;
    })
  ]
]

unfoldable pub set_component_state : Component → LogicalBridge → LogicalBridge
set_component_state c lb = record lb {
  status = record lb.status { components = set_component c lb.status.components };
}

unfoldable pub check_for_all_success : LogicalBridge → Bool
check_for_all_success lb = all_success lb.status.components

unfoldable pub parse_meta : Option LogicalBridgeMetadata → LogicalBridge → LogicalBridge
parse_meta none lb = lb
parse_meta (some lb_meta) lb = record lb { meta = lb_meta }

-- `version` is what `generateVersion()` returns; `none` is the panic on `lbSubs[i]`.
unfoldable pub prepare_objects_for_replay :
    String → String → List Subscriber → LogicalBridge → Option (LogicalBridge × List Subscriber)
prepare_objects_for_replay version component_name lb_subs lb =
    elim (replay_components component_name lb.status.components lb_subs) [
      | none ↦ none
      | some (components, temp_subs) ↦ some (
        record lb {
          status = record {
            lb_oper_status =
                if is_up lb.status.lb_oper_status then down else lb.status.lb_oper_status;
            components = components;
          };
          resource_version = version;
        },
        temp_subs,
      )
    ]
