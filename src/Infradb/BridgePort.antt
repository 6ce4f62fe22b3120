-- ===== src/Infradb/BridgePort.antt =====
-- pkg/infradb/port.go: the bridge port object.
use opi_evpn_bridge.Prelude.{
  ℕ, String, Bool, List, Option, none, some, ◌==◌, string_eq, if◌then◌else◌,
}
use opi_evpn_bridge.Component.{Component}
use opi_evpn_bridge.EventBus.{Subscriber}
use opi_evpn_bridge.Infradb.Components.{
  OperStatus, down, is_up, set_component, all_success, replay_components,
}

pub data BridgePortType : Type 0 where
  unspecified access trunk : BridgePortType

pub record BridgePortStatus : Type 0 where
  pub bp_oper_status : OperStatus
  pub components : List Component

-- A MAC address is kept as the text that its `String` method prints.
pub record BridgePortSpec : Type 0 where
  pub name : String
  pub ptype : BridgePortType
  pub mac_address : String
  pub logical_bridges : List String

pub record BridgePortMetadata : Type 0 where
  pub vport : String

pub record BridgePort : Type 0 where
  pub name : String
  pub spec : BridgePortSpec
  pub status : BridgePortStatus
  pub meta : BridgePortMetadata
  pub transparent_trunk : Bool
  pub vlans : List ℕ
  pub resource_version : String

unfoldable pub set_component_state : Component → BridgePort → BridgePort
set_component_state c bp = record bp {
  status = record bp.status { components = set_component c bp.status.components };
}

unfoldable pub check_for_all_success : BridgePort → Bool
check_for_all_success bp = all_success bp.status.components

-- Metadata with an empty port name changes nothing.
unfoldable pub parse_meta : Option BridgePortMetadata → BridgePort → BridgePort
parse_meta none bp = bp
parse_meta (some bp_meta) bp =
    if bp_meta.vport == ""
    then bp
    else record bp { meta = record bp.meta { vport = bp_meta.vport } }

-- `version` is what `generateVersion()` returns; `none` is the panic on `bpSubs[i]`.
unfoldable pub prepare_objects_for_replay :
    String → String → List Subscriber → BridgePort → Option (BridgePort × List Subscriber)
prepare_objects_for_replay version component_name bp_subs bp =
    elim (replay_components component_name bp.status.components bp_subs) [
      | none ↦ none
      | some (components, temp_subs) ↦ some (
        record bp {
          status = record {
            bp_oper_status =
                if is_up bp.status.bp_oper_status then down else bp.status.bp_oper_status;
            components = components;
          };
          resource_version = version;
        },
        temp_subs,
      )
    ]
