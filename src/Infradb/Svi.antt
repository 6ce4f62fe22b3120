-- ===== src/Infradb/Svi.antt =====
-- pkg/infradb/svi.go: the SVI object.
use opi_evpn_bridge.Prelude.{ℕ, String, Bool, List, Option, none, some, if◌then◌else◌}
use opi_evpn_bridge.Component.{Component}
use opi_evpn_bridge.EventBus.{Subscriber}
use opi_evpn_bridge.Infradb.Components.{
  OperStatus, down, is_up, set_component, all_success, replay_components,
}
use opi_evpn_bridge.Infradb.LogicalBridge.{IpNet}

pub record SviStatus : Type 0 where
  pub svi_oper_status : OperStatus
  pub components : List Component

-- A MAC address is kept as the text that its `String` method prints.
pub record SviSpec : Type 0 where
  pub vrf : String
  pub logical_bridge : String
  pub mac_address : String
  pub gateway_ips : List IpNet
  pub enable_bgp : Bool
  pub remote_as : Option ℕ

pub data SviMetadata : Type 0 where
  metadata : SviMetadata

pub record Svi : Type 0 where
  pub name : String
  pub spec : SviSpec
  pub status : SviStatus
  pub meta : SviMetadata
  pub resource_version : String

unfoldable pub set_component_state : Component → Svi → Svi
set_component_state c svi = record svi {
  status = record svi.status { components = set_component c svi.status.components };
}

unfoldable pub check_for_all_success : Svi → Bool
check_for_all_success svi = all_success svi.status.components

unfoldable pub parse_meta : Option SviMetadata → Svi → Svi
parse_meta none svi = svi
parse_meta (some svi_meta) svi = record svi { meta = svi_meta }

-- `version` is what `generateVersion()` returns; `none` is the panic on `sviSubs[i]`.
unfoldable pub prepare_objects_for_replay :
    String → String → List Subscriber → Svi → Option (Svi × List Subscriber)
prepare_objects_for_replay version component_name svi_subs svi =
    elim (replay_components component_name svi.status.components svi_subs) [
      | none ↦ none
      | some (components, temp_subs) ↦ some (
        record svi {
          status = record {
            svi_oper_status =
                if is_up svi.status.svi_oper_status then down else svi.status.svi_oper_status;
            components = components;
          };
          resource_version = version;
        },
        temp_subs,
      )
    ]
