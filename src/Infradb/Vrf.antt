-- ===== src/Infradb/Vrf.antt =====
-- pkg/infradb/vrf.go: the VRF object.
use opi_evpn_bridge.Prelude.{
  ℕ, String, Bool, false, List, [], ◌∷◌, Option, none, some, string_eq, if◌then◌else◌,
}
use opi_evpn_bridge.Prelude.Dict.{Dict, lookup, insert, delete}
use opi_evpn_bridge.Component.{Component}
use opi_evpn_bridge.EventBus.{Subscriber}
use opi_evpn_bridge.Infradb.Errors.{Result, ok, err, already_associated, not_associated}
use opi_evpn_bridge.Infradb.Components.{
  OperStatus, unspecified, down, is_up, set_component, all_success, replay_components,
}
use opi_evpn_bridge.Infradb.LogicalBridge.{IpNet}

pub record VrfStatus : Type 0 where
  pub vrf_oper_status : OperStatus
  pub components : List Component

pub record VrfSpec : Type 0 where
  pub vni : Option ℕ
  pub loopback_ip : Option IpNet
  pub vtep_ip : Option IpNet

pub record VrfMetadata : Type 0 where
  pub routing_table : List (Option ℕ)

pub record Vrf : Type 0 where
  pub name : String
  pub spec : VrfSpec
  pub status : VrfStatus
  pub meta : VrfMetadata
  pub svis : Dict String Bool
  pub resource_version : String

-- `Vrf{}`, as far as the program reads it.
abbrev pub zero_vrf : Vrf
zero_vrf = record {
  name = "";
  spec = record { vni = none; loopback_ip = none; vtep_ip = none };
  status = record { vrf_oper_status = unspecified; components = [] };
  meta = record { routing_table = [] };
  svis = [];
  resource_version = "";
}

unfoldable pub add_svi : String → Vrf → Result Vrf
add_svi svi_name vrf = elim (lookup svi_name vrf.svis) [
  | some _ ↦ err (already_associated vrf.name svi_name)
  | none ↦ ok (record vrf { svis = insert svi_name false vrf.svis })
]

unfoldable pub delete_svi : String → Vrf → Result Vrf
delete_svi svi_name vrf = elim (lookup svi_name vrf.svis) [
  | none ↦ err (not_associated vrf.name svi_name)
  | some _ ↦ ok (record vrf { svis = delete svi_name vrf.svis })
]

unfoldable pub set_component_state : Component → Vrf → Vrf
set_component_state c vrf = record vrf {
  status = record vrf.status { components = set_component c vrf.status.components };
}

unfoldable pub check_for_all_success : Vrf → Bool
check_for_all_success vrf = all_success vrf.status.components

with_routing_table : List (Option ℕ) → Vrf → Vrf
with_routing_table [] vrf = vrf
with_routing_table (t ∷ ts) vrf = record vrf { meta = record vrf.meta { routing_table = t ∷ ts } }

-- Metadata with no routing table changes nothing.
unfoldable pub parse_meta : Option VrfMetadata → Vrf → Vrf
unfolding with_routing_table
parse_meta none vrf = vrf
parse_meta (some vrf_meta) vrf = with_routing_table vrf_meta.routing_table vrf

-- `version` is what `generateVersion()` returns; `none` is the panic on `vrfSubs[i]`.
unfoldable pub prepare_objects_for_replay :
    String → String → List Subscriber → Vrf → Option (Vrf × List Subscriber)
prepare_objects_for_replay version component_name vrf_subs vrf =
    elim (replay_components component_name vrf.status.components vrf_subs) [
      | none ↦ none
      | some (components, temp_subs) ↦ some (
        record vrf {
          status = record {
            vrf_oper_status =
                if is_up vrf.status.vrf_oper_status then down else vrf.status.vrf_oper_status;
            components = components;
          };
          resource_version = version;
        },
        temp_subs,
      )
    ]
