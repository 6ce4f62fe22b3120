-- ===== src/Server/Messages.antt =====
-- The messages of a logical bridge, with NewLogicalBridge and ToPb of pkg/infradb/bridge.go.
use opi_evpn_bridge.Prelude.{
  ℕ, String, List, [], ◌∷◌, Option, none, some, ltb, string_eq, nat_eq, if◌then◌else◌, map,
}
use opi_evpn_bridge.Prelude.Int.{ℤ, pos, negsuc}
use opi_evpn_bridge.Component.{Component, CompStatus, pending_component}
use opi_evpn_bridge.EventBus.{EventBus, Subscriber, get_subscribers}
use opi_evpn_bridge.Infradb.Errors.{Error, Result, ok, err}
use opi_evpn_bridge.Infradb.Components.{OperStatus, down}
use opi_evpn_bridge.Infradb.LogicalBridge.{IpNet, LogicalBridge, zero_bridge}

-- The messages of the API. An `IPPrefix` has a `uint32` address and an `int32` length.
pub record IpPrefix : Type 0 where
  pub addr : ℕ
  pub len : ℤ

pub record PbSpec : Type 0 where
  pub vlan_id : ℕ
  pub vni : Option ℕ
  pub vtep_ip_prefix : Option IpPrefix

pub record PbComponent : Type 0 where
  pub name : String
  pub status : CompStatus
  pub details : String

pub record PbStatus : Type 0 where
  pub oper_status : OperStatus
  pub components : List PbComponent

pub record PbBridge : Type 0 where
  pub name : String
  pub spec : PbSpec
  pub status : PbStatus

-- The length of `net.CIDRMask(len, 32)`; out of range the mask is nil, and its size 0.
unfoldable pub mask_len : ℤ → ℕ
mask_len (negsuc n) = 0
mask_len (pos n) = if ltb 32 n then 0 else n

abbrev pub vtep_of : IpNet → Option IpPrefix → IpNet
vtep_of default_vtep none = default_vtep
vtep_of default_vtep (some p) = record { ip = p.addr; len = mask_len p.len }

unfoldable pub components_for : List Subscriber → List Component
components_for [] = []
components_for (s ∷ subs) = pending_component s.name ∷ components_for subs

unfoldable pub domain_bridge : IpNet → String → List Subscriber → PbBridge → LogicalBridge
unfolding components_for
domain_bridge default_vtep version subscribers pb = record zero_bridge {
  name = pb.name;
  spec = record {
    vlan_id = pb.spec.vlan_id;
    vni = pb.spec.vni;
    vtep_ip = some (vtep_of default_vtep pb.spec.vtep_ip_prefix);
  };
  status = record { lb_oper_status = down; components = components_for subscribers };
  resource_version = version;
}

abbrev when_subscribed : List Subscriber → LogicalBridge → Result LogicalBridge
when_subscribed [] lb = err (Error.no_subscribers "logical-bridge")
when_subscribed (s ∷ subs) lb = ok lb

-- NewLogicalBridge; `default_vtep` is the address of the configured VTEP device.
unfoldable pub new_logical_bridge : EventBus → IpNet → String → PbBridge → Result LogicalBridge
unfolding domain_bridge
new_logical_bridge bus default_vtep version pb =
    let subscribers = get_subscribers bus "logical-bridge" in
    when_subscribed subscribers (domain_bridge default_vtep version subscribers pb)

abbrev pub to_prefix : Option IpNet → Option IpPrefix
to_prefix none = none
to_prefix (some n) = some (record { addr = n.ip; len = pos n.len })

abbrev to_pb_status : CompStatus → CompStatus
to_pb_status CompStatus.unset = CompStatus.unspecified
to_pb_status status = status

abbrev pub to_pb_component : Component → PbComponent
to_pb_component c = record {
  name = c.name;
  status = to_pb_status c.comp_status;
  details = c.details;
}

-- ToPb
unfoldable pub to_pb : LogicalBridge → PbBridge
to_pb lb = record {
  name = lb.name;
  spec = record {
    vlan_id = lb.spec.vlan_id;
    vni = lb.spec.vni;
    vtep_ip_prefix = to_prefix lb.spec.vtep_ip;
  };
  status = record {
    oper_status = lb.status.lb_oper_status;
    components = map to_pb_component lb.status.components;
  };
}
