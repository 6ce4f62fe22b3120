-- ===== src/Infradb/Examples/Objects.antt =====
-- A store in memory that never fails, its encoding, and a bus with two components.
use opi_evpn_bridge.Prelude.Int.{pos}
use opi_evpn_bridge.Prelude.{String, ℕ, refl, Bool, false, List, [], ◌∷◌, Option, none, some}
use opi_evpn_bridge.Prelude.Dict.{Dict}
use opi_evpn_bridge.Component.{Component, CompStatus, success, pending_component}
use opi_evpn_bridge.EventBus.{EventBus, Subscriber}
use opi_evpn_bridge.Infradb.Components.{OperStatus, down}
use opi_evpn_bridge.Infradb.LogicalBridge.{LogicalBridge, zero_bridge}
use opi_evpn_bridge.Infradb.Vrf.{Vrf, zero_vrf}
use opi_evpn_bridge.Infradb.Svi.{Svi, metadata}
use opi_evpn_bridge.Infradb.BridgePort.{BridgePort, BridgePortType}
use opi_evpn_bridge.Infradb.Store.{Value, bridge, vrf, svi, port, names, numbers, Codec, Gokv}
use opi_evpn_bridge.Infradb.Program.Reliable.{IsReliable}
use opi_evpn_bridge.Infradb.Program.{Content, World, update, remove}

-- Each type decodes its own values and no others.
abbrev to_bridge : Value → Option LogicalBridge
to_bridge (bridge b) = some b
to_bridge _ = none

abbrev to_vrf : Value → Option Vrf
to_vrf (vrf v) = some v
to_vrf _ = none

abbrev to_svi : Value → Option Svi
to_svi (svi s) = some s
to_svi _ = none

abbrev to_port : Value → Option BridgePort
to_port (port p) = some p
to_port _ = none

abbrev to_names : Value → Option (Dict String Bool)
to_names (names m) = some m
to_names _ = none

abbrev to_numbers : Value → Option (Dict ℕ Bool)
to_numbers (numbers m) = some m
to_numbers _ = none

abbrev pub codec : Codec
codec = record {
  as_bridge = to_bridge;
  as_vrf = to_vrf;
  as_svi = to_svi;
  as_port = to_port;
  as_names = to_names;
  as_numbers = to_numbers;
  as_bridge-bridge = λ b. refl;
  as_vrf-vrf = λ v. refl;
  as_svi-svi = λ s. refl;
  as_port-port = λ p. refl;
  as_names-names = λ m. refl;
  as_numbers-numbers = λ m. refl;
}

abbrev pub memory : Gokv
memory = record {
  Db = Content;
  content = λ d. d;
  get_error = λ d k. none;
  set = update;
  set_error = λ d k v. none;
  delete = remove;
  delete_error = λ d k. none;
  content-set = λ d k v j e. refl;
  content-delete = λ d k j e. refl;
}

abbrev pub memory-IsReliable : IsReliable memory
memory-IsReliable = record { reads = λ d k. refl; writes = λ d k v. refl; deletes = λ d k. refl }

abbrev pub subs : List Subscriber
subs =
    record { id = 0; name = "frr"; priority = pos 1 }
    ∷ record { id = 1; name = "lgm"; priority = pos 2 }
    ∷ []

abbrev pub bus : EventBus
bus = record {
  subscribers =
      ("logical-bridge", subs) ∷ ("vrf", subs) ∷ ("svi", subs) ∷ ("bridge-port", subs) ∷ [];
  event_handlers = [];
  next_id = 2;
}

abbrev pub comp : String → CompStatus → Component
comp name status = record (pending_component name) { comp_status = status }

abbrev pub bridge_of : String → Option ℕ → OperStatus → List Component → LogicalBridge
bridge_of name vni oper components = record zero_bridge {
  name = name;
  spec = record { vlan_id = 10; vni = vni; vtep_ip = none };
  status = record { lb_oper_status = oper; components = components };
  resource_version = "1";
}

abbrev pub vrf_of : String → Option ℕ → OperStatus → List Component → Vrf
vrf_of name vni oper components = record zero_vrf {
  name = name;
  spec = record { vni = vni; loopback_ip = none; vtep_ip = none };
  status = record { vrf_oper_status = oper; components = components };
  resource_version = "1";
}

abbrev pub svi_of : String → OperStatus → List Component → Svi
svi_of name oper components = record {
  name = name;
  spec = record {
    vrf = "red";
    logical_bridge = "b1";
    mac_address = "aa:aa:aa:00:00:01";
    gateway_ips = [];
    enable_bgp = false;
    remote_as = none;
  };
  status = record { svi_oper_status = oper; components = components };
  meta = metadata;
  resource_version = "1";
}

abbrev pub port_of : String → List String → BridgePort
port_of name bridges = record {
  name = name;
  spec = record {
    name = "";
    ptype = BridgePortType.trunk;
    mac_address = "aa:aa:aa:00:00:02";
    logical_bridges = bridges;
  };
  status = record { bp_oper_status = down; components = [] };
  meta = record { vport = "" };
  transparent_trunk = false;
  vlans = [];
  resource_version = "1";
}

-- One component has succeeded, and the other's success is awaited.
abbrev pub awaited : List Component
awaited = comp "frr" success ∷ comp "lgm" CompStatus.pending ∷ []

abbrev pub last_success : Component
last_success = comp "lgm" success

abbrev pub empty : Content
empty k = none

abbrev pub world : Content → World Content
world f = record { db = f; trace = record { tasks = []; statuses = []; replays = [] } }
