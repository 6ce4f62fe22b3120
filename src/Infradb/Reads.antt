-- ===== src/Infradb/Reads.antt =====
-- GetLB, GetBP, GetVrf and GetSvi of pkg/infradb/infradb.go. They test `found` before the error; a
-- `Get` that fails has not found the key.
pub mod Bridges
use opi_evpn_bridge.Prelude.{String, Option, none, some}
use opi_evpn_bridge.Infradb.Errors.{Result, ok, err, key_not_found, unmarshal}
use opi_evpn_bridge.Infradb.LogicalBridge.{LogicalBridge}
use opi_evpn_bridge.Infradb.Vrf.{Vrf}
use opi_evpn_bridge.Infradb.Svi.{Svi}
use opi_evpn_bridge.Infradb.BridgePort.{BridgePort}
use opi_evpn_bridge.Infradb.Store.{Value, Codec, Gokv}

decode : {A : Type 0} → (Value → Option A) → Option Value → Result A
decode as_type none = err key_not_found
decode as_type (some v) = elim (as_type v) [ none ↦ err unmarshal | some a ↦ ok a ]

module _ (kv : Gokv) (c : Codec) (db : kv.Db) where
  get_object : {A : Type 0} → (Value → Option A) → String → Result A
  unfolding decode
  get_object as_type name = elim (kv.get_error db name) [
    | some _ ↦ err key_not_found
    | none ↦ decode as_type (kv.content db name)
  ]

  unfoldable pub get_lb : String → Result LogicalBridge
  unfolding get_object
  get_lb name = get_object c.as_bridge name

  unfoldable pub get_bp : String → Result BridgePort
  unfolding get_object
  get_bp name = get_object c.as_port name

  unfoldable pub get_vrf : String → Result Vrf
  unfolding get_object
  get_vrf name = get_object c.as_vrf name

  unfoldable pub get_svi : String → Result Svi
  unfolding get_object
  get_svi name = get_object c.as_svi name
