-- ===== src/Infradb/Store.antt =====
-- The store behind pkg/infradb: gokv, which this repository only calls, as a parameter. `Codec` is
-- what its JSON encoding does between a value that was stored and the type that it is read at.
use opi_evpn_bridge.Prelude.{
  ℕ, String, ◌≡◌, Bool, Option, none, some, ◌==◌, string_eq, if◌then◌else◌,
}
use opi_evpn_bridge.Prelude.Dict.{Dict}
use opi_evpn_bridge.Infradb.LogicalBridge.{LogicalBridge}
use opi_evpn_bridge.Infradb.Vrf.{Vrf}
use opi_evpn_bridge.Infradb.Svi.{Svi}
use opi_evpn_bridge.Infradb.BridgePort.{BridgePort}

-- The types of the values that infradb.go stores: the objects, the maps of names (`lbs`, `bps`,
-- `vrfs`, `svis`) and the maps of numbers (`vpns`, `rts`).
pub data Value : Type 0 where
  bridge : LogicalBridge → Value
  vrf : Vrf → Value
  svi : Svi → Value
  port : BridgePort → Value
  names : Dict String Bool → Value
  numbers : Dict ℕ Bool → Value

-- Decoding at a type; `none` is an unmarshalling error. A value comes back from its own type as it
-- was; what it gives at another type is left open.
pub record Codec : Type 0 where
  pub as_bridge : Value → Option LogicalBridge
  pub as_vrf : Value → Option Vrf
  pub as_svi : Value → Option Svi
  pub as_port : Value → Option BridgePort
  pub as_names : Value → Option (Dict String Bool)
  pub as_numbers : Value → Option (Dict ℕ Bool)
  pub as_bridge-bridge : (b : LogicalBridge) → as_bridge (bridge b) ≡ some b
  pub as_vrf-vrf : (v : Vrf) → as_vrf (vrf v) ≡ some v
  pub as_svi-svi : (s : Svi) → as_svi (svi s) ≡ some s
  pub as_port-port : (p : BridgePort) → as_port (port p) ≡ some p
  pub as_names-names : (m : Dict String Bool) → as_names (names m) ≡ some m
  pub as_numbers-numbers : (m : Dict ℕ Bool) → as_numbers (numbers m) ≡ some m

-- A key-value store. Each call may fail, by a message; a call that does not fail does what gokv
-- documents. What a failed `Set` or `Delete` leaves behind is not known.
pub record Gokv : Type 1 where
  pub Db : Type 0
  pub content : Db → String → Option Value
  pub get_error : Db → String → Option String
  pub set : Db → String → Value → Db
  pub set_error : Db → String → Value → Option String
  pub delete : Db → String → Db
  pub delete_error : Db → String → Option String
  pub content-set :
      (d : Db) (k : String) (v : Value) (j : String)
      → set_error d k v ≡ none
      → content (set d k v) j ≡ (if k == j then some v else content d j)
  pub content-delete :
      (d : Db) (k j : String)
      → delete_error d k ≡ none
      → content (delete d k) j ≡ (if k == j then none else content d j)
