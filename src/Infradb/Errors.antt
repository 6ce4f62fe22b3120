-- ===== src/Infradb/Errors.antt =====
-- The errors of pkg/infradb: the `Err…` values of infradb.go, the messages of the objects' methods,
-- a value that does not unmarshal, and a run-time panic on an index.
use opi_evpn_bridge.Prelude.{String}

pub data Error : Type 0 where
  key_not_found : Error
  component_not_found : Error
  vrf_not_found : Error
  logical_bridge_not_found : Error
  vrf_not_empty : Error
  logical_bridge_not_empty : Error
  routing_table_in_use : Error
  vni_in_use : Error
  no_subscribers : String → Error
  already_associated : String → String → Error
  not_associated : String → String → Error
  unmarshal : Error
  index_out_of_range : Error

pub data Result {ℓ} (A : Type ℓ) : Type ℓ where
  ok : A → Result A
  err : Error → Result A
