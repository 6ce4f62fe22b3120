-- ===== src/Server/Bridges.antt =====
-- pkg/bridge/grpc.go, common.go and validate.go: the server of logical bridges, without its List
-- handler. The checks of requests by the AIP libraries and the names that they make are the
-- parameter `Aip`.
pub mod Create
pub mod Update
mod Examples
use opi_evpn_bridge.Prelude.{
  ℕ, String, Bool, true, false, not, ◌||◌, List, [], ◌∷◌, Option, none, some, ltb, ◌==◌, string_eq,
  nat_eq, if◌then◌else◌, map,
}
use opi_evpn_bridge.Prelude.Int.{ℤ, pos, negsuc}
use opi_evpn_bridge.Component.{Component, CompStatus, pending_component}
use opi_evpn_bridge.EventBus.{EventBus, Subscriber, get_subscribers}
use opi_evpn_bridge.Infradb.Errors.{Error, Result, ok, err, key_not_found}
use opi_evpn_bridge.Infradb.Components.{OperStatus, down, to_be_deleted, is_to_be_deleted}
use opi_evpn_bridge.Infradb.LogicalBridge.{IpNet, LogicalBridge, zero_bridge}
use opi_evpn_bridge.Infradb.Store.{Codec, Gokv}
use opi_evpn_bridge.Infradb.Program.{World, Outcome, done, store_error, run}
use opi_evpn_bridge.Infradb.Bridges.{create_lb, delete_lb, update_lb}
use opi_evpn_bridge.Infradb.Reads.{get_lb}
use opi_evpn_bridge.Server.Messages.{PbSpec, PbBridge, new_logical_bridge, to_pb}

-- An invalid request, NotFound, an object to be deleted, an error of pkg/infradb, one of the store,
-- and a panic, which the server of logical bridges has none of.
pub data Response {ℓ} (A : Type ℓ) : Type ℓ where
  answer : A → Response A
  invalid_argument : Response A
  not_found : String → Response A
  in_deletion : String → Response A
  failed : Error → Response A
  store_failed : String → Response A
  panicked : Response A

-- What fieldbehavior, resourceid, resourcename and fieldmask decide and make: a name is valid if it
-- is set and conforms to AIP-122.
pub record Aip : Type 1 where
  pub Mask : Type 0
  pub is_required_set : PbBridge → Bool
  pub is_user_settable : String → Bool
  pub is_valid_name : String → Bool
  pub is_valid_mask : Mask → PbBridge → Bool
  pub full_name : String → String
  pub apply_mask : Mask → PbBridge → PbBridge → PbBridge
  pub deep_equal : PbBridge → PbBridge → Bool

abbrev pub is_vni_in_range : Option ℕ → Bool
is_vni_in_range none = true
is_vni_in_range (some vni) = not (ltb vni 1 || ltb 16777215 vni)

-- validateLogicalBridgeSpec
unfoldable pub is_spec_valid : PbSpec → Bool
is_spec_valid spec =
    if ltb spec.vlan_id 1 || ltb 4095 spec.vlan_id then false else is_vni_in_range spec.vni

module _ (kv : Gokv) (c : Codec) (bus : EventBus) (aip : Aip) (default_vtep : IpNet) where
  abbrev after_run : {A : Type 0} → A → Outcome (Unit {0}) × World kv.Db → Response A × World kv.Db
  after_run a (done (ok _), w) = (answer a, w)
  after_run a (done (err e), w) = (failed e, w)
  after_run a (store_error m, w) = (store_failed m, w)

  abbrev create_domain : World kv.Db → Result LogicalBridge → Response PbBridge × World kv.Db
  create_domain w (err e) = (failed e, w)
  create_domain w (ok lb) = after_run (to_pb lb) (run kv (create_lb c bus lb) w)

  -- createLogicalBridge
  unfoldable pub create_bridge : String → PbBridge → World kv.Db → Response PbBridge × World kv.Db
  unfolding is_spec_valid new_logical_bridge to_pb
  create_bridge version pb w =
      if is_spec_valid pb.spec
      then create_domain w (new_logical_bridge bus default_vtep version pb)
      else (invalid_argument, w)

  abbrev update_domain : World kv.Db → Result LogicalBridge → Response PbBridge × World kv.Db
  update_domain w (err e) = (failed e, w)
  update_domain w (ok lb) = after_run (to_pb lb) (run kv (update_lb c bus lb) w)

  -- updateLogicalBridge
  unfoldable pub update_bridge : String → PbBridge → World kv.Db → Response PbBridge × World kv.Db
  unfolding is_spec_valid new_logical_bridge to_pb
  update_bridge version pb w =
      if is_spec_valid pb.spec
      then update_domain w (new_logical_bridge bus default_vtep version pb)
      else (invalid_argument, w)

  -- The request's identifier, or the one that is generated.
  abbrev resource_id : String → String → String
  resource_id given generated = if given == "" then generated else given

  abbrev is_id_valid : String → Bool
  is_id_valid given = if given == "" then true else aip.is_user_settable given

  abbrev create_unless_found :
      String → PbBridge → World kv.Db → Result LogicalBridge → Response PbBridge × World kv.Db
  create_unless_found version pb w (ok lb) = (answer (to_pb lb), w)
  create_unless_found version pb w (err key_not_found) = create_bridge version pb w
  create_unless_found version pb w (err e) = (failed e, w)

  unfoldable pub create_logical_bridge :
      String → String → String → PbBridge → World kv.Db → Response PbBridge × World kv.Db
  unfolding create_bridge get_lb
  create_logical_bridge version generated id pb w =
      if aip.is_required_set pb
      then if is_id_valid id
        then (let named = record pb { name = aip.full_name (resource_id id generated) } in
            create_unless_found version named w (get_lb kv c w.db named.name))
        else (invalid_argument, w)
      else (invalid_argument, w)

  abbrev delete_if_found :
      String
      → String
      → Bool
      → World kv.Db
      → Result LogicalBridge
      → Response (Unit {0}) × World kv.Db
  delete_if_found version name allow_missing w (ok lb) =
      after_run tt (run kv (delete_lb c bus version name) w)
  delete_if_found version name allow_missing w (err key_not_found) =
      if allow_missing then (answer tt, w) else (not_found name, w)
  delete_if_found version name allow_missing w (err e) = (failed e, w)

  unfoldable pub delete_logical_bridge :
      String → String → Bool → World kv.Db → Response (Unit {0}) × World kv.Db
  unfolding get_lb
  delete_logical_bridge version name allow_missing w =
      if aip.is_valid_name name
      then delete_if_found version name allow_missing w (get_lb kv c w.db name)
      else (invalid_argument, w)

  update_found :
      String → aip.Mask → PbBridge → World kv.Db → LogicalBridge → Response PbBridge × World kv.Db
  unfolding update_bridge to_pb
  update_found version mask pb w lb =
      let old = to_pb lb in
      let new = aip.apply_mask mask old pb in
      if is_to_be_deleted old.status.oper_status
      then (in_deletion pb.name, w)
      else if aip.deep_equal old new
      then (answer old, w)
      else update_bridge version new w

  abbrev update_or_create :
      String
      → aip.Mask
      → PbBridge
      → Bool
      → World kv.Db
      → Result LogicalBridge
      → Response PbBridge × World kv.Db
  update_or_create version mask pb allow_missing w (ok lb) = update_found version mask pb w lb
  update_or_create version mask pb allow_missing w (err key_not_found) =
      if allow_missing then create_bridge version pb w else (not_found pb.name, w)
  update_or_create version mask pb allow_missing w (err e) = (failed e, w)

  unfoldable pub update_logical_bridge :
      String → aip.Mask → PbBridge → Bool → World kv.Db → Response PbBridge × World kv.Db
  unfolding update_found get_lb create_bridge
  update_logical_bridge version mask pb allow_missing w =
      if aip.is_required_set pb
      then if aip.is_valid_mask mask pb
        then if aip.is_valid_name pb.name
          then update_or_create version mask pb allow_missing w (get_lb kv c w.db pb.name)
          else (invalid_argument, w)
        else (invalid_argument, w)
      else (invalid_argument, w)

  abbrev get_response : String → Result LogicalBridge → Response PbBridge
  get_response name (ok lb) = answer (to_pb lb)
  get_response name (err key_not_found) = not_found name
  get_response name (err e) = failed e

  unfoldable pub get_logical_bridge : String → kv.Db → Response PbBridge
  unfolding get_lb
  get_logical_bridge name db =
      if aip.is_valid_name name then get_response name (get_lb kv c db name) else invalid_argument
