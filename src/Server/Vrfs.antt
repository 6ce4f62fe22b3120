-- ===== src/Server/Vrfs.antt =====
-- pkg/vrf/grpc.go, common.go and validate.go: the server of VRFs, without its List handler, with
-- NewVrf and ToPb of pkg/infradb/vrf.go. It is like the one of logical bridges.
pub mod Update
use opi_evpn_bridge.Prelude.{
  ℕ, String, Bool, true, List, [], ◌∷◌, Option, none, some, ◌==◌, string_eq, if◌then◌else◌, map,
}
use opi_evpn_bridge.EventBus.{EventBus, Subscriber, get_subscribers}
use opi_evpn_bridge.Infradb.Errors.{Error, Result, ok, err, key_not_found}
use opi_evpn_bridge.Infradb.Components.{down, is_to_be_deleted}
use opi_evpn_bridge.Infradb.LogicalBridge.{IpNet}
use opi_evpn_bridge.Infradb.Vrf.{Vrf, zero_vrf}
use opi_evpn_bridge.Infradb.Store.{Codec, Gokv}
use opi_evpn_bridge.Infradb.Program.{World, Outcome, done, store_error, run}
use opi_evpn_bridge.Infradb.Vrfs.{create_vrf, delete_vrf, update_vrf}
use opi_evpn_bridge.Infradb.Reads.{get_vrf}
use opi_evpn_bridge.Server.Messages.{
  IpPrefix, PbStatus, mask_len, vtep_of, components_for, to_prefix, to_pb_component,
}
use opi_evpn_bridge.Server.Bridges.{
  Response, answer, invalid_argument, not_found, in_deletion, failed, store_failed, panicked,
  is_vni_in_range,
}

pub record PbVrfSpec : Type 0 where
  pub vni : Option ℕ
  pub loopback_ip_prefix : Option IpPrefix
  pub vtep_ip_prefix : Option IpPrefix

pub record PbVrf : Type 0 where
  pub name : String
  pub spec : PbVrfSpec
  pub status : PbStatus

-- As `Aip` of the server of logical bridges.
pub record VrfAip : Type 1 where
  pub Mask : Type 0
  pub is_required_set : PbVrf → Bool
  pub is_user_settable : String → Bool
  pub is_valid_name : String → Bool
  pub is_valid_mask : Mask → PbVrf → Bool
  pub full_name : String → String
  pub apply_mask : Mask → PbVrf → PbVrf → PbVrf
  pub deep_equal : PbVrf → PbVrf → Bool

abbrev domain_vrf : IpNet → String → List Subscriber → IpPrefix → PbVrf → Vrf
domain_vrf default_vtep version subscribers loopback pb = record zero_vrf {
  name = pb.name;
  spec = record {
    vni = pb.spec.vni;
    loopback_ip = some (record { ip = loopback.addr; len = mask_len loopback.len });
    vtep_ip = some (vtep_of default_vtep pb.spec.vtep_ip_prefix);
  };
  status = record { vrf_oper_status = down; components = components_for subscribers };
  resource_version = version;
}

abbrev when_subscribed : List Subscriber → Vrf → Result Vrf
when_subscribed [] v = err (Error.no_subscribers "vrf")
when_subscribed (s ∷ subs) v = ok v

-- NewVrf. The prefix of the loopback address is read without a test; `none` is the panic.
unfoldable pub new_vrf : EventBus → IpNet → String → PbVrf → Option (Result Vrf)
unfolding components_for mask_len
new_vrf bus default_vtep version pb = elim pb.spec.loopback_ip_prefix [
  | none ↦ none
  | some loopback ↦
      let subscribers = get_subscribers bus "vrf" in
      some (when_subscribed subscribers (domain_vrf default_vtep version subscribers loopback pb))
]

-- ToPb
unfoldable pub to_pb : Vrf → PbVrf
to_pb v = record {
  name = v.name;
  spec = record {
    vni = v.spec.vni;
    loopback_ip_prefix = to_prefix v.spec.loopback_ip;
    vtep_ip_prefix = to_prefix v.spec.vtep_ip;
  };
  status = record {
    oper_status = v.status.vrf_oper_status;
    components = map to_pb_component v.status.components;
  };
}

module _ (kv : Gokv) (c : Codec) (bus : EventBus) (aip : VrfAip) (default_vtep : IpNet) where
  abbrev after_run : {A : Type 0} → A → Outcome (Unit {0}) × World kv.Db → Response A × World kv.Db
  after_run a (done (ok _), w) = (answer a, w)
  after_run a (done (err e), w) = (failed e, w)
  after_run a (store_error m, w) = (store_failed m, w)

  abbrev create_domain : World kv.Db → Option (Result Vrf) → Response PbVrf × World kv.Db
  create_domain w none = (panicked, w)
  create_domain w (some (err e)) = (failed e, w)
  create_domain w (some (ok v)) = after_run (to_pb v) (run kv (create_vrf c bus v) w)

  -- createVrf
  unfoldable pub create_valid : String → PbVrf → World kv.Db → Response PbVrf × World kv.Db
  unfolding new_vrf to_pb
  create_valid version pb w =
      if is_vni_in_range pb.spec.vni
      then create_domain w (new_vrf bus default_vtep version pb)
      else (invalid_argument, w)

  abbrev update_domain : World kv.Db → Option (Result Vrf) → Response PbVrf × World kv.Db
  update_domain w none = (panicked, w)
  update_domain w (some (err e)) = (failed e, w)
  update_domain w (some (ok v)) = after_run (to_pb v) (run kv (update_vrf c bus v) w)

  -- updateVrf
  unfoldable pub update_valid : String → PbVrf → World kv.Db → Response PbVrf × World kv.Db
  unfolding new_vrf to_pb
  update_valid version pb w =
      if is_vni_in_range pb.spec.vni
      then update_domain w (new_vrf bus default_vtep version pb)
      else (invalid_argument, w)

  -- The request's identifier, or the one that is generated.
  abbrev resource_id : String → String → String
  resource_id given generated = if given == "" then generated else given

  abbrev is_id_valid : String → Bool
  is_id_valid given = if given == "" then true else aip.is_user_settable given

  abbrev create_unless_found :
      String → PbVrf → World kv.Db → Result Vrf → Response PbVrf × World kv.Db
  create_unless_found version pb w (ok v) = (answer (to_pb v), w)
  create_unless_found version pb w (err key_not_found) = create_valid version pb w
  create_unless_found version pb w (err e) = (failed e, w)

  unfoldable pub create_vrf_request :
      String → String → String → PbVrf → World kv.Db → Response PbVrf × World kv.Db
  unfolding create_valid get_vrf
  create_vrf_request version generated id pb w =
      if aip.is_required_set pb
      then if is_id_valid id
        then (let named = record pb { name = aip.full_name (resource_id id generated) } in
            create_unless_found version named w (get_vrf kv c w.db named.name))
        else (invalid_argument, w)
      else (invalid_argument, w)

  abbrev delete_if_found :
      String → String → Bool → World kv.Db → Result Vrf → Response (Unit {0}) × World kv.Db
  delete_if_found version name allow_missing w (ok v) =
      after_run tt (run kv (delete_vrf c bus version name) w)
  delete_if_found version name allow_missing w (err key_not_found) =
      if allow_missing then (answer tt, w) else (not_found name, w)
  delete_if_found version name allow_missing w (err e) = (failed e, w)

  unfoldable pub delete_vrf_request :
      String → String → Bool → World kv.Db → Response (Unit {0}) × World kv.Db
  unfolding get_vrf
  delete_vrf_request version name allow_missing w =
      if aip.is_valid_name name
      then delete_if_found version name allow_missing w (get_vrf kv c w.db name)
      else (invalid_argument, w)

  update_found : String → aip.Mask → PbVrf → World kv.Db → Vrf → Response PbVrf × World kv.Db
  unfolding update_valid to_pb
  update_found version mask pb w v =
      let old = to_pb v in
      let new = aip.apply_mask mask old pb in
      if is_to_be_deleted old.status.oper_status
      then (in_deletion pb.name, w)
      else if aip.deep_equal old new
      then (answer old, w)
      else update_valid version new w

  abbrev update_or_create :
      String → aip.Mask → PbVrf → Bool → World kv.Db → Result Vrf → Response PbVrf × World kv.Db
  update_or_create version mask pb allow_missing w (ok v) = update_found version mask pb w v
  update_or_create version mask pb allow_missing w (err key_not_found) =
      if allow_missing then create_valid version pb w else (not_found pb.name, w)
  update_or_create version mask pb allow_missing w (err e) = (failed e, w)

  unfoldable pub update_vrf_request :
      String → aip.Mask → PbVrf → Bool → World kv.Db → Response PbVrf × World kv.Db
  unfolding update_found get_vrf create_valid
  update_vrf_request version mask pb allow_missing w =
      if aip.is_required_set pb
      then if aip.is_valid_mask mask pb
        then if aip.is_valid_name pb.name
          then update_or_create version mask pb allow_missing w (get_vrf kv c w.db pb.name)
          else (invalid_argument, w)
        else (invalid_argument, w)
      else (invalid_argument, w)

  abbrev get_response : String → Result Vrf → Response PbVrf
  get_response name (ok v) = answer (to_pb v)
  get_response name (err key_not_found) = not_found name
  get_response name (err e) = failed e

  unfoldable pub get_vrf_request : String → kv.Db → Response PbVrf
  unfolding get_vrf
  get_vrf_request name db =
      if aip.is_valid_name name then get_response name (get_vrf kv c db name) else invalid_argument
