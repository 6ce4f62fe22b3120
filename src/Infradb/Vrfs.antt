-- ===== src/Infradb/Vrfs.antt =====
-- The VRFs of pkg/infradb/infradb.go. `bus` is the event bus, `c` the store's encoding, and a
-- `version` what `generateVersion()` returns.
pub mod Create
pub mod Status
pub mod Delete
pub mod Outcomes
use opi_evpn_bridge.Prelude.{
  String, Bool, true, false, not, List, [], ◌∷◌, Option, none, some, ◌==◌, string_eq, if◌then◌else◌,
}
use opi_evpn_bridge.Prelude.Dict
use opi_evpn_bridge.Prelude.Dict.{Dict}
use opi_evpn_bridge.Component.{Component}
use opi_evpn_bridge.EventBus.{EventBus, get_subscribers}
use opi_evpn_bridge.Infradb.Errors.{key_not_found, vrf_not_empty}
use opi_evpn_bridge.Infradb.Components.{up, to_be_deleted, is_to_be_deleted, set_pending}
use opi_evpn_bridge.Infradb.Vrf.{
  Vrf, VrfMetadata, set_component_state, check_for_all_success, parse_meta,
}
use opi_evpn_bridge.Infradb.Store.{Codec, Value}
use opi_evpn_bridge.Infradb.Program.{
  Prog, pure, fail, delete, create_task, start_replay, ◌>>=◌, ◌>>◌,
}
use opi_evpn_bridge.Infradb.Ops.{
  is_empty, need_subscribers, or_panic, put, report, get_vrf, get_names, check_vni, store_vni,
  release_vni, add_name, remove_name,
}

abbrev object_type : String
object_type = "vrf"

abbrev marked_for_deletion : Vrf → List Component → String → Vrf
marked_for_deletion vrf components version = record vrf {
  status = record { vrf_oper_status = to_be_deleted; components = components };
  resource_version = version;
}

abbrev brought_up : Vrf → Vrf
brought_up vrf = record vrf { status = record vrf.status { vrf_oper_status = up } }

module _ (c : Codec) where
  unfoldable pub create_vrf : EventBus → Vrf → Prog (Unit {0})
  unfolding check_vni store_vni add_name
  create_vrf bus vrf = do
    let subscribers = get_subscribers bus object_type
    need_subscribers object_type subscribers
    vpns ← check_vni c vrf.spec.vni
    put vrf.name (Value.vrf vrf)
    store_vni c vrf.spec.vni vpns
    add_name c "vrfs" vrf.name
    create_task
        (record {
          name = vrf.name;
          object_type = object_type;
          resource_version = vrf.resource_version;
          subs = subscribers;
        })
        (pure tt)

  delete_found_vrf : EventBus → String → Vrf → Prog (Unit {0})
  unfolding is_empty
  delete_found_vrf bus version vrf = if not (is_empty vrf.svis) then fail vrf_not_empty else do
    let subscribers = get_subscribers bus object_type
    components ← or_panic (set_pending subscribers vrf.status.components)
    put vrf.name (Value.vrf (marked_for_deletion vrf components version))
    create_task
        (record {
          name = vrf.name;
          object_type = object_type;
          resource_version = version;
          subs = subscribers;
        })
        (pure tt)

  unfoldable pub delete_vrf : EventBus → String → String → Prog (Unit {0})
  unfolding delete_found_vrf
  delete_vrf bus version name = do
    need_subscribers object_type (get_subscribers bus object_type)
    found ← get_vrf c name
    elim found [ none ↦ fail key_not_found | some vrf ↦ delete_found_vrf bus version vrf ]

  unfoldable pub update_vrf : EventBus → Vrf → Prog (Unit {0})
  update_vrf bus vrf = do
    let subscribers = get_subscribers bus object_type
    need_subscribers object_type subscribers
    put vrf.name (Value.vrf vrf)
    create_task
        (record {
          name = vrf.name;
          object_type = object_type;
          resource_version = vrf.resource_version;
          subs = subscribers;
        })
        (pure tt)

  collect : List String → Prog (List Vrf)
  collect [] = pure []
  collect (k ∷ ks) =
      let rest = collect ks in
      do
        found ← get_vrf c k
        elim found [ none ↦ fail key_not_found | some vrf ↦ (do vrfs ← rest; pure (vrf ∷ vrfs)) ]

  -- GetAllVrfs
  unfoldable pub get_all_vrfs : Prog (List Vrf)
  unfolding collect
  get_all_vrfs = do
    found ← get_names c "vrfs"
    elim found [ none ↦ fail key_not_found | some m ↦ collect (Dict.keys m) ]

  -- What the last component's success does to a VRF: the end of a deletion, or `up`.
  settle_vrf : Vrf → Prog (Unit {0})
  unfolding release_vni remove_name check_for_all_success
  settle_vrf vrf =
      if check_for_all_success vrf
      then if is_to_be_deleted vrf.status.vrf_oper_status
        then (do
          delete vrf.name (pure tt)
          release_vni c vrf.spec.vni
          remove_name c "vrfs" vrf.name)
        else put vrf.name (Value.vrf (brought_up vrf))
      else put vrf.name (Value.vrf vrf)

  update_found_vrf : String → String → Option VrfMetadata → Component → Vrf → Prog (Unit {0})
  unfolding settle_vrf set_component_state parse_meta
  update_found_vrf resource_version notification_id vrf_meta component vrf =
      if not (vrf.resource_version == resource_version)
      then report vrf.name object_type vrf.resource_version notification_id true component
      else if component.replay
      then (do
        report vrf.name object_type vrf.resource_version notification_id true component
        start_replay component.name (pure tt))
      else do
        settle_vrf (parse_meta vrf_meta (set_component_state component vrf))
        report vrf.name object_type vrf.resource_version notification_id false component

  unfoldable pub update_vrf_status :
      String → String → String → Option VrfMetadata → Component → Prog (Unit {0})
  unfolding update_found_vrf
  update_vrf_status name resource_version notification_id vrf_meta component = do
    found ← get_vrf c name
    elim found [
      | none ↦ report name object_type "" notification_id true component
      | some vrf ↦ update_found_vrf resource_version notification_id vrf_meta component vrf
    ]
