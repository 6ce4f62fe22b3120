-- ===== src/Infradb/Svis.antt =====
-- The SVIs of pkg/infradb/infradb.go: an SVI joins a VRF and a logical bridge, and each of the two
-- holds a reference to it. `bus` is the event bus, `c` the store's encoding, and a `version` what
-- `generateVersion()` returns.
pub mod Link
pub mod Outcomes
pub mod Status
pub mod Dangling
use opi_evpn_bridge.Prelude.{
  String, Bool, true, false, not, List, [], ◌∷◌, Option, none, some, ◌==◌, string_eq, if◌then◌else◌,
}
use opi_evpn_bridge.Prelude.Dict
use opi_evpn_bridge.Component.{Component}
use opi_evpn_bridge.EventBus.{EventBus, get_subscribers}
use opi_evpn_bridge.Infradb.Errors.{key_not_found, vrf_not_found, logical_bridge_not_found}
use opi_evpn_bridge.Infradb.Components.{up, to_be_deleted, is_to_be_deleted, set_pending}
use opi_evpn_bridge.Infradb.LogicalBridge
use opi_evpn_bridge.Infradb.LogicalBridge.{LogicalBridge, zero_bridge}
use opi_evpn_bridge.Infradb.Vrf
use opi_evpn_bridge.Infradb.Vrf.{Vrf, zero_vrf}
use opi_evpn_bridge.Infradb.Svi.{
  Svi, SviMetadata, set_component_state, check_for_all_success, parse_meta,
}
use opi_evpn_bridge.Infradb.Store.{Codec, Value, bridge}
use opi_evpn_bridge.Infradb.Program.{
  Prog, pure, fail, delete, create_task, start_replay, from_result, ◌>>=◌, ◌>>◌,
}
use opi_evpn_bridge.Infradb.Ops.{
  need_subscribers, or_panic, put, report, get_bridge, get_vrf, get_svi, get_names, add_name,
  remove_name,
}

abbrev object_type : String
object_type = "svi"

abbrev marked_for_deletion : Svi → List Component → String → Svi
marked_for_deletion svi components version = record svi {
  status = record { svi_oper_status = to_be_deleted; components = components };
  resource_version = version;
}

abbrev brought_up : Svi → Svi
brought_up svi = record svi { status = record svi.status { svi_oper_status = up } }

abbrev or_zero_vrf : Option Vrf → Vrf
or_zero_vrf none = zero_vrf
or_zero_vrf (some vrf) = vrf

abbrev or_zero_bridge : Option LogicalBridge → LogicalBridge
or_zero_bridge none = zero_bridge
or_zero_bridge (some lb) = lb

module _ (c : Codec) where
  -- The references are stored one after the other: the VRF's first, then the bridge's.
  link_svi : Svi → Vrf → LogicalBridge → Prog (Unit {0})
  unfolding Vrf.add_svi LogicalBridge.add_svi
  link_svi svi vrf lb = do
    vrf' ← from_result (Vrf.add_svi svi.name vrf)
    put vrf'.name (Value.vrf vrf')
    lb' ← from_result (LogicalBridge.add_svi svi.name lb)
    put lb'.name (bridge lb')

  unfoldable pub create_svi : EventBus → Svi → Prog (Unit {0})
  unfolding link_svi add_name
  create_svi bus svi = do
    let subscribers = get_subscribers bus object_type
    need_subscribers object_type subscribers
    found_vrf ← get_vrf c svi.spec.vrf
    elim found_vrf [
      | none ↦ fail vrf_not_found
      | some vrf ↦ (do
        found_lb ← get_bridge c svi.spec.logical_bridge
        elim found_lb [
          | none ↦ fail logical_bridge_not_found
          | some lb ↦ (do
            link_svi svi vrf lb
            put svi.name (Value.svi svi)
            add_name c "svis" svi.name
            create_task
                (record {
                  name = svi.name;
                  object_type = object_type;
                  resource_version = svi.resource_version;
                  subs = subscribers;
                })
                (pure tt))
        ])
    ]

  delete_found_svi : EventBus → String → Svi → Prog (Unit {0})
  delete_found_svi bus version svi = do
    let subscribers = get_subscribers bus object_type
    components ← or_panic (set_pending subscribers svi.status.components)
    put svi.name (Value.svi (marked_for_deletion svi components version))
    create_task
        (record {
          name = svi.name;
          object_type = object_type;
          resource_version = version;
          subs = subscribers;
        })
        (pure tt)

  unfoldable pub delete_svi : EventBus → String → String → Prog (Unit {0})
  unfolding delete_found_svi
  delete_svi bus version name = do
    need_subscribers object_type (get_subscribers bus object_type)
    found ← get_svi c name
    elim found [ none ↦ fail key_not_found | some svi ↦ delete_found_svi bus version svi ]

  unfoldable pub update_svi : EventBus → Svi → Prog (Unit {0})
  update_svi bus svi = do
    let subscribers = get_subscribers bus object_type
    need_subscribers object_type subscribers
    put svi.name (Value.svi svi)
    create_task
        (record {
          name = svi.name;
          object_type = object_type;
          resource_version = svi.resource_version;
          subs = subscribers;
        })
        (pure tt)

  collect : List String → Prog (List Svi)
  collect [] = pure []
  collect (k ∷ ks) =
      let rest = collect ks in
      do
        found ← get_svi c k
        elim found [ none ↦ fail key_not_found | some svi ↦ (do svis ← rest; pure (svi ∷ svis)) ]

  -- GetAllSvis
  unfoldable pub get_all_svis : Prog (List Svi)
  unfolding collect
  get_all_svis = do
    found ← get_names c "svis"
    elim found [ none ↦ fail key_not_found | some m ↦ collect (Dict.keys m) ]

  -- The end of a deletion. An object that is not found is read as the zero value.
  unlink_svi : Svi → Prog (Unit {0})
  unfolding Vrf.delete_svi LogicalBridge.delete_svi remove_name
  unlink_svi svi = do
    found_vrf ← get_vrf c svi.spec.vrf
    found_lb ← get_bridge c svi.spec.logical_bridge
    vrf ← from_result (Vrf.delete_svi svi.name (or_zero_vrf found_vrf))
    put vrf.name (Value.vrf vrf)
    lb ← from_result (LogicalBridge.delete_svi svi.name (or_zero_bridge found_lb))
    put lb.name (bridge lb)
    delete svi.name (pure tt)
    remove_name c "svis" svi.name

  settle_svi : Svi → Prog (Unit {0})
  unfolding unlink_svi check_for_all_success
  settle_svi svi =
      if check_for_all_success svi
      then if is_to_be_deleted svi.status.svi_oper_status
        then unlink_svi svi
        else put svi.name (Value.svi (brought_up svi))
      else put svi.name (Value.svi svi)

  update_found_svi : String → String → Option SviMetadata → Component → Svi → Prog (Unit {0})
  unfolding settle_svi set_component_state parse_meta
  update_found_svi resource_version notification_id svi_meta component svi =
      if not (svi.resource_version == resource_version)
      then report svi.name object_type svi.resource_version notification_id true component
      else if component.replay
      then (do
        report svi.name object_type svi.resource_version notification_id true component
        start_replay component.name (pure tt))
      else do
        settle_svi (parse_meta svi_meta (set_component_state component svi))
        report svi.name object_type svi.resource_version notification_id false component

  unfoldable pub update_svi_status :
      String → String → String → Option SviMetadata → Component → Prog (Unit {0})
  unfolding update_found_svi
  update_svi_status name resource_version notification_id svi_meta component = do
    found ← get_svi c name
    elim found [
      | none ↦ report name object_type "" notification_id true component
      | some svi ↦ update_found_svi resource_version notification_id svi_meta component svi
    ]
