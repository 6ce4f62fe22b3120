-- ===== src/Infradb/Vrfs/Status.antt =====
-- UpdateVrfStatus.
use text.Mathlib.TextEquality.{eq_iff}
use opi_evpn_bridge.Prelude.{
  ℕ, String, ◌≡◌, refl, Bool, true, false, ◌&&◌, not, [], ◌∷◌, ◌++◌, Option, none, some, arith,
  ◌==◌, string_eq, nat_eq, if◌then◌else◌, nat_beq_iff,
}
use opi_evpn_bridge.Prelude.Dict.{delete}
use opi_evpn_bridge.Component.{Component}
use opi_evpn_bridge.Infradb.Errors.{ok}
use opi_evpn_bridge.Infradb.Components.{up, is_to_be_deleted, all_success}
use opi_evpn_bridge.Infradb.Vrf.{Vrf, VrfMetadata, parse_meta, set_component_state}
use opi_evpn_bridge.Infradb.Store.{Codec, Gokv, Value}
use opi_evpn_bridge.Infradb.Program.{Prog, World, Content, exec, run, done, Outcome, ◌>>◌}
use opi_evpn_bridge.Infradb.Program.Refine.{view, run_by_exec}
use opi_evpn_bridge.Infradb.Vrfs.{update_vrf_status, settle_vrf}
use opi_evpn_bridge.Infradb.Ops.{or_new, report}
use opi_evpn_bridge.Infradb.View.{
  vni_used, listed, holds, read_as, has_vni-delete, has_entry-delete,
}

-- The VRF with the component's report and the metadata in it.
abbrev pub updated : Option VrfMetadata → Component → Vrf → Vrf
updated meta component vrf = parse_meta meta (set_component_state component vrf)

-- The report is the last success that the deletion of the VRF waits for.
abbrev pub ends : Vrf → Bool
ends vrf = all_success vrf.status.components && is_to_be_deleted vrf.status.vrf_oper_status

-- The VRF is `up` once all its components have succeeded.
abbrev pub settled : Vrf → Vrf
settled vrf = record vrf {
  status = record vrf.status {
    vrf_oper_status = if all_success vrf.status.components then up else vrf.status.vrf_oper_status;
  };
}

-- What a report that is neither stale nor a replay request does, where it makes the VRF `vrf`: to
-- a key of the store that is not one of its maps, to the VNIs in use, to the list of VRFs and to
-- the statuses sent.
pub record IsReported (c : Codec) (component : Component) (notification_id : String) (vrf : Vrf)
    (w w' : World Content) (k s : String) (n : ℕ) : Type 0 where
  pub stored : w'.db k ≡ (
      if vrf.name == k then if ends vrf then none else some (Value.vrf (settled vrf)) else w.db k)
  pub vnis :
      vni_used c w'.db n
      ≡ (vni_used c w.db n && not (ends vrf && holds vrf.spec.vni n && not (n == 0)))
  pub names : listed c w'.db "vrfs" s ≡ (listed c w.db "vrfs" s && not (ends vrf && vrf.name == s))
  pub statuses :
      w'.trace.statuses
      ≡ w.trace.statuses
        ++ record {
          name = vrf.name;
          object_type = "vrf";
          resource_version = vrf.resource_version;
          notification_id = notification_id;
          drop_task = false;
          component = component;
        }
          ∷ []

abbrev finish : Codec → Component → String → Vrf → Prog (Unit {0})
finish c component notification_id vrf =
    settle_vrf c vrf >> report vrf.name "vrf" vrf.resource_version notification_id false component

updated_version :
    (meta : Option VrfMetadata) (component : Component) (vrf : Vrf)
    → ((updated meta component vrf).resource_version ≡ vrf.resource_version)
      × ((updated meta component vrf).name ≡ vrf.name)
unfolding parse_meta set_component_state
updated_version none component vrf = (refl, refl)
updated_version (some m) component vrf = ground arith

module _ (c : Codec) (component : Component) (notification_id : String) (vrf : Vrf) (k s : String)
    (n : ℕ) (w : World Content) (nv : (vrf.name == "vpns") ≡ false)
    (nl : (vrf.name == "vrfs") ≡ false) (kv : (k == "vpns") ≡ false)
    (kl : (k == "vrfs") ≡ false) where
  exec-finish :
      (vni : Option ℕ)
      → vrf.spec.vni ≡ vni
      → (exec (finish c component notification_id vrf) w).0 ≡ ok tt
      → IsReported c component notification_id vrf w
          (exec (finish c component notification_id vrf) w).1
          k
          s
          n
  unfolding exec settle_vrf
  exec-finish none e h =
      let m = or_new (read_as c.as_names (w.db "vrfs")) in
      ground (
        arith,
        eq_iff vrf.name k,
        eq_iff "vrfs" vrf.name,
        eq_iff "vrfs" k,
        has_entry-delete vrf.name s m,
        c.as_names-names (delete vrf.name m),
      )
  exec-finish (some v) e h =
      let m = or_new (read_as c.as_names (w.db "vrfs")) in
      let m' = or_new (read_as c.as_numbers (w.db "vpns")) in
      ground (
        arith,
        eq_iff vrf.name k,
        eq_iff "vrfs" vrf.name,
        eq_iff "vrfs" k,
        eq_iff "vpns" vrf.name,
        eq_iff "vpns" k,
        has_entry-delete vrf.name s m,
        c.as_names-names (delete vrf.name m),
        has_vni-delete v n m',
        nat_beq_iff v n,
        c.as_numbers-numbers (delete v m'),
      )

module _ (c : Codec) (name version notification_id : String) (meta : Option VrfMetadata)
    (component : Component) (vrf : Vrf) (w : World Content)
    (found : w.db name ≡ some (Value.vrf vrf)) where
  exec-update_vrf_status :
      vrf.resource_version ≡ version
      → component.replay ≡ false
      → exec (update_vrf_status c name version notification_id meta component) w
        ≡ exec (finish c component notification_id (updated meta component vrf)) w
  unfolding exec update_vrf_status
  exec-update_vrf_status current no_replay = ground (
    arith,
    c.as_vrf-vrf vrf,
    eq_iff vrf.resource_version version,
    updated_version meta component vrf,
  )

module _ (kv : Gokv) (c : Codec) (name version notification_id : String) (meta : Option VrfMetadata)
    (component : Component) (vrf : Vrf) (w : World kv.Db)
    (found : kv.content w.db name ≡ some (Value.vrf vrf)) where
  abbrev outcome : Outcome (Unit {0}) × World kv.Db
  outcome = run kv (update_vrf_status c name version notification_id meta component) w

  -- On any store, a report for the stored version of a VRF, which is no replay request and
  -- returns no error, puts the component's state into the VRF. The VRF is `up` if now all its
  -- components have succeeded; unless it was to be deleted: then it is gone, its name is off the
  -- list, and its VNI is free if it is not 0. Every other VRF, name and VNI is as before, and
  -- the task manager gets the status. Neither name is that of a map of the store.
  pub update_vrf_status-IsReported :
      (k s : String) (n : ℕ)
      → (vrf.name == "vpns") ≡ false
      → (vrf.name == "vrfs") ≡ false
      → (k == "vpns") ≡ false
      → (k == "vrfs") ≡ false
      → vrf.resource_version ≡ version
      → component.replay ≡ false
      → outcome.0 ≡ done (ok tt)
      → IsReported c component notification_id
          (updated meta component vrf)
          (view kv w)
          (view kv outcome.1)
          k
          s
          n
  update_vrf_status-IsReported k s n nv nl kv' kl current no_replay h =
      let vrf' = updated meta component vrf in
      let e =
        exec-update_vrf_status c name version notification_id meta component vrf (view kv w) found
          current no_replay in
      let same = (updated_version meta component vrf).1 in
      run_by_exec kv
        (λ r w'. r ≡ ok tt → IsReported c component notification_id vrf' (view kv w) w' k s n)
        (update_vrf_status c name version notification_id meta component) w (ok tt) h
        (rw e (
          exec-finish c component notification_id vrf' k s n (view kv w) (rw same nv) (rw same nl)
            kv' kl vrf'.spec.vni refl))
        refl

  -- A report for another version of a VRF than the stored one changes nothing in the store, and has
  -- the task manager drop the task. So does a request for a replay; for the stored version it also
  -- starts one. The VRF is there and can be read.
  pub update_vrf_status-dropped :
      (vrf.resource_version == version && not component.replay) ≡ false
      → kv.get_error w.db name ≡ none
      → (outcome.0 ≡ done (ok tt))
        × (outcome.1.db ≡ w.db)
        × (outcome.1.trace.tasks ≡ w.trace.tasks)
        × (outcome.1.trace.statuses
            ≡ w.trace.statuses
              ++ record {
                name = vrf.name;
                object_type = "vrf";
                resource_version = vrf.resource_version;
                notification_id = notification_id;
                drop_task = true;
                component = component;
              }
                ∷ [])
        × (outcome.1.trace.replays ≡ (
            if vrf.resource_version == version
            then w.trace.replays ++ component.name ∷ []
            else w.trace.replays))
  unfolding run update_vrf_status
  update_vrf_status-dropped stale readable =
      ground (arith, c.as_vrf-vrf vrf, eq_iff vrf.resource_version version)
