-- ===== src/Infradb/Svis/Status.antt =====
-- UpdateSviStatus.
use text.Mathlib.TextEquality.{eq_iff}
use opi_evpn_bridge.Prelude.{
  String, ◌≡◌, refl, Bool, false, ◌&&◌, not, [], ◌∷◌, ◌++◌, Option, none, some, arith, ◌==◌,
  string_eq, if◌then◌else◌,
}
use opi_evpn_bridge.Prelude.Dict.{lookup, delete}
use opi_evpn_bridge.Component.{Component}
use opi_evpn_bridge.Infradb.Errors.{ok}
use opi_evpn_bridge.Infradb.Components.{up, is_to_be_deleted, all_success}
use opi_evpn_bridge.Infradb.LogicalBridge.{LogicalBridge}
use opi_evpn_bridge.Infradb.Vrf.{Vrf}
use opi_evpn_bridge.Infradb.Svi.{Svi, SviMetadata, parse_meta, set_component_state}
use opi_evpn_bridge.Infradb.Store.{Codec, Gokv, Value, bridge}
use opi_evpn_bridge.Infradb.Program.{Prog, World, Content, exec, run, done, Outcome, ◌>>◌}
use opi_evpn_bridge.Infradb.Program.Refine.{view, run_by_exec}
use opi_evpn_bridge.Infradb.Svis.{update_svi_status, settle_svi}
use opi_evpn_bridge.Infradb.Ops.{or_new, report}
use opi_evpn_bridge.Infradb.View.{listed, read_as, has_entry-delete, is_some}

-- The SVI with the component's report and the metadata in it.
abbrev pub updated : Option SviMetadata → Component → Svi → Svi
updated meta component svi = parse_meta meta (set_component_state component svi)

-- The report is the last success that the deletion of the SVI waits for.
abbrev pub ends : Svi → Bool
ends svi = all_success svi.status.components && is_to_be_deleted svi.status.svi_oper_status

-- The SVI is `up` once all its components have succeeded.
abbrev pub settled : Svi → Svi
settled svi = record svi {
  status = record svi.status {
    svi_oper_status = if all_success svi.status.components then up else svi.status.svi_oper_status;
  };
}

-- What a report that is neither stale nor a replay request does, where it makes the SVI `svi`, to a
-- key of the store that is not the list, to the list and to the statuses sent.
pub record IsReported (c : Codec) (component : Component) (notification_id : String) (svi : Svi)
    (vrf : Vrf) (lb : LogicalBridge) (w w' : World Content) (k s : String) : Type 0 where
  pub stored : w'.db k ≡ (
      if ends svi
      then if svi.name == k
        then none
        else if lb.name == k
        then some (bridge (record lb { svi = "" }))
        else if vrf.name == k
        then some (Value.vrf (record vrf { svis = delete svi.name vrf.svis }))
        else w.db k
      else if svi.name == k
      then some (Value.svi (settled svi))
      else w.db k)
  pub names : listed c w'.db "svis" s ≡ (listed c w.db "svis" s && not (ends svi && svi.name == s))
  pub vrf_had_it : (ends svi && not (is_some (lookup svi.name vrf.svis))) ≡ false
  pub lb_had_it : (ends svi && not (lb.svi == svi.name)) ≡ false
  pub statuses :
      w'.trace.statuses
      ≡ w.trace.statuses
        ++ record {
          name = svi.name;
          object_type = "svi";
          resource_version = svi.resource_version;
          notification_id = notification_id;
          drop_task = false;
          component = component;
        }
          ∷ []

abbrev finish : Codec → Component → String → Svi → Prog (Unit {0})
finish c component notification_id svi =
    settle_svi c svi >> report svi.name "svi" svi.resource_version notification_id false component

updated_version :
    (meta : Option SviMetadata) (component : Component) (svi : Svi)
    → ((updated meta component svi).resource_version ≡ svi.resource_version)
      × ((updated meta component svi).name ≡ svi.name)
      × ((updated meta component svi).spec ≡ svi.spec)
unfolding parse_meta set_component_state
updated_version none component svi = (refl, refl, refl)
updated_version (some m) component svi = (refl, refl, refl)

module _ (c : Codec) (component : Component) (notification_id : String) (svi : Svi) (vrf : Vrf)
    (lb : LogicalBridge) (k s : String) (w : World Content)
    (found_vrf : w.db svi.spec.vrf ≡ some (Value.vrf vrf))
    (found_lb : w.db svi.spec.logical_bridge ≡ some (bridge lb)) (ns : (svi.name == "svis") ≡ false)
    (nv : (vrf.name == "svis") ≡ false) (nl : (lb.name == "svis") ≡ false)
    (nk : (k == "svis") ≡ false) where
  exec-finish :
      (exec (finish c component notification_id svi) w).0 ≡ ok tt
      → IsReported c component notification_id svi vrf lb w
          (exec (finish c component notification_id svi) w).1
          k
          s
  unfolding exec settle_svi
  exec-finish h =
      let m = or_new (read_as c.as_names (w.db "svis")) in
      ground (
        arith,
        c.as_vrf-vrf vrf,
        c.as_bridge-bridge lb,
        eq_iff svi.name k,
        eq_iff lb.name k,
        eq_iff vrf.name k,
        eq_iff "svis" k,
        eq_iff svi.name "svis",
        eq_iff lb.name "svis",
        eq_iff vrf.name "svis",
        has_entry-delete svi.name s m,
        c.as_names-names (delete svi.name m),
      )

module _ (c : Codec) (name version notification_id : String) (meta : Option SviMetadata)
    (component : Component) (svi : Svi) (w : World Content)
    (found : w.db name ≡ some (Value.svi svi)) where
  exec-update_svi_status :
      svi.resource_version ≡ version
      → component.replay ≡ false
      → exec (update_svi_status c name version notification_id meta component) w
        ≡ exec (finish c component notification_id (updated meta component svi)) w
  unfolding exec update_svi_status
  exec-update_svi_status current no_replay = ground (
    arith,
    c.as_svi-svi svi,
    eq_iff svi.resource_version version,
    updated_version meta component svi,
  )

module _ (kv : Gokv) (c : Codec) (name version notification_id : String) (meta : Option SviMetadata)
    (component : Component) (svi : Svi) (vrf : Vrf) (lb : LogicalBridge) (w : World kv.Db)
    (found : kv.content w.db name ≡ some (Value.svi svi)) where
  abbrev outcome : Outcome (Unit {0}) × World kv.Db
  outcome = run kv (update_svi_status c name version notification_id meta component) w

  -- On any store that has an SVI's VRF and its logical bridge, a report for the stored version of
  -- the SVI, which is no replay request and returns no error, puts the component's state into the
  -- SVI, which is `up` if now all its components have succeeded; unless it was to be deleted: then
  -- its VRF and its logical bridge, which both referred to it, no longer do, and it is gone and off
  -- the list. Every other key that is not the list is as before, and the task manager gets the
  -- status. None of the names is that of the list.
  pub update_svi_status-IsReported :
      (k s : String)
      → kv.content w.db svi.spec.vrf ≡ some (Value.vrf vrf)
      → kv.content w.db svi.spec.logical_bridge ≡ some (bridge lb)
      → (svi.name == "svis") ≡ false
      → (vrf.name == "svis") ≡ false
      → (lb.name == "svis") ≡ false
      → (k == "svis") ≡ false
      → svi.resource_version ≡ version
      → component.replay ≡ false
      → outcome.0 ≡ done (ok tt)
      → IsReported c component notification_id
          (updated meta component svi)
          vrf
          lb
          (view kv w)
          (view kv outcome.1)
          k
          s
  update_svi_status-IsReported k s fv fl ns nv nl nk current no_replay h =
      let svi' = updated meta component svi in
      let e =
        exec-update_svi_status c name version notification_id meta component svi (view kv w) found
          current no_replay in
      let same = updated_version meta component svi in
      run_by_exec kv
        (λ r w'. r ≡ ok tt → IsReported c component notification_id svi' vrf lb (view kv w) w' k s)
        (update_svi_status c name version notification_id meta component) w (ok tt) h
        (rw e (
          exec-finish c component notification_id svi' vrf lb k s (view kv w) (rw same.2 fv)
            (rw same.2 fl) (rw same.1 ns) nv nl nk))
        refl
