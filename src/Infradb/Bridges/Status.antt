-- ===== src/Infradb/Bridges/Status.antt =====
-- UpdateLBStatus.
use text.Mathlib.TextEquality.{eq_iff}
use opi_evpn_bridge.Prelude.{
  ℕ, String, ◌≡◌, refl, Bool, true, false, ◌&&◌, not, [], ◌∷◌, ◌++◌, Option, none, some, arith,
  ◌==◌, string_eq, nat_eq, if◌then◌else◌, nat_beq_iff,
}
use opi_evpn_bridge.Prelude.Dict.{delete}
use opi_evpn_bridge.Component.{Component}
use opi_evpn_bridge.Infradb.Errors.{ok}
use opi_evpn_bridge.Infradb.Components.{up, is_to_be_deleted, all_success}
use opi_evpn_bridge.Infradb.LogicalBridge.{
  LogicalBridge, LogicalBridgeMetadata, parse_meta, set_component_state,
}
use opi_evpn_bridge.Infradb.Store.{Codec, Gokv, bridge}
use opi_evpn_bridge.Infradb.Program.{Prog, World, Content, exec, run, done, Outcome, ◌>>◌}
use opi_evpn_bridge.Infradb.Program.Refine.{view, run_by_exec}
use opi_evpn_bridge.Infradb.Bridges.{update_lb_status, settle_lb}
use opi_evpn_bridge.Infradb.Ops.{or_new, report}
use opi_evpn_bridge.Infradb.View.{
  vni_used, listed, holds, read_as, has_vni-delete, has_entry-delete,
}

-- The bridge with the component's report and the metadata in it.
abbrev pub updated : Option LogicalBridgeMetadata → Component → LogicalBridge → LogicalBridge
updated meta component lb = parse_meta meta (set_component_state component lb)

-- The report is the last success that the deletion of the bridge waits for.
abbrev pub ends : LogicalBridge → Bool
ends lb = all_success lb.status.components && is_to_be_deleted lb.status.lb_oper_status

-- The bridge is `up` once all its components have succeeded.
abbrev pub settled : LogicalBridge → LogicalBridge
settled lb = record lb {
  status = record lb.status {
    lb_oper_status = if all_success lb.status.components then up else lb.status.lb_oper_status;
  };
}

-- What a report that is neither stale nor a replay request does, where it makes the bridge `lb`: to
-- a key of the store that is not one of its maps, to the VNIs in use, to the list of bridges and to
-- the statuses sent.
pub record IsReported (c : Codec) (component : Component) (notification_id : String)
    (lb : LogicalBridge) (w w' : World Content) (k s : String) (n : ℕ) : Type 0 where
  pub stored :
      w'.db k
      ≡ (if lb.name == k then if ends lb then none else some (bridge (settled lb)) else w.db k)
  pub vnis :
      vni_used c w'.db n
      ≡ (vni_used c w.db n && not (ends lb && holds lb.spec.vni n && not (n == 0)))
  pub names : listed c w'.db "lbs" s ≡ (listed c w.db "lbs" s && not (ends lb && lb.name == s))
  pub statuses :
      w'.trace.statuses
      ≡ w.trace.statuses
        ++ record {
          name = lb.name;
          object_type = "logical-bridge";
          resource_version = lb.resource_version;
          notification_id = notification_id;
          drop_task = false;
          component = component;
        }
          ∷ []

abbrev finish : Codec → Component → String → LogicalBridge → Prog (Unit {0})
finish c component notification_id lb =
    settle_lb c lb
    >> report lb.name "logical-bridge" lb.resource_version notification_id false component

updated_version :
    (meta : Option LogicalBridgeMetadata) (component : Component) (lb : LogicalBridge)
    → ((updated meta component lb).resource_version ≡ lb.resource_version)
      × ((updated meta component lb).name ≡ lb.name)
unfolding parse_meta set_component_state
updated_version none component lb = (refl, refl)
updated_version (some m) component lb = (refl, refl)

module _ (c : Codec) (component : Component) (notification_id : String) (lb : LogicalBridge)
    (k s : String) (n : ℕ) (w : World Content) (nv : (lb.name == "vpns") ≡ false)
    (nl : (lb.name == "lbs") ≡ false) (kv : (k == "vpns") ≡ false) (kl : (k == "lbs") ≡ false) where
  exec-finish :
      (vni : Option ℕ)
      → lb.spec.vni ≡ vni
      → (exec (finish c component notification_id lb) w).0 ≡ ok tt
      → IsReported c component notification_id lb w
          (exec (finish c component notification_id lb) w).1
          k
          s
          n
  unfolding exec settle_lb
  exec-finish none e h =
      let m = or_new (read_as c.as_names (w.db "lbs")) in
      ground (
        arith,
        eq_iff lb.name k,
        eq_iff "lbs" lb.name,
        eq_iff "lbs" k,
        has_entry-delete lb.name s m,
        c.as_names-names (delete lb.name m),
      )
  exec-finish (some v) e h =
      let m = or_new (read_as c.as_names (w.db "lbs")) in
      let m' = or_new (read_as c.as_numbers (w.db "vpns")) in
      ground (
        arith,
        eq_iff lb.name k,
        eq_iff "lbs" lb.name,
        eq_iff "lbs" k,
        eq_iff "vpns" lb.name,
        eq_iff "vpns" k,
        has_entry-delete lb.name s m,
        c.as_names-names (delete lb.name m),
        has_vni-delete v n m',
        nat_beq_iff v n,
        c.as_numbers-numbers (delete v m'),
      )

module _ (c : Codec) (name version notification_id : String) (meta : Option LogicalBridgeMetadata)
    (component : Component) (lb : LogicalBridge) (w : World Content)
    (found : w.db name ≡ some (bridge lb)) where
  exec-update_lb_status :
      lb.resource_version ≡ version
      → component.replay ≡ false
      → exec (update_lb_status c name version notification_id meta component) w
        ≡ exec (finish c component notification_id (updated meta component lb)) w
  unfolding exec update_lb_status
  exec-update_lb_status current no_replay = ground (
    arith,
    c.as_bridge-bridge lb,
    eq_iff lb.resource_version version,
    updated_version meta component lb,
  )

module _ (kv : Gokv) (c : Codec) (name version notification_id : String)
    (meta : Option LogicalBridgeMetadata) (component : Component) (lb : LogicalBridge)
    (w : World kv.Db) (found : kv.content w.db name ≡ some (bridge lb)) where
  abbrev outcome : Outcome (Unit {0}) × World kv.Db
  outcome = run kv (update_lb_status c name version notification_id meta component) w

  -- On any store, a report for the stored version of a bridge, which is no replay request and
  -- returns no error, puts the component's state into the bridge. The bridge is `up` if now all its
  -- components have succeeded; unless it was to be deleted: then it is gone, its name is off the
  -- list, and its VNI is free if it is not 0. Every other bridge, name and VNI is as before, and
  -- the task manager gets the status. Neither name is that of a map of the store.
  pub update_lb_status-IsReported :
      (k s : String) (n : ℕ)
      → (lb.name == "vpns") ≡ false
      → (lb.name == "lbs") ≡ false
      → (k == "vpns") ≡ false
      → (k == "lbs") ≡ false
      → lb.resource_version ≡ version
      → component.replay ≡ false
      → outcome.0 ≡ done (ok tt)
      → IsReported c component notification_id
          (updated meta component lb)
          (view kv w)
          (view kv outcome.1)
          k
          s
          n
  update_lb_status-IsReported k s n nv nl kv' kl current no_replay h =
      let lb' = updated meta component lb in
      let e =
        exec-update_lb_status c name version notification_id meta component lb (view kv w) found
          current no_replay in
      let same = (updated_version meta component lb).1 in
      run_by_exec kv
        (λ r w'. r ≡ ok tt → IsReported c component notification_id lb' (view kv w) w' k s n)
        (update_lb_status c name version notification_id meta component) w (ok tt) h
        (rw e (
          exec-finish c component notification_id lb' k s n (view kv w) (rw same nv) (rw same nl)
            kv' kl lb'.spec.vni refl))
        refl

  -- A report for another version of a bridge than the stored one changes nothing in the store, and
  -- has the task manager drop the task. So does a request for a replay; for the stored version it
  -- also starts one. The bridge is there and can be read.
  pub update_lb_status-dropped :
      (lb.resource_version == version && not component.replay) ≡ false
      → kv.get_error w.db name ≡ none
      → (outcome.0 ≡ done (ok tt))
        × (outcome.1.db ≡ w.db)
        × (outcome.1.trace.tasks ≡ w.trace.tasks)
        × (outcome.1.trace.statuses
            ≡ w.trace.statuses
              ++ record {
                name = lb.name;
                object_type = "logical-bridge";
                resource_version = lb.resource_version;
                notification_id = notification_id;
                drop_task = true;
                component = component;
              }
                ∷ [])
        × (outcome.1.trace.replays ≡ (
            if lb.resource_version == version
            then w.trace.replays ++ component.name ∷ []
            else w.trace.replays))
  unfolding run update_lb_status
  update_lb_status-dropped stale readable =
      ground (arith, c.as_bridge-bridge lb, eq_iff lb.resource_version version)
