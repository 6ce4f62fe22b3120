-- ===== src/Infradb/Ports/Status.antt =====
-- UpdateBPStatus.
use text.Mathlib.TextEquality.{eq_iff}
use opi_evpn_bridge.Prelude.{
  String, ◌≡◌, refl, Bool, true, false, ◌&&◌, not, [], ◌∷◌, ◌++◌, Option, none, some, arith, ◌==◌,
  string_eq, if◌then◌else◌, Bool-cases, inl, inr,
}
use opi_evpn_bridge.Prelude.Dict.{delete}
use opi_evpn_bridge.Component.{Component}
use opi_evpn_bridge.Infradb.Errors.{Result, ok, err}
use opi_evpn_bridge.Infradb.Components.{up, is_to_be_deleted, all_success}
use opi_evpn_bridge.Infradb.LogicalBridge.{LogicalBridge}
use opi_evpn_bridge.Infradb.BridgePort.{
  BridgePort, BridgePortMetadata, parse_meta, set_component_state,
}
use opi_evpn_bridge.Infradb.Store.{Codec, Gokv, Value, bridge}
use opi_evpn_bridge.Infradb.Program.{
  Prog, pure, World, Content, exec, run, done, Outcome, ◌>>◌, ◌>>=◌,
}
use opi_evpn_bridge.Infradb.Program
use opi_evpn_bridge.Infradb.Program.Refine.{after, exec-bind, view, run_by_exec}
use opi_evpn_bridge.Infradb.Ports.{update_bp_status, settle_bp, detach_port}
use opi_evpn_bridge.Infradb.Ports.Attach.{contains, is_distinct, ArePresent}
use opi_evpn_bridge.Infradb.Ports.Detach.{detached, all_attached, exec-detach_port}
use opi_evpn_bridge.Infradb.Ops.{or_new, report, remove_name}
use opi_evpn_bridge.Infradb.View.{listed, read_as, has_entry-delete}

-- The port with the component's report and the metadata in it.
abbrev pub updated : Option BridgePortMetadata → Component → BridgePort → BridgePort
updated meta component bp = parse_meta meta (set_component_state component bp)

-- The report is the last success that the deletion of the port waits for.
abbrev pub ends : BridgePort → Bool
ends bp = all_success bp.status.components && is_to_be_deleted bp.status.bp_oper_status

-- The port is `up` once all its components have succeeded.
abbrev pub settled : BridgePort → BridgePort
settled bp = record bp {
  status = record bp.status {
    bp_oper_status = if all_success bp.status.components then up else bp.status.bp_oper_status;
  };
}

-- What is stored at a key that is not the list, once a report has made the port `bp`.
abbrev pub stored_at : BridgePort → (String → LogicalBridge) → Content → String → Option Value
stored_at bp bs f k =
    if ends bp
    then if bp.name == k
      then none
      else if contains bp.spec.logical_bridges k
      then some (bridge (detached bp (bs k)))
      else f k
    else if bp.name == k
    then some (Value.port (settled bp))
    else f k

-- What a report that is neither stale nor a replay request does, where it makes the port `bp`.
pub record IsReported (c : Codec) (component : Component) (notification_id : String)
    (bp : BridgePort) (bs : String → LogicalBridge) (w w' : World Content) (k s : String)
    : Type 0 where
  pub stored : w'.db k ≡ stored_at bp bs w.db k
  pub names : listed c w'.db "bps" s ≡ (listed c w.db "bps" s && not (ends bp && bp.name == s))
  pub had_it : (ends bp && not (all_attached bp bs bp.spec.logical_bridges)) ≡ false
  pub statuses :
      w'.trace.statuses
      ≡ w.trace.statuses
        ++ record {
          name = bp.name;
          object_type = "bridge-port";
          resource_version = bp.resource_version;
          notification_id = notification_id;
          drop_task = false;
          component = component;
        }
          ∷ []

abbrev remove_port : Codec → BridgePort → Prog (Unit {0})
remove_port c bp = Program.delete bp.name (pure tt) >> remove_name c "bps" bp.name

abbrev finish : Codec → Component → String → BridgePort → Prog (Unit {0})
finish c component notification_id bp =
    settle_bp c bp
    >> report bp.name "bridge-port" bp.resource_version notification_id false component

updated_version :
    (meta : Option BridgePortMetadata) (component : Component) (bp : BridgePort)
    → ((updated meta component bp).resource_version ≡ bp.resource_version)
      × ((updated meta component bp).name ≡ bp.name)
      × ((updated meta component bp).spec ≡ bp.spec)
unfolding parse_meta set_component_state
updated_version none component bp = (refl, refl, refl)
updated_version (some m) component bp = ground arith

module _ (c : Codec) (bp : BridgePort) (bs : String → LogicalBridge) (k s : String)
    (w : World Content) (d : is_distinct bp.spec.logical_bridges ≡ true)
    (present : ArePresent bs w.db bp.spec.logical_bridges)
    (no_list : contains bp.spec.logical_bridges "bps" ≡ false) (nn : (bp.name == "bps") ≡ false)
    (nk : (k == "bps") ≡ false) where
  -- `settle_bp`, before the status is reported.
  record IsSettled (w' : World Content) : Type 0 where
    stored : w'.db k ≡ stored_at bp bs w.db k
    names : listed c w'.db "bps" s ≡ (listed c w.db "bps" s && not (ends bp && bp.name == s))
    had_it : (ends bp && not (all_attached bp bs bp.spec.logical_bridges)) ≡ false
    trace : w'.trace ≡ w.trace

  exec-remove_port :
      (o : Result (Unit {0}) × World Content)
      → exec (detach_port c bp bp.spec.logical_bridges) w ≡ o
      → ends bp ≡ true
      → (after o (λ _. remove_port c bp)).0 ≡ ok tt
      → IsSettled (after o (λ _. remove_port c bp)).1
  unfolding exec remove_name
  exec-remove_port (err e, w') eq fin h = cc
  exec-remove_port (ok r, w') eq fin h =
      let at = exec-detach_port c bs k bp bp.spec.logical_bridges w d present (rw eq) in
      let at' = rw eq at at in
      let list = exec-detach_port c bs "bps" bp bp.spec.logical_bridges w d present (rw eq) in
      let list' = rw eq at list in
      let m = or_new (read_as c.as_names (w.db "bps")) in
      ground (
        arith,
        at',
        list',
        eq_iff bp.name k,
        eq_iff "bps" k,
        eq_iff bp.name "bps",
        has_entry-delete bp.name s m,
        c.as_names-names (delete bp.name m),
      )

  exec-settle_bp : (exec (settle_bp c bp) w).0 ≡ ok tt → IsSettled (exec (settle_bp c bp) w).1
  unfolding exec settle_bp
  exec-settle_bp h = elim (Bool-cases (ends bp)) [
    | inl fin ↦
        let detach = detach_port c bp bp.spec.logical_bridges in
        let e : exec (settle_bp c bp) w ≡ after (exec detach w) (λ _. remove_port c bp) =
          ground (arith, exec-bind detach (λ _. remove_port c bp) w) in
        rw e (exec-remove_port (exec detach w) refl fin (rw e at h))
    | inr fin ↦ ground (arith, eq_iff bp.name k, eq_iff bp.name "bps", eq_iff "bps" k)
  ]

  exec-finish :
      (component : Component) (notification_id : String)
      → (exec (finish c component notification_id bp) w).0 ≡ ok tt
      → IsReported c component notification_id bp bs w
          (exec (finish c component notification_id bp) w).1
          k
          s
  unfolding exec
  exec-finish component notification_id h =
      let settle = settle_bp c bp in
      let rest : Unit {0} → Prog (Unit {0}) =
        λ _. report bp.name "bridge-port" bp.resource_version notification_id false component in
      ground (arith, exec-bind settle rest w, exec-settle_bp)

module _ (c : Codec) (name version notification_id : String) (meta : Option BridgePortMetadata)
    (component : Component) (bp : BridgePort) (w : World Content)
    (found : w.db name ≡ some (Value.port bp)) where
  exec-update_bp_status :
      bp.resource_version ≡ version
      → component.replay ≡ false
      → exec (update_bp_status c name version notification_id meta component) w
        ≡ exec (finish c component notification_id (updated meta component bp)) w
  unfolding exec update_bp_status
  exec-update_bp_status current no_replay = ground (
    arith,
    c.as_port-port bp,
    eq_iff bp.resource_version version,
    updated_version meta component bp,
  )

module _ (kv : Gokv) (c : Codec) (name version notification_id : String)
    (meta : Option BridgePortMetadata) (component : Component) (bp : BridgePort)
    (bs : String → LogicalBridge) (w : World kv.Db)
    (found : kv.content w.db name ≡ some (Value.port bp)) where
  abbrev outcome : Outcome (Unit {0}) × World kv.Db
  outcome = run kv (update_bp_status c name version notification_id meta component) w

  -- On any store that has a bridge port and its logical bridges, a report for the stored version of
  -- the port, which is no replay request and returns no error, puts the component's state into the
  -- port, which is `up` if now all its components have succeeded; unless it was to be deleted: then
  -- each of its bridges, which all knew the port and its MAC address, has lost both, and the port is
  -- gone and off the list. Every other key that is not the list is as before, and the task manager
  -- gets the status. The bridges are stored at their own names and are different from one another,
  -- and no name is that of the list.
  pub update_bp_status-IsReported :
      (k s : String)
      → is_distinct bp.spec.logical_bridges ≡ true
      → ArePresent bs (kv.content w.db) bp.spec.logical_bridges
      → contains bp.spec.logical_bridges "bps" ≡ false
      → (bp.name == "bps") ≡ false
      → (k == "bps") ≡ false
      → bp.resource_version ≡ version
      → component.replay ≡ false
      → outcome.0 ≡ done (ok tt)
      → IsReported c component notification_id
          (updated meta component bp)
          bs
          (view kv w)
          (view kv outcome.1)
          k
          s
  update_bp_status-IsReported k s d present no_list nn nk current no_replay h =
      let bp' = updated meta component bp in
      let e =
        exec-update_bp_status c name version notification_id meta component bp (view kv w) found
          current no_replay in
      let same = updated_version meta component bp in
      run_by_exec kv
        (λ r w'. r ≡ ok tt → IsReported c component notification_id bp' bs (view kv w) w' k s)
        (update_bp_status c name version notification_id meta component) w (ok tt) h
        (rw e (
          exec-finish c bp' bs k s (view kv w) (rw same.2 d) (rw same.2 present) (rw same.2 no_list)
            (rw same.1 nn) nk component notification_id))
        refl
