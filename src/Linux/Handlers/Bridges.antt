-- ===== src/Linux/Handlers/Bridges.antt =====
-- handleLB, from the event to the database.
use text.Mathlib.TextEquality.{eq_iff}
use opi_evpn_bridge.Prelude.{
  ℕ, String, List, ◌≡◌, refl, sym, ap, ◌∙◌, Bool, true, false, none, some, arith, ◌==◌, string_eq,
  if◌then◌else◌,
}
use opi_evpn_bridge.Component.{Component}
use opi_evpn_bridge.Infradb.Errors.{ok}
use opi_evpn_bridge.Infradb.Components.{up, is_to_be_deleted, all_success}
use opi_evpn_bridge.Infradb.LogicalBridge.{
  LogicalBridge, set_component_state, parse_meta, check_for_all_success,
}
use opi_evpn_bridge.Infradb.Store.{Codec, Gokv, bridge}
use opi_evpn_bridge.Infradb.Program.{Prog, exec, run, done}
use opi_evpn_bridge.Infradb.Program.Refine.{view}
use opi_evpn_bridge.Infradb.Program.Reliable.{IsReliable, run-reliable}
use opi_evpn_bridge.Infradb.Bridges.{update_lb_status}
use opi_evpn_bridge.Infradb.Bridges.Status.{IsReported, updated, update_lb_status-IsReported}
use opi_evpn_bridge.Infradb.Reads.{get_lb}
use opi_evpn_bridge.Linux.Kernel.{Kernel}
use opi_evpn_bridge.Linux.Plan.{Plan, returned, run_plan, final}
use opi_evpn_bridge.Linux.Report.{Fmt, ObjectData, own_component, reported}
use opi_evpn_bridge.Linux.Bridges.{set_up_bridge, tear_down_bridge}
use opi_evpn_bridge.Linux.Handlers.{Host, handle_lb}

module _ (kv : Gokv) (c : Codec) (K : Kernel) (mtu : ℕ) (text : Fmt) (random : List ℕ)
    (o : ObjectData) (m : Host kv K) (lb : LogicalBridge)
    (found : kv.content m.db.db o.name ≡ some (bridge lb))
    (readable : kv.get_error m.db.db o.name ≡ none)
    (current : o.resource_version ≡ lb.resource_version) (details : String) (status : Bool) where
  -- What the module does for the bridge, and what it reports.
  abbrev task : Plan
  task =
      if is_to_be_deleted lb.status.lb_oper_status
      then tear_down_bridge lb
      else set_up_bridge mtu text lb

  abbrev report : Component
  report = reported "lgm" details status (own_component "lgm" lb.status.components)

  abbrev updating : Prog (Unit {0})
  updating = update_lb_status c o.name o.resource_version o.notification_id none report

  handle_lb-task :
      (run_plan K task m.kernel).0 ≡ returned details status
      → handle_lb kv c K mtu text random o m
        ≡ some (record m { db = (run kv updating m.db).1; kernel = final K task m.kernel })
  unfolding handle_lb get_lb
  handle_lb-task ends =
      ground (arith, c.as_bridge-bridge lb, eq_iff o.resource_version lb.resource_version)

  -- The handler of the events of logical bridges, for the stored version of a bridge: it does the
  -- task, a set-up or for a bridge that is to be deleted a tear-down, and the database has the
  -- report of how the task ended, as UpdateLBStatus puts it there. The task returns, the update of
  -- the database returns no error, and the module's component is no replay request. Neither name is
  -- that of a map of the store.
  pub handle_lb-IsReported :
      (k s : String) (n : ℕ)
      → (lb.name == "vpns") ≡ false
      → (lb.name == "lbs") ≡ false
      → (k == "vpns") ≡ false
      → (k == "lbs") ≡ false
      → (run_plan K task m.kernel).0 ≡ returned details status
      → report.replay ≡ false
      → (run kv updating m.db).0 ≡ done (ok tt)
      → (m' : Host kv K) × (handle_lb kv c K mtu text random o m ≡ some m')
        × (m'.kernel ≡ final K task m.kernel)
        × IsReported c report o.notification_id
            (updated none report lb)
            (view kv m.db)
            (view kv m'.db)
            k
            s
            n
  handle_lb-IsReported k s n nv nl kv' kl ends no_replay h = (
    record m { db = (run kv updating m.db).1; kernel = final K task m.kernel },
    handle_lb-task ends,
    refl,
    update_lb_status-IsReported kv c o.name o.resource_version o.notification_id none report lb m.db
        found k s n nv nl kv' kl (sym current) no_replay h,
  )

  abbrev succeeded : LogicalBridge
  succeeded = updated none report lb

  exec-updating :
      report.replay ≡ false
      → is_to_be_deleted lb.status.lb_oper_status ≡ false
      → (exec updating (view kv m.db)).0 ≡ ok tt
  unfolding exec update_lb_status set_component_state parse_meta check_for_all_success
  exec-updating no_replay kept =
      ground (arith, c.as_bridge-bridge lb, eq_iff lb.resource_version o.resource_version)

  -- A bridge comes up: on a store that never fails, the event of a bridge that is not to be deleted
  -- leaves it in the database as `up`, if with the module's report of the set-up all its components
  -- have succeeded. The set-up returns, the module's component is no replay request, and the name
  -- of the bridge is not that of a map of the store.
  pub handle_lb-up :
      IsReliable kv
      → (lb.name == "vpns") ≡ false
      → (lb.name == "lbs") ≡ false
      → is_to_be_deleted lb.status.lb_oper_status ≡ false
      → all_success succeeded.status.components ≡ true
      → (run_plan K (set_up_bridge mtu text lb) m.kernel).0 ≡ returned details status
      → report.replay ≡ false
      → (m' : Host kv K) × (handle_lb kv c K mtu text random o m ≡ some m')
        × (kv.content m'.db.db lb.name
            ≡ some (
                bridge
                  (record succeeded { status = record succeeded.status { lb_oper_status = up } })))
  unfolding set_component_state parse_meta
  handle_lb-up reliable nv nl kept all ends no_replay =
      let e = exec-updating no_replay kept in
      let h = run-reliable kv reliable updating m.db ∙ ap done e in
      let (m', handled, moved, r) =
        handle_lb-IsReported lb.name "" 0 nv nl nv nl (ground arith) no_replay h in
      (m', handled, r.stored ∙ ground (arith, eq_iff lb.name lb.name))
