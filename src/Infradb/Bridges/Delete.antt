-- ===== src/Infradb/Bridges/Delete.antt =====
-- DeleteLB.
use text.Mathlib.TextEquality.{eq_iff}
use opi_evpn_bridge.Prelude.{
  String, ◌≡◌, refl, Bool, true, false, ◌&&◌, List, [], ◌∷◌, ◌++◌, none, some, arith, ◌==◌,
  string_eq, if◌then◌else◌,
}
use opi_evpn_bridge.Component.{Component}
use opi_evpn_bridge.EventBus.{EventBus, Subscriber, get_subscribers}
use opi_evpn_bridge.Infradb.Errors.{ok, err, logical_bridge_not_empty}
use opi_evpn_bridge.Infradb.Components.{set_pending, to_be_deleted}
use opi_evpn_bridge.Infradb.LogicalBridge.{LogicalBridge}
use opi_evpn_bridge.Infradb.Store.{Codec, Gokv, bridge}
use opi_evpn_bridge.Infradb.Program.{World, Content, exec, run, done}
use opi_evpn_bridge.Infradb.Program.Refine.{view, run_by_exec}
use opi_evpn_bridge.Infradb.Bridges.{delete_lb}
use opi_evpn_bridge.Infradb.Ops.{is_empty}

-- No SVI, no bridge port and no MAC address refers to the bridge.
abbrev pub is_unused : LogicalBridge → Bool
is_unused lb = lb.svi == "" && is_empty lb.bridge_ports && is_empty lb.mac_table

-- What a successful DeleteLB does: the bridge was unused; it is now to be deleted, with its
-- components pending and a new version; every other key is as before; and a task is created for
-- all the subscribers of logical bridges.
pub record IsMarked (bus : EventBus) (version : String) (lb : LogicalBridge)
    (components : List Component) (w w' : World Content) (k : String) : Type 0 where
  pub unused : is_unused lb ≡ true
  pub stored : w'.db k ≡ (
      if lb.name == k
      then some (
          bridge (record lb {
            status = record { lb_oper_status = to_be_deleted; components = components };
            resource_version = version;
          }))
      else w.db k)
  pub tasks :
      w'.trace.tasks
      ≡ w.trace.tasks
        ++ record {
          name = lb.name;
          object_type = "logical-bridge";
          resource_version = version;
          subs = get_subscribers bus "logical-bridge";
        }
          ∷ []

module _ (kv : Gokv) (c : Codec) (bus : EventBus) (version name : String) (lb : LogicalBridge)
    (w : World kv.Db) (found : kv.content w.db name ≡ some (bridge lb)) where
  -- A bridge to which an SVI, a bridge port or a MAC address refers is not deleted: the call returns
  -- ErrLogicalBridgeNotEmpty and changes nothing. The bridge can be read, and there are subscribers.
  pub delete_lb-refused :
      (sub : Subscriber) (subs : List Subscriber)
      → get_subscribers bus "logical-bridge" ≡ sub ∷ subs
      → kv.get_error w.db name ≡ none
      → is_unused lb ≡ false
      → run kv (delete_lb c bus version name) w ≡ (done (err logical_bridge_not_empty), w)
  unfolding run delete_lb
  delete_lb-refused sub subs es readable used = ground (arith, c.as_bridge-bridge lb)

  -- On any store that has the bridge, a DeleteLB that returns no error has found it unused, and has
  -- marked it to be deleted, with its components pending and a new version; every other key is as
  -- before, and one task is created. The bridge has as many components as there are subscribers or
  -- more.
  pub delete_lb-IsMarked :
      (components : List Component) (k : String)
      → set_pending (get_subscribers bus "logical-bridge") lb.status.components ≡ some components
      → (run kv (delete_lb c bus version name) w).0 ≡ done (ok tt)
      → IsMarked bus version lb components
          (view kv w)
          (view kv (run kv (delete_lb c bus version name) w).1)
          k
  unfolding exec delete_lb
  delete_lb-IsMarked components k ep h =
      run_by_exec kv (λ r w'. r ≡ ok tt → IsMarked bus version lb components (view kv w) w' k)
        (delete_lb c bus version name) w (ok tt) h
        (λ g. ground (arith, c.as_bridge-bridge lb, eq_iff lb.name k)) refl
