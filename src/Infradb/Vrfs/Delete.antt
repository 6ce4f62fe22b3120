-- ===== src/Infradb/Vrfs/Delete.antt =====
-- DeleteVrf.
use text.Mathlib.TextEquality.{eq_iff}
use opi_evpn_bridge.Prelude.{
  String, ◌≡◌, refl, Bool, true, false, List, [], ◌∷◌, ◌++◌, none, some, arith, ◌==◌, string_eq,
  if◌then◌else◌,
}
use opi_evpn_bridge.Component.{Component}
use opi_evpn_bridge.EventBus.{EventBus, Subscriber, get_subscribers}
use opi_evpn_bridge.Infradb.Errors.{ok, err, vrf_not_empty}
use opi_evpn_bridge.Infradb.Components.{set_pending, to_be_deleted}
use opi_evpn_bridge.Infradb.Vrf.{Vrf}
use opi_evpn_bridge.Infradb.Store.{Codec, Gokv, Value}
use opi_evpn_bridge.Infradb.Program.{World, Content, exec, run, done}
use opi_evpn_bridge.Infradb.Program.Refine.{view, run_by_exec}
use opi_evpn_bridge.Infradb.Vrfs.{delete_vrf}
use opi_evpn_bridge.Infradb.Ops.{is_empty}

-- No SVI refers to the VRF.
abbrev pub is_unused : Vrf → Bool
is_unused vrf = is_empty vrf.svis

-- What a successful DeleteVrf does: the VRF was unused; it is now to be deleted, with its
-- components pending and a new version; every other key is as before; and a task is created for
-- all the subscribers of VRFs.
pub record IsMarked (bus : EventBus) (version : String) (vrf : Vrf) (components : List Component)
    (w w' : World Content) (k : String) : Type 0 where
  pub unused : is_unused vrf ≡ true
  pub stored : w'.db k ≡ (
      if vrf.name == k
      then some (
          Value.vrf (record vrf {
            status = record { vrf_oper_status = to_be_deleted; components = components };
            resource_version = version;
          }))
      else w.db k)
  pub tasks :
      w'.trace.tasks
      ≡ w.trace.tasks
        ++ record {
          name = vrf.name;
          object_type = "vrf";
          resource_version = version;
          subs = get_subscribers bus "vrf";
        }
          ∷ []

module _ (kv : Gokv) (c : Codec) (bus : EventBus) (version name : String) (vrf : Vrf)
    (w : World kv.Db) (found : kv.content w.db name ≡ some (Value.vrf vrf)) where
  -- A VRF to which an SVI refers is not deleted: the call returns
  -- ErrVrfNotEmpty and changes nothing. The VRF can be read, and there are subscribers.
  pub delete_vrf-refused :
      (sub : Subscriber) (subs : List Subscriber)
      → get_subscribers bus "vrf" ≡ sub ∷ subs
      → kv.get_error w.db name ≡ none
      → is_unused vrf ≡ false
      → run kv (delete_vrf c bus version name) w ≡ (done (err vrf_not_empty), w)
  unfolding run delete_vrf
  delete_vrf-refused sub subs es readable used = ground (arith, c.as_vrf-vrf vrf)

  -- On any store that has the VRF, a DeleteVrf that returns no error has found it unused, and has
  -- marked it to be deleted, with its components pending and a new version; every other key is as
  -- before, and one task is created. The VRF has as many components as there are subscribers or
  -- more.
  pub delete_vrf-IsMarked :
      (components : List Component) (k : String)
      → set_pending (get_subscribers bus "vrf") vrf.status.components ≡ some components
      → (run kv (delete_vrf c bus version name) w).0 ≡ done (ok tt)
      → IsMarked bus version vrf components
          (view kv w)
          (view kv (run kv (delete_vrf c bus version name) w).1)
          k
  unfolding exec delete_vrf
  delete_vrf-IsMarked components k ep h =
      run_by_exec kv (λ r w'. r ≡ ok tt → IsMarked bus version vrf components (view kv w) w' k)
        (delete_vrf c bus version name) w (ok tt) h
        (λ g. ground (arith, c.as_vrf-vrf vrf, eq_iff vrf.name k)) refl
