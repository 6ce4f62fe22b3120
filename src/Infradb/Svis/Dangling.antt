-- ===== src/Infradb/Svis/Dangling.antt =====
-- What a CreateSvi that fails on its logical bridge does to its VRF.
use text.Mathlib.TextEquality.{eq_iff}
use opi_evpn_bridge.Prelude.{
  String, ◌≡◌, refl, Bool, false, List, [], ◌∷◌, none, some, arith, ◌==◌, string_eq,
}
use opi_evpn_bridge.Prelude.Dict.{Dict, lookup, insert}
use opi_evpn_bridge.EventBus.{EventBus, Subscriber, get_subscribers}
use opi_evpn_bridge.Infradb.Errors.{Result, err, vrf_not_empty}
use opi_evpn_bridge.Infradb.LogicalBridge.{LogicalBridge}
use opi_evpn_bridge.Infradb.Vrf.{Vrf}
use opi_evpn_bridge.Infradb.Svi.{Svi}
use opi_evpn_bridge.Infradb.Ops.{is_empty}
use opi_evpn_bridge.Infradb.Store.{Codec, Gokv, Value, bridge}
use opi_evpn_bridge.Infradb.Program.{World, run, done}
use opi_evpn_bridge.Infradb.Svis.{create_svi}
use opi_evpn_bridge.Infradb.Svis.Link.{create_svi-dangling}
use opi_evpn_bridge.Infradb.Vrfs.{delete_vrf}
use opi_evpn_bridge.Infradb.Vrfs.Delete.{delete_vrf-refused}

is_empty-insert : (k : String) (m : Dict String Bool) → is_empty (insert k false m) ≡ false
unfolding is_empty insert
is_empty-insert k [] = refl
is_empty-insert k (x ∷ m) = ground arith

module _ (kv : Gokv) (c : Codec) (bus : EventBus) (svi : Svi) (vrf : Vrf) (lb : LogicalBridge)
    (version : String) (w : World kv.Db) where
  abbrev failed : World kv.Db
  failed = (run kv (create_svi c bus svi) w).1

  -- Where the VRF of an SVI does not refer to it and its logical bridge has an SVI already, a
  -- CreateSvi that meets no failure of the store leaves the VRF undeletable, though the SVI is not
  -- stored: DeleteVrf of the VRF, if the store can read it, then returns ErrVrfNotEmpty and changes
  -- nothing. Both kinds of objects have subscribers.
  pub delete_vrf-create_svi :
      (r : Result (Unit {0})) (sub sub' : Subscriber) (subs subs' : List Subscriber)
      → kv.content w.db svi.spec.vrf ≡ some (Value.vrf vrf)
      → kv.content w.db svi.spec.logical_bridge ≡ some (bridge lb)
      → get_subscribers bus "svi" ≡ sub ∷ subs
      → get_subscribers bus "vrf" ≡ sub' ∷ subs'
      → lookup svi.name vrf.svis ≡ none
      → (lb.svi == "") ≡ false
      → (run kv (create_svi c bus svi) w).0 ≡ done r
      → kv.get_error failed.db vrf.name ≡ none
      → run kv (delete_vrf c bus version vrf.name) failed ≡ (done (err vrf_not_empty), failed)
  delete_vrf-create_svi r sub sub' subs subs' fv fl es es' free taken h readable =
      let dangling =
        create_svi-dangling kv c bus svi vrf lb w fv fl r sub subs vrf.name es free taken h in
      delete_vrf-refused kv c bus version vrf.name
        (record vrf { svis = insert svi.name false vrf.svis }) failed
        (ground (arith, dangling, eq_iff vrf.name vrf.name)) sub' subs' es' readable
        (is_empty-insert svi.name vrf.svis)
