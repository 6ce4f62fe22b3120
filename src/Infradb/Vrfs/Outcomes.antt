-- ===== src/Infradb/Vrfs/Outcomes.antt =====
-- What CreateVrf and DeleteVrf return on a store that never fails.
use text.Mathlib.TextEquality.{eq_iff}
use opi_evpn_bridge.Prelude.{
  ◌==◌, string_eq, ℕ, String, ◌≡◌, refl, true, false, Bool, List, Option, none, some, arith, ap,
  ◌∙◌, if◌then◌else◌,
}
use opi_evpn_bridge.Component.{Component}
use opi_evpn_bridge.EventBus.{EventBus, get_subscribers}
use opi_evpn_bridge.Infradb.Errors.{
  Result, ok, err, no_subscribers, vni_in_use, key_not_found, vrf_not_empty, index_out_of_range,
}
use opi_evpn_bridge.Infradb.Components.{set_pending}
use opi_evpn_bridge.Infradb.Vrf.{Vrf}
use opi_evpn_bridge.Infradb.Store.{Codec, Gokv}
use opi_evpn_bridge.Infradb.Program.{World, Content, exec, run, done}
use opi_evpn_bridge.Infradb.Program.Refine.{view}
use opi_evpn_bridge.Infradb.Program.Reliable.{IsReliable, run-reliable}
use opi_evpn_bridge.Infradb.Vrfs.{create_vrf, delete_vrf}
use opi_evpn_bridge.Infradb.Vrfs.Delete.{is_unused}
use opi_evpn_bridge.Infradb.Ops.{is_empty}
use opi_evpn_bridge.Infradb.View.{vni_used, read_as, decodes}

abbrev pub vni_taken : Codec → Content → Option ℕ → Bool
vni_taken c f none = false
vni_taken c f (some n) = vni_used c f n

abbrev pub create_result : Codec → EventBus → Vrf → Content → Result (Unit {0})
create_result c bus vrf f =
    if is_empty (get_subscribers bus "vrf")
    then err (no_subscribers "vrf")
    else if vni_taken c f vrf.spec.vni
    then err vni_in_use
    else ok tt

abbrev pub pending_result : Option (List Component) → Result (Unit {0})
pending_result none = err index_out_of_range
pending_result (some components) = ok tt

abbrev pub found_result : EventBus → Option Vrf → Result (Unit {0})
found_result bus none = err key_not_found
found_result bus (some vrf) =
    if is_unused vrf
    then pending_result (set_pending (get_subscribers bus "vrf") vrf.status.components)
    else err vrf_not_empty

abbrev pub delete_result : Codec → EventBus → String → Content → Result (Unit {0})
delete_result c bus name f =
    if is_empty (get_subscribers bus "vrf")
    then err (no_subscribers "vrf")
    else found_result bus (read_as c.as_vrf (f name))

module _ (c : Codec) (bus : EventBus) (w : World Content) where
  exec-create_vrf :
      (vrf : Vrf) (vni : Option ℕ)
      → vrf.spec.vni ≡ vni
      → decodes c.as_numbers (w.db "vpns") ≡ true
      → decodes c.as_names (w.db "vrfs") ≡ true
      → (vrf.name == "vrfs") ≡ false
      → (exec (create_vrf c bus vrf) w).0 ≡ create_result c bus vrf w.db
  unfolding exec create_vrf is_empty
  exec-create_vrf vrf none e dn dl nl =
      ground (arith, eq_iff "vrfs" vrf.name, eq_iff vrf.name "vrfs")
  exec-create_vrf vrf (some v) e dn dl nl =
      ground (arith, eq_iff "vrfs" vrf.name, eq_iff vrf.name "vrfs")

  exec-delete_vrf :
      (version name : String)
      → decodes c.as_vrf (w.db name) ≡ true
      → (exec (delete_vrf c bus version name) w).0 ≡ delete_result c bus name w.db
  unfolding exec delete_vrf is_empty
  exec-delete_vrf version name d = ground arith

module _ (kv : Gokv) (c : Codec) (bus : EventBus) (w : World kv.Db) (reliable : IsReliable kv) where
  -- On a store that never fails, CreateVrf always returns: an error if there are no subscribers of
  -- VRFs, ErrVniInUse if there are and the VRF has a VNI that is in use, and no error
  -- in every other case. The store's maps of VNIs and of VRFs can be decoded, and the VRF has
  -- not the name of the latter.
  pub create_vrf-result :
      (vrf : Vrf)
      → decodes c.as_numbers (kv.content w.db "vpns") ≡ true
      → decodes c.as_names (kv.content w.db "vrfs") ≡ true
      → (vrf.name == "vrfs") ≡ false
      → (run kv (create_vrf c bus vrf) w).0 ≡ done (create_result c bus vrf (kv.content w.db))
  create_vrf-result vrf dn dl nl =
      run-reliable kv reliable (create_vrf c bus vrf) w
      ∙ ap done (exec-create_vrf c bus (view kv w) vrf vrf.spec.vni refl dn dl nl)

  -- On a store that never fails, DeleteVrf always ends: with an error if there are no subscribers of
  -- VRFs, with ErrKeyNotFound if the name has no VRF, with ErrVrfNotEmpty if
  -- the VRF is referred to, with a panic if it has fewer components than there are subscribers,
  -- and without an error in every other case. What is stored at the name can be decoded.
  pub delete_vrf-result :
      (version name : String)
      → decodes c.as_vrf (kv.content w.db name) ≡ true
      → (run kv (delete_vrf c bus version name) w).0
        ≡ done (delete_result c bus name (kv.content w.db))
  delete_vrf-result version name d =
      run-reliable kv reliable (delete_vrf c bus version name) w
      ∙ ap done (exec-delete_vrf c bus (view kv w) version name d)
