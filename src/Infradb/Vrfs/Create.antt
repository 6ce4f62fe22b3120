-- ===== src/Infradb/Vrfs/Create.antt =====
-- CreateVrf.
use text.Mathlib.TextEquality.{eq_iff}
use opi_evpn_bridge.Prelude.{
  ℕ, String, ◌≡◌, refl, true, false, ◌||◌, ◌&&◌, List, [], ◌∷◌, ◌++◌, Option, none, some, arith,
  ◌==◌, string_eq, nat_eq, nat_beq_iff,
}
use opi_evpn_bridge.Prelude.Dict.{insert}
use opi_evpn_bridge.EventBus.{EventBus, Subscriber, get_subscribers}
use opi_evpn_bridge.Infradb.Errors.{ok, err, vni_in_use}
use opi_evpn_bridge.Infradb.Vrf.{Vrf}
use opi_evpn_bridge.Infradb.Store.{Codec, Gokv, Value}
use opi_evpn_bridge.Infradb.Program.{World, Content, exec, run, done}
use opi_evpn_bridge.Infradb.Program.Refine.{view, run_by_exec}
use opi_evpn_bridge.Infradb.Vrfs.{create_vrf}
use opi_evpn_bridge.Infradb.Ops.{or_new}
use opi_evpn_bridge.Infradb.View.{
  vni_used, listed, holds, read_as, has_vni-insert, has_entry-insert,
}

-- What a successful CreateVrf does to the store and to the task manager: the VRF is stored at its
-- name; its VNI is in use and the others as before; its name is listed and the others as before; and
-- one task is created, for all the subscribers of VRFs.
pub record IsCreated (c : Codec) (bus : EventBus) (vrf : Vrf) (w w' : World Content) (n : ℕ)
    (s : String) : Type 0 where
  pub stored : w'.db vrf.name ≡ some (Value.vrf vrf)
  pub vnis : vni_used c w'.db n ≡ (holds vrf.spec.vni n || vni_used c w.db n)
  pub names : listed c w'.db "vrfs" s ≡ (vrf.name == s || listed c w.db "vrfs" s)
  pub tasks :
      w'.trace.tasks
      ≡ w.trace.tasks
        ++ record {
          name = vrf.name;
          object_type = "vrf";
          resource_version = vrf.resource_version;
          subs = get_subscribers bus "vrf";
        }
          ∷ []
  pub was_free : (holds vrf.spec.vni n && vni_used c w.db n) ≡ false

module _ (c : Codec) (bus : EventBus) (vrf : Vrf) (n : ℕ) (s : String) (w : World Content) where
  exec-create_vrf :
      (vni : Option ℕ)
      → vrf.spec.vni ≡ vni
      → (vrf.name == "vpns") ≡ false
      → (vrf.name == "vrfs") ≡ false
      → (exec (create_vrf c bus vrf) w).0 ≡ ok tt
      → IsCreated c bus vrf w (exec (create_vrf c bus vrf) w).1 n s
  unfolding exec create_vrf
  exec-create_vrf none e nv nl h =
      let m = or_new (read_as c.as_names (w.db "vrfs")) in
      ground (
        arith,
        eq_iff vrf.name vrf.name,
        eq_iff "vrfs" vrf.name,
        has_entry-insert vrf.name s (read_as c.as_names (w.db "vrfs")),
        c.as_names-names (insert vrf.name false m),
      )
  exec-create_vrf (some v) e nv nl h =
      let m = or_new (read_as c.as_names (w.db "vrfs")) in
      let found = read_as c.as_numbers (w.db "vpns") in
      ground (
        arith,
        eq_iff vrf.name vrf.name,
        eq_iff "vrfs" vrf.name,
        eq_iff "vpns" vrf.name,
        has_entry-insert vrf.name s (read_as c.as_names (w.db "vrfs")),
        c.as_names-names (insert vrf.name false m),
        has_vni-insert v n found,
        nat_beq_iff v n,
        c.as_numbers-numbers (insert v false (or_new found)),
      )

module _ (kv : Gokv) (c : Codec) (bus : EventBus) (vrf : Vrf) (w : World kv.Db) where
  -- On any store, a CreateVrf that returns no error has stored the VRF, put its VNI, if it has one,
  -- and no other among those in use, put its name and no other in the list of VRFs, and created one
  -- task for all the subscribers; and its VNI was free. The VRF's name is not that of a map of the
  -- store.
  pub create_vrf-IsCreated :
      (n : ℕ) (s : String)
      → (vrf.name == "vpns") ≡ false
      → (vrf.name == "vrfs") ≡ false
      → (run kv (create_vrf c bus vrf) w).0 ≡ done (ok tt)
      → IsCreated c bus vrf (view kv w) (view kv (run kv (create_vrf c bus vrf) w).1) n s
  create_vrf-IsCreated n s nv nl h =
      run_by_exec kv (λ r w'. r ≡ ok tt → IsCreated c bus vrf (view kv w) w' n s)
        (create_vrf c bus vrf) w (ok tt) h
        (exec-create_vrf c bus vrf n s (view kv w) vrf.spec.vni refl nv nl) refl

  -- A VRF whose VNI is in use, be it by a VRF or by a bridge, is refused, and the store and the
  -- task manager are as before; the store's map of VNIs can be read, and there are subscribers.
  pub create_vrf-vni_in_use :
      (v : ℕ) (sub : Subscriber) (subs : List Subscriber)
      → get_subscribers bus "vrf" ≡ sub ∷ subs
      → kv.get_error w.db "vpns" ≡ none
      → vrf.spec.vni ≡ some v
      → vni_used c (kv.content w.db) v ≡ true
      → run kv (create_vrf c bus vrf) w ≡ (done (err vni_in_use), w)
  unfolding run create_vrf
  create_vrf-vni_in_use v sub subs es eg ev used = ground arith
