-- ===== src/Infradb/Bridges/Create.antt =====
-- CreateLB.
use text.Mathlib.TextEquality.{eq_iff}
use opi_evpn_bridge.Prelude.{
  ℕ, String, ◌≡◌, refl, true, false, ◌||◌, ◌&&◌, List, [], ◌∷◌, ◌++◌, Option, none, some, arith,
  ◌==◌, string_eq, nat_eq, nat_beq_iff,
}
use opi_evpn_bridge.Prelude.Dict.{insert}
use opi_evpn_bridge.EventBus.{EventBus, Subscriber, get_subscribers}
use opi_evpn_bridge.Infradb.Errors.{ok, err, vni_in_use}
use opi_evpn_bridge.Infradb.LogicalBridge.{LogicalBridge}
use opi_evpn_bridge.Infradb.Store.{Codec, Gokv, bridge}
use opi_evpn_bridge.Infradb.Program.{World, Content, exec, run, done}
use opi_evpn_bridge.Infradb.Program.Refine.{view, run_by_exec}
use opi_evpn_bridge.Infradb.Bridges.{create_lb}
use opi_evpn_bridge.Infradb.Ops.{or_new}
use opi_evpn_bridge.Infradb.View.{
  vni_used, listed, holds, read_as, has_vni-insert, has_entry-insert,
}

-- What a successful CreateLB does to the store and to the task manager: the bridge is stored at its
-- name; its VNI is in use and the others as before; its name is listed and the others as before; and
-- one task is created, for all the subscribers of logical bridges.
pub record IsCreated (c : Codec) (bus : EventBus) (lb : LogicalBridge) (w w' : World Content)
    (n : ℕ) (s : String) : Type 0 where
  pub stored : w'.db lb.name ≡ some (bridge lb)
  pub vnis : vni_used c w'.db n ≡ (holds lb.spec.vni n || vni_used c w.db n)
  pub names : listed c w'.db "lbs" s ≡ (lb.name == s || listed c w.db "lbs" s)
  pub tasks :
      w'.trace.tasks
      ≡ w.trace.tasks
        ++ record {
          name = lb.name;
          object_type = "logical-bridge";
          resource_version = lb.resource_version;
          subs = get_subscribers bus "logical-bridge";
        }
          ∷ []
  pub was_free : (holds lb.spec.vni n && vni_used c w.db n) ≡ false

module _ (c : Codec) (bus : EventBus) (lb : LogicalBridge) (n : ℕ) (s : String)
    (w : World Content) where
  exec-create_lb :
      (vni : Option ℕ)
      → lb.spec.vni ≡ vni
      → (lb.name == "vpns") ≡ false
      → (lb.name == "lbs") ≡ false
      → (exec (create_lb c bus lb) w).0 ≡ ok tt
      → IsCreated c bus lb w (exec (create_lb c bus lb) w).1 n s
  unfolding exec create_lb
  exec-create_lb none e nv nl h =
      let m = or_new (read_as c.as_names (w.db "lbs")) in
      ground (
        arith,
        eq_iff lb.name lb.name,
        eq_iff "lbs" lb.name,
        has_entry-insert lb.name s (read_as c.as_names (w.db "lbs")),
        c.as_names-names (insert lb.name false m),
      )
  exec-create_lb (some v) e nv nl h =
      let m = or_new (read_as c.as_names (w.db "lbs")) in
      let found = read_as c.as_numbers (w.db "vpns") in
      ground (
        arith,
        eq_iff lb.name lb.name,
        eq_iff "lbs" lb.name,
        eq_iff "vpns" lb.name,
        has_entry-insert lb.name s (read_as c.as_names (w.db "lbs")),
        c.as_names-names (insert lb.name false m),
        has_vni-insert v n found,
        nat_beq_iff v n,
        c.as_numbers-numbers (insert v false (or_new found)),
      )

module _ (kv : Gokv) (c : Codec) (bus : EventBus) (lb : LogicalBridge) (w : World kv.Db) where
  -- On any store, a CreateLB that returns no error has stored the bridge, put its VNI, if it has
  -- one, and no other among those in use, put its name and no other in the list of bridges, and
  -- created one task for all the subscribers; and its VNI was free. The bridge's name is not that
  -- of a map of the store.
  pub create_lb-IsCreated :
      (n : ℕ) (s : String)
      → (lb.name == "vpns") ≡ false
      → (lb.name == "lbs") ≡ false
      → (run kv (create_lb c bus lb) w).0 ≡ done (ok tt)
      → IsCreated c bus lb (view kv w) (view kv (run kv (create_lb c bus lb) w).1) n s
  create_lb-IsCreated n s nv nl h =
      run_by_exec kv (λ r w'. r ≡ ok tt → IsCreated c bus lb (view kv w) w' n s)
        (create_lb c bus lb) w (ok tt) h
        (exec-create_lb c bus lb n s (view kv w) lb.spec.vni refl nv nl) refl

  -- A bridge whose VNI is in use, be it by a bridge or by a VRF, is refused, and the store and the
  -- task manager are as before; the store's map of VNIs can be read, and there are subscribers.
  pub create_lb-vni_in_use :
      (v : ℕ) (sub : Subscriber) (subs : List Subscriber)
      → get_subscribers bus "logical-bridge" ≡ sub ∷ subs
      → kv.get_error w.db "vpns" ≡ none
      → lb.spec.vni ≡ some v
      → vni_used c (kv.content w.db) v ≡ true
      → run kv (create_lb c bus lb) w ≡ (done (err vni_in_use), w)
  unfolding run create_lb
  create_lb-vni_in_use v sub subs es eg ev used = ground arith
