-- ===== src/Infradb/Bridges/Outcomes.antt =====
-- What CreateLB and DeleteLB return on a store that never fails.
use text.Mathlib.TextEquality.{eq_iff}
use opi_evpn_bridge.Prelude.{
  ◌==◌, string_eq, ℕ, String, ◌≡◌, refl, true, false, Bool, List, Option, none, some, arith, ap,
  ◌∙◌, if◌then◌else◌,
}
use opi_evpn_bridge.Component.{Component}
use opi_evpn_bridge.EventBus.{EventBus, get_subscribers}
use opi_evpn_bridge.Infradb.Errors.{
  Result, ok, err, no_subscribers, vni_in_use, key_not_found, logical_bridge_not_empty,
  index_out_of_range,
}
use opi_evpn_bridge.Infradb.Components.{set_pending}
use opi_evpn_bridge.Infradb.LogicalBridge.{LogicalBridge}
use opi_evpn_bridge.Infradb.Store.{Codec, Gokv}
use opi_evpn_bridge.Infradb.Program.{World, Content, exec, run, done}
use opi_evpn_bridge.Infradb.Program.Refine.{view}
use opi_evpn_bridge.Infradb.Program.Reliable.{IsReliable, run-reliable}
use opi_evpn_bridge.Infradb.Bridges.{create_lb, delete_lb}
use opi_evpn_bridge.Infradb.Bridges.Delete.{is_unused}
use opi_evpn_bridge.Infradb.Ops.{is_empty}
use opi_evpn_bridge.Infradb.View.{vni_used, read_as, decodes}

abbrev pub vni_taken : Codec → Content → Option ℕ → Bool
vni_taken c f none = false
vni_taken c f (some n) = vni_used c f n

abbrev pub create_result : Codec → EventBus → LogicalBridge → Content → Result (Unit {0})
create_result c bus lb f =
    if is_empty (get_subscribers bus "logical-bridge")
    then err (no_subscribers "logical-bridge")
    else if vni_taken c f lb.spec.vni
    then err vni_in_use
    else ok tt

abbrev pub pending_result : Option (List Component) → Result (Unit {0})
pending_result none = err index_out_of_range
pending_result (some components) = ok tt

abbrev pub found_result : EventBus → Option LogicalBridge → Result (Unit {0})
found_result bus none = err key_not_found
found_result bus (some lb) =
    if is_unused lb
    then pending_result (set_pending (get_subscribers bus "logical-bridge") lb.status.components)
    else err logical_bridge_not_empty

abbrev pub delete_result : Codec → EventBus → String → Content → Result (Unit {0})
delete_result c bus name f =
    if is_empty (get_subscribers bus "logical-bridge")
    then err (no_subscribers "logical-bridge")
    else found_result bus (read_as c.as_bridge (f name))

module _ (c : Codec) (bus : EventBus) (w : World Content) where
  exec-create_lb :
      (lb : LogicalBridge) (vni : Option ℕ)
      → lb.spec.vni ≡ vni
      → decodes c.as_numbers (w.db "vpns") ≡ true
      → decodes c.as_names (w.db "lbs") ≡ true
      → (lb.name == "lbs") ≡ false
      → (exec (create_lb c bus lb) w).0 ≡ create_result c bus lb w.db
  unfolding exec create_lb is_empty
  exec-create_lb lb none e dn dl nl = ground (arith, eq_iff "lbs" lb.name, eq_iff lb.name "lbs")
  exec-create_lb lb (some v) e dn dl nl = ground (arith, eq_iff "lbs" lb.name, eq_iff lb.name "lbs")

  exec-delete_lb :
      (version name : String)
      → decodes c.as_bridge (w.db name) ≡ true
      → (exec (delete_lb c bus version name) w).0 ≡ delete_result c bus name w.db
  unfolding exec delete_lb is_empty
  exec-delete_lb version name d = ground arith

module _ (kv : Gokv) (c : Codec) (bus : EventBus) (w : World kv.Db) (reliable : IsReliable kv) where
  -- On a store that never fails, CreateLB always returns: an error if there are no subscribers of
  -- logical bridges, ErrVniInUse if there are and the bridge has a VNI that is in use, and no error
  -- in every other case. The store's maps of VNIs and of bridges can be decoded, and the bridge has
  -- not the name of the latter.
  pub create_lb-result :
      (lb : LogicalBridge)
      → decodes c.as_numbers (kv.content w.db "vpns") ≡ true
      → decodes c.as_names (kv.content w.db "lbs") ≡ true
      → (lb.name == "lbs") ≡ false
      → (run kv (create_lb c bus lb) w).0 ≡ done (create_result c bus lb (kv.content w.db))
  create_lb-result lb dn dl nl =
      run-reliable kv reliable (create_lb c bus lb) w
      ∙ ap done (exec-create_lb c bus (view kv w) lb lb.spec.vni refl dn dl nl)

  -- On a store that never fails, DeleteLB always ends: with an error if there are no subscribers of
  -- logical bridges, with ErrKeyNotFound if the name has no bridge, with ErrLogicalBridgeNotEmpty if
  -- the bridge is referred to, with a panic if it has fewer components than there are subscribers,
  -- and without an error in every other case. What is stored at the name can be decoded.
  pub delete_lb-result :
      (version name : String)
      → decodes c.as_bridge (kv.content w.db name) ≡ true
      → (run kv (delete_lb c bus version name) w).0
        ≡ done (delete_result c bus name (kv.content w.db))
  delete_lb-result version name d =
      run-reliable kv reliable (delete_lb c bus version name) w
      ∙ ap done (exec-delete_lb c bus (view kv w) version name d)
