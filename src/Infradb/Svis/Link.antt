-- ===== src/Infradb/Svis/Link.antt =====
-- CreateSvi: the references of the VRF and of the logical bridge.
use text.Mathlib.TextEquality.{eq_iff}
use opi_evpn_bridge.Prelude.{
  String, ◌≡◌, refl, false, ◌||◌, List, [], ◌∷◌, ◌++◌, none, some, arith, ◌==◌, string_eq,
  if◌then◌else◌,
}
use opi_evpn_bridge.Prelude.Dict.{lookup, insert}
use opi_evpn_bridge.EventBus.{EventBus, Subscriber, get_subscribers}
use opi_evpn_bridge.Infradb.Errors.{Result, ok, err, already_associated}
use opi_evpn_bridge.Infradb.LogicalBridge.{LogicalBridge}
use opi_evpn_bridge.Infradb.Vrf.{Vrf}
use opi_evpn_bridge.Infradb.Svi.{Svi}
use opi_evpn_bridge.Infradb.Store.{Codec, Gokv, Value, bridge}
use opi_evpn_bridge.Infradb.Program.{World, Content, exec, run, done, Outcome}
use opi_evpn_bridge.Infradb.Program.Refine.{view, run_by_exec}
use opi_evpn_bridge.Infradb.Svis.{create_svi}
use opi_evpn_bridge.Infradb.Ops.{or_new}
use opi_evpn_bridge.Infradb.View.{listed, read_as, has_entry-insert}

-- What a successful CreateSvi does: neither the VRF nor the bridge referred to the SVI before, and
-- the bridge to no SVI at all; now both refer to it; the SVI is stored and listed; every other key
-- that is not the list is as before; and one task is created.
pub record IsLinked (c : Codec) (bus : EventBus) (svi : Svi) (vrf : Vrf) (lb : LogicalBridge)
    (w w' : World Content) (k s : String) : Type 0 where
  pub vrf_was_free : lookup svi.name vrf.svis ≡ none
  pub lb_was_free : lb.svi ≡ ""
  pub stored : w'.db k ≡ (
      if svi.name == k
      then some (Value.svi svi)
      else if lb.name == k
      then some (bridge (record lb { svi = svi.name }))
      else if vrf.name == k
      then some (Value.vrf (record vrf { svis = insert svi.name false vrf.svis }))
      else w.db k)
  pub names : listed c w'.db "svis" s ≡ (svi.name == s || listed c w.db "svis" s)
  pub tasks :
      w'.trace.tasks
      ≡ w.trace.tasks
        ++ record {
          name = svi.name;
          object_type = "svi";
          resource_version = svi.resource_version;
          subs = get_subscribers bus "svi";
        }
          ∷ []

module _ (c : Codec) (bus : EventBus) (svi : Svi) (vrf : Vrf) (lb : LogicalBridge) (k s : String)
    (w : World Content) (found_vrf : w.db svi.spec.vrf ≡ some (Value.vrf vrf))
    (found_lb : w.db svi.spec.logical_bridge ≡ some (bridge lb)) (ns : (svi.name == "svis") ≡ false)
    (nv : (vrf.name == "svis") ≡ false) (nl : (lb.name == "svis") ≡ false)
    (nk : (k == "svis") ≡ false) where
  exec-create_svi :
      (exec (create_svi c bus svi) w).0 ≡ ok tt
      → IsLinked c bus svi vrf lb w (exec (create_svi c bus svi) w).1 k s
  unfolding exec create_svi
  exec-create_svi h =
      let m = or_new (read_as c.as_names (w.db "svis")) in
      ground (
        arith,
        c.as_vrf-vrf vrf,
        c.as_bridge-bridge lb,
        eq_iff svi.name k,
        eq_iff lb.name k,
        eq_iff vrf.name k,
        eq_iff "svis" k,
        eq_iff lb.svi "",
        eq_iff svi.name "svis",
        eq_iff lb.name "svis",
        eq_iff vrf.name "svis",
        has_entry-insert svi.name s (read_as c.as_names (w.db "svis")),
        c.as_names-names (insert svi.name false m),
      )

module _ (kv : Gokv) (c : Codec) (bus : EventBus) (svi : Svi) (vrf : Vrf) (lb : LogicalBridge)
    (w : World kv.Db) (found_vrf : kv.content w.db svi.spec.vrf ≡ some (Value.vrf vrf))
    (found_lb : kv.content w.db svi.spec.logical_bridge ≡ some (bridge lb)) where
  abbrev outcome : Outcome (Unit {0}) × World kv.Db
  outcome = run kv (create_svi c bus svi) w

  -- On any store that has the SVI's VRF and its logical bridge, a CreateSvi that returns no error
  -- has put a reference to the SVI into the VRF, which had none to it, and into the bridge, which
  -- had none to any SVI, has stored and listed the SVI, has left every other key that is not the
  -- list as it was, and has created one task. None of the names is that of the list.
  pub create_svi-IsLinked :
      (k s : String)
      → (svi.name == "svis") ≡ false
      → (vrf.name == "svis") ≡ false
      → (lb.name == "svis") ≡ false
      → (k == "svis") ≡ false
      → outcome.0 ≡ done (ok tt)
      → IsLinked c bus svi vrf lb (view kv w) (view kv outcome.1) k s
  create_svi-IsLinked k s ns nv nl nk h =
      run_by_exec kv (λ r w'. r ≡ ok tt → IsLinked c bus svi vrf lb (view kv w) w' k s)
        (create_svi c bus svi) w (ok tt) h
        (exec-create_svi c bus svi vrf lb k s (view kv w) found_vrf found_lb ns nv nl nk) refl

  -- Where the VRF of an SVI does not refer to it and its logical bridge has an SVI already, a
  -- CreateSvi that meets no failure of the store fails, but not before the VRF is stored with a
  -- reference to the SVI: the SVI itself is not stored, and no key but the VRF's changes. There are
  -- subscribers.
  pub create_svi-dangling :
      (r : Result (Unit {0})) (sub : Subscriber) (subs : List Subscriber) (k : String)
      → get_subscribers bus "svi" ≡ sub ∷ subs
      → lookup svi.name vrf.svis ≡ none
      → (lb.svi == "") ≡ false
      → outcome.0 ≡ done r
      → (r ≡ err (already_associated lb.name lb.svi))
        × (kv.content outcome.1.db k ≡ (
            if vrf.name == k
            then some (Value.vrf (record vrf { svis = insert svi.name false vrf.svis }))
            else kv.content w.db k))
  unfolding exec create_svi
  create_svi-dangling r sub subs k es free taken h =
      run_by_exec kv
        (λ r' w'.
          (r' ≡ err (already_associated lb.name lb.svi))
          × (w'.db k ≡ (
              if vrf.name == k
              then some (Value.vrf (record vrf { svis = insert svi.name false vrf.svis }))
              else kv.content w.db k)))
        (create_svi c bus svi) w r h
        (ground (arith, c.as_vrf-vrf vrf, c.as_bridge-bridge lb, eq_iff vrf.name k))
