-- ===== src/Infradb/Svis/Outcomes.antt =====
-- What CreateSvi returns on a store that never fails.
use text.Mathlib.TextEquality.{eq_iff}
use opi_evpn_bridge.Prelude.{
  String, ◌≡◌, true, false, Option, none, some, arith, ap, ◌∙◌, ◌==◌, string_eq, if◌then◌else◌,
}
use opi_evpn_bridge.Prelude.Dict.{lookup}
use opi_evpn_bridge.EventBus.{EventBus, get_subscribers}
use opi_evpn_bridge.Infradb.Errors.{
  Result, ok, err, no_subscribers, vrf_not_found, logical_bridge_not_found, already_associated,
}
use opi_evpn_bridge.Infradb.LogicalBridge.{LogicalBridge}
use opi_evpn_bridge.Infradb.Vrf.{Vrf}
use opi_evpn_bridge.Infradb.Svi.{Svi}
use opi_evpn_bridge.Infradb.Store.{Codec, Gokv}
use opi_evpn_bridge.Infradb.Program.{World, Content, exec, run, done}
use opi_evpn_bridge.Infradb.Program.Refine.{view}
use opi_evpn_bridge.Infradb.Program.Reliable.{IsReliable, run-reliable}
use opi_evpn_bridge.Infradb.Svis.{create_svi}
use opi_evpn_bridge.Infradb.Ops.{is_empty}
use opi_evpn_bridge.Infradb.View.{is_some, read_as, decodes}

abbrev pub link_result : Svi → Option Vrf → Option LogicalBridge → Result (Unit {0})
link_result svi none lb = err vrf_not_found
link_result svi (some vrf) none = err logical_bridge_not_found
link_result svi (some vrf) (some lb) =
    if is_some (lookup svi.name vrf.svis)
    then err (already_associated vrf.name svi.name)
    else if lb.svi == ""
    then ok tt
    else err (already_associated lb.name lb.svi)

abbrev pub create_result : Codec → EventBus → Svi → Content → Result (Unit {0})
create_result c bus svi f =
    if is_empty (get_subscribers bus "svi")
    then err (no_subscribers "svi")
    else link_result svi (read_as c.as_vrf (f svi.spec.vrf))
        (read_as c.as_bridge (f svi.spec.logical_bridge))

-- The names of what was read, empty if there was nothing.
abbrev pub vrf_name : Option Vrf → String
vrf_name none = ""
vrf_name (some vrf) = vrf.name

abbrev pub bridge_name : Option LogicalBridge → String
bridge_name none = ""
bridge_name (some lb) = lb.name

module _ (c : Codec) (bus : EventBus) (svi : Svi) (w : World Content) where
  exec-create_svi :
      decodes c.as_vrf (w.db svi.spec.vrf) ≡ true
      → decodes c.as_bridge (w.db svi.spec.logical_bridge) ≡ true
      → decodes c.as_names (w.db "svis") ≡ true
      → (vrf_name (read_as c.as_vrf (w.db svi.spec.vrf)) == "svis") ≡ false
      → (bridge_name (read_as c.as_bridge (w.db svi.spec.logical_bridge)) == "svis") ≡ false
      → (svi.name == "svis") ≡ false
      → (exec (create_svi c bus svi) w).0 ≡ create_result c bus svi w.db
  unfolding exec create_svi is_empty
  exec-create_svi dv db dl nv nb ns = ground (
    arith,
    eq_iff "svis" svi.name,
    eq_iff svi.name "svis",
    eq_iff "svis" (vrf_name (read_as c.as_vrf (w.db svi.spec.vrf))),
    eq_iff "svis" (bridge_name (read_as c.as_bridge (w.db svi.spec.logical_bridge))),
    eq_iff (vrf_name (read_as c.as_vrf (w.db svi.spec.vrf))) "svis",
    eq_iff (bridge_name (read_as c.as_bridge (w.db svi.spec.logical_bridge))) "svis",
  )

module _ (kv : Gokv) (c : Codec) (bus : EventBus) (svi : Svi) (w : World kv.Db)
    (reliable : IsReliable kv) where
  -- On a store that never fails, CreateSvi always returns: an error if there are no subscribers of
  -- SVIs; if there are, ErrVrfNotFound if its VRF does not exist; if that does,
  -- ErrLogicalBridgeNotFound if its bridge does not; if both do, an error if the VRF has the SVI
  -- already, or else if the bridge has some SVI; and no error in every other case. The three values
  -- that are read can be decoded, and no object has the name of the list of SVIs.
  pub create_svi-result :
      decodes c.as_vrf (kv.content w.db svi.spec.vrf) ≡ true
      → decodes c.as_bridge (kv.content w.db svi.spec.logical_bridge) ≡ true
      → decodes c.as_names (kv.content w.db "svis") ≡ true
      → (vrf_name (read_as c.as_vrf (kv.content w.db svi.spec.vrf)) == "svis") ≡ false
      → (bridge_name (read_as c.as_bridge (kv.content w.db svi.spec.logical_bridge)) == "svis")
        ≡ false
      → (svi.name == "svis") ≡ false
      → (run kv (create_svi c bus svi) w).0 ≡ done (create_result c bus svi (kv.content w.db))
  create_svi-result dv db dl nv nb ns =
      run-reliable kv reliable (create_svi c bus svi) w
      ∙ ap done (exec-create_svi c bus svi (view kv w) dv db dl nv nb ns)
