-- ===== src/Frr/Handlers/Vrfs.antt =====
-- The deletion of a VRF that ends the process of the module.
use text.Mathlib.TextEquality.{eq_iff}
use opi_evpn_bridge.Prelude.{
  ℕ, String, ◌≡◌, Bool, true, false, [], ◌∷◌, none, some, arith, ◌==◌, string_eq,
}
use opi_evpn_bridge.Prelude.Text.{sprint, path_base}
use opi_evpn_bridge.Infradb.Components.{is_to_be_deleted}
use opi_evpn_bridge.Infradb.Vrf.{Vrf}
use opi_evpn_bridge.Infradb.Store.{Codec, Gokv, vrf}
use opi_evpn_bridge.Infradb.Reads.{get_vrf}
use opi_evpn_bridge.Linux.Plan.{panicked}
use opi_evpn_bridge.Linux.Report.{ObjectData}
use opi_evpn_bridge.Frr.Session.{Reply, output, Daemon, zebra, Frr, checked, run_session}
use opi_evpn_bridge.Frr.Vrfs.{Decoder, tear_down_vrf}
use opi_evpn_bridge.Frr.Svis.{Fmt}
use opi_evpn_bridge.Frr.Handlers.{Router, handle_vrf}

module _ (F : Frr) (localas : ℕ) (decoder : Decoder) where
  abbrev pub answer : F.State → Daemon → String → (show : Bool) → Reply
  answer s d text show = checked F.to_lower show (F.communicate s d text).0

  tear_down_vrf-panicked :
      (v : Vrf) (s : F.State) (shown : String)
      → (path_base v.name == "GRD") ≡ false
      → v.spec.vni ≡ none
      → answer s zebra (sprint ("show vrf " ∷ path_base v.name ∷ " vni\n" ∷ [])) true ≡ output shown
      → (run_session F (tear_down_vrf localas decoder v) s).0 ≡ panicked
  unfolding run_session tear_down_vrf
  tear_down_vrf-panicked v s shown grd vni h = ground arith

module _ (kv : Gokv) (c : Codec) (F : Frr) (localas : ℕ) (decoder : Decoder) (text : Fmt)
    (o : ObjectData) (m : Router kv.Db F.State) (v : Vrf)
    (found : kv.content m.db.db o.name ≡ some (vrf v))
    (readable : kv.get_error m.db.db o.name ≡ none)
    (current : o.resource_version ≡ v.resource_version)
    (no_grd : (path_base v.name == "GRD") ≡ false) (shown : String) where
  -- The module of FRR panics at the deletion of a VRF without a VNI, other than the GRD, where zebra
  -- answers the first command of the tear-down: the number behind the missing VNI is read.
  pub handle_vrf-tear_down_vrf :
      is_to_be_deleted v.status.vrf_oper_status ≡ true
      → v.spec.vni ≡ none
      → answer F localas decoder m.daemons zebra
          (sprint ("show vrf " ∷ path_base v.name ∷ " vni\n" ∷ []))
          true
        ≡ output shown
      → handle_vrf kv c F localas decoder text o m ≡ none
  unfolding handle_vrf get_vrf
  handle_vrf-tear_down_vrf dying vni h =
      let p = tear_down_vrf-panicked F localas decoder v m.daemons shown no_grd vni h in
      ground (arith, c.as_vrf-vrf v, eq_iff o.resource_version v.resource_version, p)
