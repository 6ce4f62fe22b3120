-- ===== src/Linux/Handlers/Vrfs.antt =====
-- handlevrf, from the event to the database.
use text.Mathlib.TextEquality.{eq_iff}
use opi_evpn_bridge.Prelude.{
  ℕ, String, ◌≡◌, refl, sym, ap, ◌∙◌, Bool, false, List, [], ◌∷◌, none, some, arith, ◌==◌,
  string_eq, inl, inr, Option-cases, if◌then◌else◌,
}
use opi_evpn_bridge.Prelude.Text.{path_base, decimal}
use opi_evpn_bridge.Component.{Component}
use opi_evpn_bridge.Infradb.Errors.{ok}
use opi_evpn_bridge.Infradb.Components.{is_to_be_deleted}
use opi_evpn_bridge.Infradb.Vrf.{Vrf, set_component_state, parse_meta}
use opi_evpn_bridge.Infradb.Store.{Codec, Gokv, Value}
use opi_evpn_bridge.Infradb.Program.{Prog, run, done}
use opi_evpn_bridge.Infradb.Program.Refine.{view}
use opi_evpn_bridge.Infradb.Vrfs.{update_vrf_status}
use opi_evpn_bridge.Infradb.Vrfs.Status.{
  IsReported, updated, ends as ends_vrf, settled, update_vrf_status-IsReported,
}
use opi_evpn_bridge.Infradb.Reads.{get_vrf}
use opi_evpn_bridge.Linux.Kernel.{Kernel, Request, route_flush_table, link_del}
use opi_evpn_bridge.Linux.Plan.{returned}
use opi_evpn_bridge.Linux.Plan.Performed.{performed}
use opi_evpn_bridge.Linux.Report.{Fmt, ObjectData, own_component, reported}
use opi_evpn_bridge.Linux.Vrfs.{VrfSetUp, set_up_vrf, tear_down_vrf, tables_of, is_grd}
use opi_evpn_bridge.Linux.Handlers.{Host, handle_vrf}

flushes_table :
    (K : Kernel) (mtu : ℕ) (text : Fmt) (random : List ℕ) (v : Vrf) (t : K.State)
    → is_grd v ≡ false
    → v.spec.vni ≡ none
    → v.meta ≡ tables_of (0 ∷ [])
    → K.find_error t (path_base v.name) ≡ none
    → (K.perform t (route_flush_table "0")).0 ≡ none
    → (rest : List Request) × (performed K (tear_down_vrf mtu text random v) t
        ≡ route_flush_table "0" ∷ rest)
unfolding performed tear_down_vrf decimal
flushes_table K mtu text random v t ordinary no_vni meta finds flushes =
    let t' = (K.perform t (route_flush_table "0")).1 in
    elim (Option-cases (K.perform t' (link_del (path_base v.name))).0) [
      | inl e ↦ (link_del (path_base v.name) ∷ [], ground arith)
      | inr (x, e) ↦ ([], ground arith)
    ]

module _ (kv : Gokv) (c : Codec) (K : Kernel) (mtu : ℕ) (text : Fmt) (random : List ℕ)
    (o : ObjectData) (m : Host kv K) (v : Vrf)
    (found : kv.content m.db.db o.name ≡ some (Value.vrf v))
    (readable : kv.get_error m.db.db o.name ≡ none)
    (current : o.resource_version ≡ v.resource_version)
    (kept : is_to_be_deleted v.status.vrf_oper_status ≡ false) (details : String)
    (status : Bool) where
  abbrev set_up : VrfSetUp K.State
  set_up = set_up_vrf mtu text random K v m.tables m.kernel

  abbrev report : Component
  report = reported "lgm" details status (own_component "lgm" v.status.components)

  abbrev updating : Prog (Unit {0})
  updating =
      update_vrf_status c o.name o.resource_version o.notification_id (some set_up.meta) report

  abbrev host_after : Host kv K
  host_after = record {
    db = (run kv updating m.db).1;
    kernel = set_up.kernel;
    tables = set_up.tables;
  }

  handle_vrf-set_up :
      set_up.ending ≡ returned details status
      → handle_vrf kv c K mtu text random o m ≡ some host_after
  unfolding handle_vrf get_vrf
  handle_vrf-set_up ends =
      ground (arith, c.as_vrf-vrf v, eq_iff o.resource_version v.resource_version)

  -- The handler of the events of VRFs, for the stored version of a VRF that is not to be deleted:
  -- it sets the VRF up, and the database has the report of how that ended and the routing tables
  -- that the set-up leaves in the VRF, as UpdateVrfStatus puts them there. The set-up returns, the
  -- update of the database returns no error, and the module's component is no replay request.
  -- Neither name is that of a map of the store.
  pub handle_vrf-IsReported :
      (k s : String) (n : ℕ)
      → (v.name == "vpns") ≡ false
      → (v.name == "vrfs") ≡ false
      → (k == "vpns") ≡ false
      → (k == "vrfs") ≡ false
      → set_up.ending ≡ returned details status
      → report.replay ≡ false
      → (run kv updating m.db).0 ≡ done (ok tt)
      → (m' : Host kv K) × (handle_vrf kv c K mtu text random o m ≡ some m')
        × (m'.kernel ≡ set_up.kernel)
        × (m'.tables ≡ set_up.tables)
        × IsReported c report o.notification_id
            (updated (some set_up.meta) report v)
            (view kv m.db)
            (view kv m'.db)
            k
            s
            n
  handle_vrf-IsReported k s n nv nl kv' kl ends no_replay h = (
    host_after,
    handle_vrf-set_up ends,
    refl,
    refl,
    update_vrf_status-IsReported kv c o.name o.resource_version o.notification_id (some set_up.meta)
        report v m.db found k s n nv nl kv' kl (sym current) no_replay h,
  )

  failed_meta :
      is_grd v ≡ false → set_up.ending ≡ returned details false → set_up.meta ≡ tables_of (0 ∷ [])
  unfolding set_up_vrf
  failed_meta ordinary ends = ground arith

  kept_meta :
      set_up.meta ≡ tables_of (0 ∷ [])
      → (settled (updated (some set_up.meta) report v)).meta ≡ tables_of (0 ∷ [])
  unfolding parse_meta set_component_state
  kept_meta e = ground arith

  still_stored :
      set_up.meta ≡ tables_of (0 ∷ [])
      → (let v' = updated (some set_up.meta) report v in
          (if v'.name == v.name
            then if ends_vrf v' then none else some (Value.vrf (settled v'))
            else kv.content m.db.db v.name)
          ≡ some (Value.vrf (settled v')))
  unfolding parse_meta set_component_state
  still_stored e = ground (arith, eq_iff v.name v.name)

  -- A set-up that fails leaves the routing table 0 in the database, and the tear-down of a VRF
  -- without a VNI that has the stored metadata flushes that table, if it finds the device and the
  -- kernel accepts the call. The event is for the stored version of the VRF, which is not to be
  -- deleted and not the GRD; the set-up returns, the update of the database returns no error, the
  -- module's component is no replay request, and the name is not that of a map of the store.
  pub handle_vrf-flushes_0 :
      (v' : Vrf) (t : K.State)
      → is_grd v ≡ false
      → (v.name == "vpns") ≡ false
      → (v.name == "vrfs") ≡ false
      → status ≡ false
      → set_up.ending ≡ returned details status
      → report.replay ≡ false
      → (run kv updating m.db).0 ≡ done (ok tt)
      → v'.name ≡ v.name
      → v'.spec.vni ≡ none
      → v'.meta ≡ (settled (updated (some set_up.meta) report v)).meta
      → K.find_error t (path_base v.name) ≡ none
      → (K.perform t (route_flush_table "0")).0 ≡ none
      → (m' : Host kv K) × (rest : List Request) × (handle_vrf kv c K mtu text random o m ≡ some m')
        × (kv.content m'.db.db v.name
            ≡ some (Value.vrf (settled (updated (some set_up.meta) report v))))
        × (performed K (tear_down_vrf mtu text random v') t ≡ route_flush_table "0" ∷ rest)
  handle_vrf-flushes_0 v' t ordinary nv nl failed ends no_replay h named no_vni stored finds
        flushes =
      let (m', handled, moved, pooled, r) =
        handle_vrf-IsReported v.name "" 0 nv nl nv nl ends no_replay h in
      let meta = kept_meta (failed_meta ordinary (ends ∙ ap (returned details) failed)) in
      let (rest, e) =
        flushes_table K mtu text random v' t (rw named ordinary) no_vni (stored ∙ meta)
          (rw named finds) flushes in
      (
        m',
        rest,
        handled,
        r.stored ∙ still_stored (failed_meta ordinary (ends ∙ ap (returned details) failed)),
        e,
      )
