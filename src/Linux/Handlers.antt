-- ===== src/Linux/Handlers.antt =====
-- The handlers of pkg/LinuxGeneralModule/lgm.go and pkg/LinuxCIModule/lci.go: what a module does on
-- an event of the bus. `mtu` is `ipMtu`; `random` is as in Vrfs.
pub mod Bridges
pub mod Vrfs
use opi_evpn_bridge.Prelude.{
  ℕ, String, Bool, true, false, not, List, [], ◌∷◌, Option, none, some, ◌==◌, string_eq,
  if◌then◌else◌,
}
use opi_evpn_bridge.Prelude.Text.{sprint}
use opi_evpn_bridge.IdPool.{IdPool}
use opi_evpn_bridge.Component.{Component}
use opi_evpn_bridge.Infradb.Errors.{Result, ok, err, Error}
use opi_evpn_bridge.Infradb.Components.{is_to_be_deleted}
use opi_evpn_bridge.Infradb.LogicalBridge.{LogicalBridge}
use opi_evpn_bridge.Infradb.Vrf.{Vrf, VrfMetadata}
use opi_evpn_bridge.Infradb.Svi.{Svi}
use opi_evpn_bridge.Infradb.BridgePort.{BridgePort}
use opi_evpn_bridge.Infradb.Store.{Codec, Gokv}
use opi_evpn_bridge.Infradb.Program.{Prog, World, run}
use opi_evpn_bridge.Infradb.Bridges.{update_lb_status}
use opi_evpn_bridge.Infradb.Vrfs.{update_vrf_status}
use opi_evpn_bridge.Infradb.Svis.{update_svi_status}
use opi_evpn_bridge.Infradb.Ports.{update_bp_status}
use opi_evpn_bridge.Infradb.Reads.{get_lb, get_vrf, get_svi, get_bp}
use opi_evpn_bridge.Linux.Kernel.{Kernel}
use opi_evpn_bridge.Linux.Plan.{Plan, Ending, returned, panicked, run_plan}
use opi_evpn_bridge.Linux.Report.{Fmt, ObjectData, failed_component, own_component, reported}
use opi_evpn_bridge.Linux.Bridges.{set_up_bridge, tear_down_bridge}
use opi_evpn_bridge.Linux.Vrfs.{VrfSetUp, set_up_vrf, tear_down_vrf}
use opi_evpn_bridge.Linux.Svis.{set_up_svi, tear_down_svi}
use opi_evpn_bridge.Linux.Ports.{set_up_bp, tear_down_bp}

-- What the modules share: the database, the kernel, and the pool `RouteTableGen`.
pub record Machine (D S : Type 0) : Type 0 where
  pub db : World D
  pub kernel : S
  pub tables : IdPool String String

abbrev pub Host : Gokv → Kernel → Type 0
Host kv K = Machine kv.Db K.State

module _ (kv : Gokv) (c : Codec) (K : Kernel) (mtu : ℕ) (text : Fmt) (random : List ℕ) where
  -- An update of the database, whose error is only logged.
  abbrev pub update : Prog (Unit {0}) → Host kv K → Host kv K
  update p m = record m { db = (run kv p m.db).1 }

  -- The report of a set-up or a tear-down; `none` is a panic, which ends the process.
  abbrev pub conclude :
      String → Component → (Component → Prog (Unit {0})) → Ending → Host kv K → Option (Host kv K)
  conclude name old report panicked m = none
  conclude name old report (returned details status) m =
      some (update (report (reported name details status old)) m)

  abbrev pub carry_out :
      String → Component → (Component → Prog (Unit {0})) → Plan → Host kv K → Option (Host kv K)
  carry_out name old report p m =
      let (ending, s) = run_plan K p m.kernel in
      conclude name old report ending (record m { kernel = s })

  abbrev pub bridge_of : Host kv K → String → Result LogicalBridge
  bridge_of m name = get_lb kv c m.db.db name

  abbrev get_failed : String → Error → String → String
  get_failed what e after = sprint (what ∷ " error: " ∷ text.error e ∷ after ∷ "\n" ∷ [])

  abbrev mismatch : String → String → String → String → String
  mismatch module_name what version stored = sprint (
      module_name ∷ ": Mismatch in resoruce version " ∷ version ∷ "\n and " ∷ what
      ∷ " resource version " ∷ stored ∷ "\n" ∷ [])

  handle_found_lb : ObjectData → Host kv K → LogicalBridge → Option (Host kv K)
  handle_found_lb o m lb =
      let report = update_lb_status c o.name o.resource_version o.notification_id none in
      if not (o.resource_version == lb.resource_version)
      then some (
          update
            (report
              (failed_component "lgm" (mismatch "LGM" "lb" o.resource_version lb.resource_version)))
            m)
      else carry_out "lgm" (own_component "lgm" lb.status.components) report
          (if is_to_be_deleted lb.status.lb_oper_status
            then tear_down_bridge lb
            else set_up_bridge mtu text lb)
          m

  -- handleLB
  unfoldable pub handle_lb : ObjectData → Host kv K → Option (Host kv K)
  unfolding handle_found_lb
  handle_lb o m = elim (bridge_of m o.name) [
    | err e ↦ some (
        update
          (update_lb_status c o.name o.resource_version o.notification_id none
            (failed_component "lgm" (get_failed "LGM: GetLB" e (sprint (" " ∷ o.name ∷ [])))))
          m)
    | ok lb ↦ handle_found_lb o m lb
  ]

  handle_found_svi : ObjectData → Host kv K → Svi → Option (Host kv K)
  handle_found_svi o m svi =
      let report = update_svi_status c o.name o.resource_version o.notification_id none in
      if not (o.resource_version == svi.resource_version)
      then some (
          update
            (report (
              failed_component "lgm"
                (mismatch "LGM" "svi" o.resource_version svi.resource_version)))
            m)
      else carry_out "lgm" (own_component "lgm" svi.status.components) report
          (if is_to_be_deleted svi.status.svi_oper_status
            then tear_down_svi mtu text (bridge_of m) svi
            else set_up_svi mtu text (bridge_of m) svi)
          m

  -- handlesvi, which reports no details when the SVI is not read.
  unfoldable pub handle_svi : ObjectData → Host kv K → Option (Host kv K)
  unfolding handle_found_svi
  handle_svi o m = elim (get_svi kv c m.db.db o.name) [
    | err e ↦ some (
        update
          (update_svi_status c o.name o.resource_version o.notification_id none
            (failed_component "lgm" ""))
          m)
    | ok svi ↦ handle_found_svi o m svi
  ]

  set_up_found_vrf : ObjectData → Host kv K → Vrf → Option (Host kv K)
  set_up_found_vrf o m v =
      let up = set_up_vrf mtu text random K v m.tables m.kernel in
      conclude "lgm" (own_component "lgm" v.status.components)
        (update_vrf_status c o.name o.resource_version o.notification_id (some up.meta)) up.ending
        (record m { kernel = up.kernel; tables = up.tables })

  handle_found_vrf : ObjectData → Host kv K → Vrf → Option (Host kv K)
  unfolding set_up_found_vrf
  handle_found_vrf o m v =
      let report = update_vrf_status c o.name o.resource_version o.notification_id none in
      if not (o.resource_version == v.resource_version)
      then some (
          update
            (report
              (failed_component "lgm" (mismatch "LGM" "vrf" o.resource_version v.resource_version)))
            m)
      else if is_to_be_deleted v.status.vrf_oper_status
      then carry_out "lgm" (own_component "lgm" v.status.components) report
          (tear_down_vrf mtu text random v) m
      else set_up_found_vrf o m v

  -- handlevrf, which reports the metadata of a VRF that it has set up, or failed to.
  unfoldable pub handle_vrf : ObjectData → Host kv K → Option (Host kv K)
  unfolding handle_found_vrf
  handle_vrf o m = elim (get_vrf kv c m.db.db o.name) [
    | err e ↦ some (
        update
          (update_vrf_status c o.name o.resource_version o.notification_id none
            (failed_component "lgm" (get_failed "LGM: GetVRF" e (sprint (" " ∷ o.name ∷ [])))))
          m)
    | ok v ↦ handle_found_vrf o m v
  ]

  handle_found_bp : ObjectData → Host kv K → BridgePort → Option (Host kv K)
  handle_found_bp o m bp =
      let report = update_bp_status c o.name o.resource_version o.notification_id in
      let old = own_component "lci" bp.status.components in
      if not (o.resource_version == bp.resource_version)
      then some (
          update
            (report none
              (failed_component "lci" (mismatch "LVM" "bp" o.resource_version bp.resource_version)))
            m)
      else if is_to_be_deleted bp.status.bp_oper_status
      then carry_out "lci" old (report none) (tear_down_bp text (bridge_of m) bp) m
      else carry_out "lci" old (report (some bp.meta)) (set_up_bp text (bridge_of m) bp) m

  -- handlebp
  unfoldable pub handle_bp : ObjectData → Host kv K → Option (Host kv K)
  unfolding handle_found_bp
  handle_bp o m = elim (get_bp kv c m.db.db o.name) [
    | err e ↦ some (
        update
          (update_bp_status c o.name o.resource_version o.notification_id none
            (failed_component "lci" (get_failed "LCI : GetBP" e "")))
          m)
    | ok bp ↦ handle_found_bp o m bp
  ]

  -- HandleEvent of the general module, which ignores the events of other kinds.
  unfoldable pub handle_event : String → ObjectData → Host kv K → Option (Host kv K)
  handle_event event_type o m =
      if event_type == "vrf"
      then handle_vrf o m
      else if event_type == "svi"
      then handle_svi o m
      else if event_type == "logical-bridge"
      then handle_lb o m
      else some m

  -- HandleEvent of the CI module
  unfoldable pub handle_ci_event : String → ObjectData → Host kv K → Option (Host kv K)
  handle_ci_event event_type o m = if event_type == "bridge-port" then handle_bp o m else some m
