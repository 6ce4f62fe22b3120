-- ===== src/Frr/Handlers.antt =====
-- The handlers of pkg/frr/frr.go: what the module does on an event of the bus.
pub mod Vrfs
use opi_evpn_bridge.Prelude.{
  ℕ, String, Bool, true, false, not, List, [], ◌∷◌, Option, none, some, ◌==◌, string_eq,
  if◌then◌else◌,
}
use opi_evpn_bridge.Prelude.Text.{sprint}
use opi_evpn_bridge.Component.{Component, check_replay_threshold}
use opi_evpn_bridge.Infradb.Errors.{Result, ok, err}
use opi_evpn_bridge.Infradb.Components.{is_to_be_deleted}
use opi_evpn_bridge.Infradb.Vrf.{Vrf}
use opi_evpn_bridge.Infradb.Svi.{Svi}
use opi_evpn_bridge.Infradb.Store.{Codec, Gokv}
use opi_evpn_bridge.Infradb.Program.{Prog, World, run}
use opi_evpn_bridge.Infradb.Vrfs.{update_vrf_status}
use opi_evpn_bridge.Infradb.Svis.{update_svi_status}
use opi_evpn_bridge.Infradb.Reads.{get_lb, get_vrf, get_svi}
use opi_evpn_bridge.Linux.Plan.{Ending, returned, panicked}
use opi_evpn_bridge.Linux.Report.{ObjectData, failed_component, own_component, reported}
use opi_evpn_bridge.Frr.Session.{Session, Frr, run_session}
use opi_evpn_bridge.Frr.Vrfs.{Decoder, set_up_vrf, tear_down_vrf}
use opi_evpn_bridge.Frr.Svis.{Fmt, set_up_svi, tear_down_svi}

-- replayThreshold, of 64 seconds.
abbrev pub replay_threshold : ℕ
replay_threshold = 64000000000

-- What the module reports of a set-up or a tear-down, a request for a replay included.
unfoldable pub frr_reported : String → Bool → Component → Component
frr_reported details status old =
    check_replay_threshold replay_threshold (reported "frr" details status old)

-- What the module works on: the database and the daemons.
pub record Router (D S : Type 0) : Type 0 where
  pub db : World D
  pub daemons : S

module _ (kv : Gokv) (c : Codec) (F : Frr) (localas : ℕ) (decoder : Decoder) (text : Fmt) where
  -- An update of the database, whose error is only logged.
  abbrev pub update : Prog (Unit {0}) → Router kv.Db F.State → Router kv.Db F.State
  update p m = record m { db = (run kv p m.db).1 }

  -- `none` is a panic, which ends the process.
  conclude :
      Component
      → (Component → Prog (Unit {0}))
      → Ending
      → Router kv.Db F.State
      → Option (Router kv.Db F.State)
  conclude old report panicked m = none
  conclude old report (returned details status) m =
      some (update (report (frr_reported details status old)) m)

  abbrev carry_out :
      Component
      → (Component → Prog (Unit {0}))
      → Session
      → Router kv.Db F.State
      → Option (Router kv.Db F.State)
  carry_out old report p m =
      let (ending, s) = run_session F p m.daemons in
      conclude old report ending (record m { daemons = s })

  abbrev mismatch : String → String → String → String
  mismatch what version stored = sprint (
      "FRR: Mismatch in resoruce version " ∷ version ∷ "\n and " ∷ what ∷ " resource version "
      ∷ stored ∷ "\n" ∷ [])

  handle_found_svi : ObjectData → Router kv.Db F.State → Svi → Option (Router kv.Db F.State)
  unfolding conclude
  handle_found_svi o m svi =
      let report = update_svi_status c o.name o.resource_version o.notification_id none in
      let get = get_lb kv c m.db.db in
      if not (o.resource_version == svi.resource_version)
      then some (
          update
            (report
              (failed_component "frr" (mismatch "svi" o.resource_version svi.resource_version)))
            m)
      else carry_out (own_component "frr" svi.status.components) report
          (if is_to_be_deleted svi.status.svi_oper_status
            then tear_down_svi localas text get svi
            else set_up_svi localas text get svi)
          m

  -- handlesvi
  unfoldable pub handle_svi : ObjectData → Router kv.Db F.State → Option (Router kv.Db F.State)
  unfolding handle_found_svi
  handle_svi o m = elim (get_svi kv c m.db.db o.name) [
    | err e ↦ some (
        update
          (update_svi_status c o.name o.resource_version o.notification_id none (
            failed_component "frr"
              (sprint ("GetSvi error: " ∷ text.error e ∷ " " ∷ o.name ∷ "\n" ∷ []))))
          m)
    | ok svi ↦ handle_found_svi o m svi
  ]

  handle_found_vrf : ObjectData → Router kv.Db F.State → Vrf → Option (Router kv.Db F.State)
  unfolding conclude
  handle_found_vrf o m v =
      let report = update_vrf_status c o.name o.resource_version o.notification_id none in
      if not (o.resource_version == v.resource_version)
      then some (
          update
            (report (failed_component "frr" (mismatch "vrf" o.resource_version v.resource_version)))
            m)
      else carry_out (own_component "frr" v.status.components) report
          (if is_to_be_deleted v.status.vrf_oper_status
            then tear_down_vrf localas decoder v
            else set_up_vrf localas decoder v)
          m

  -- handlevrf
  unfoldable pub handle_vrf : ObjectData → Router kv.Db F.State → Option (Router kv.Db F.State)
  unfolding handle_found_vrf
  handle_vrf o m = elim (get_vrf kv c m.db.db o.name) [
    | err e ↦ some (
        update
          (update_vrf_status c o.name o.resource_version o.notification_id none (
            failed_component "frr"
              (sprint ("GetVRF error: " ∷ text.error e ∷ " " ∷ o.name ∷ "\n" ∷ []))))
          m)
    | ok v ↦ handle_found_vrf o m v
  ]

  -- HandleEvent, which only logs other types of events.
  unfoldable pub handle_event :
      String → ObjectData → Router kv.Db F.State → Option (Router kv.Db F.State)
  unfolding handle_vrf handle_svi
  handle_event event_type o m =
      if event_type == "vrf"
      then handle_vrf o m
      else if event_type == "svi"
      then handle_svi o m
      else some m
