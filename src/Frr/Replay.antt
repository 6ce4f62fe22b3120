-- ===== src/Frr/Replay.antt =====
-- When the FRR module asks for a replay of the database.
use text.Mathlib.TextEquality.{eq_iff}
use native.Mathlib.Nat.{pow-le-pow_right}
use opi_evpn_bridge.Prelude.{
  ◌++◌, sym, false, ◌&&◌, not, length-append, some, none, if◌then◌else◌, ◌==◌, string_eq, ℕ, ◌*◌,
  ◌^◌, ◌≤◌, ◌≡◌, ◌↔◌, refl, ap, ◌∙◌, String, true, List, [], ◌∷◌, arith, length, ltb, inl, inr,
  Bool-cases, leb,
}
use opi_evpn_bridge.Component.{Component, check_replay_threshold}
use opi_evpn_bridge.Infradb.Components.{is_to_be_deleted, set_component}
use opi_evpn_bridge.Infradb.Vrf.{Vrf}
use opi_evpn_bridge.Infradb.Store.{Codec, Gokv, vrf}
use opi_evpn_bridge.Infradb.Program.{run}
use opi_evpn_bridge.Infradb.Vrfs.{update_vrf_status}
use opi_evpn_bridge.Infradb.Vrfs.Status.{update_vrf_status-dropped}
use opi_evpn_bridge.Infradb.Reads.{get_vrf}
use opi_evpn_bridge.Linux.Plan.{returned}
use opi_evpn_bridge.Linux.Report.{ObjectData, own_component, retry_timer, reported}
use opi_evpn_bridge.Frr.Session.{Session, Frr, run_session}
use opi_evpn_bridge.Frr.Vrfs.{Decoder, set_up_vrf, tear_down_vrf}
use opi_evpn_bridge.Frr.Svis.{Fmt}
use opi_evpn_bridge.Linux.Report.Own.{count_name, own_component-set_component}
use opi_evpn_bridge.Linux.Report.Timers.{after_failures, after_failures-timer}
use opi_evpn_bridge.Frr.Handlers.{Router, handle_vrf, frr_reported, replay_threshold}

-- The component that the last of some failed reports gives, one for each of the texts, where every
-- report but the last is stored.
frr_failures : List String → Component → Component
frr_failures [] c = c
frr_failures (d ∷ ds) c = frr_failures ds (frr_reported d false c)

same_timer :
    (ds : List String) (c c' : Component)
    → c.timer ≡ c'.timer
    → (frr_failures ds c).timer ≡ (after_failures "frr" ds c').timer
unfolding frr_failures after_failures frr_reported check_replay_threshold reported
same_timer [] c c' h = h
same_timer (d ∷ ds) c c' h =
    same_timer ds (frr_reported d false c) (reported "frr" d false c') (ap retry_timer h)

last_replay :
    (d : String) (ds : List String) (c : Component)
    → (frr_failures (d ∷ ds) c).replay ≡ ltb replay_threshold (frr_failures (d ∷ ds) c).timer
unfolding frr_failures frr_reported check_replay_threshold
last_replay d [] c = refl
last_replay d (d' ∷ ds) c = last_replay d' ds (frr_reported d false c)

powers : (i j : ℕ) → i ≤ j → 2 ^ i ≤ 2 ^ j
powers i j h = pow-le-pow_right (omega arith) h

threshold : (n : ℕ) → ltb 64000000000 (2000000000 * 2 ^ n) ≡ leb 6 n
threshold n = elim (Bool-cases (leb 6 n)) [
  | inl e ↦ let big = powers 6 n (ground (arith, e)) in ground (arith, big)
  | inr e ↦ let small = powers n 5 (ground (arith, e)) in ground (arith, small)
]

frr_failures-replay :
    (d : String) (ds : List String) (c : Component)
    → c.timer ≡ 0
    → length ds ≤ 6
    → ((frr_failures (d ∷ ds) c).replay ≡ true) ↔ (length ds ≡ 6)
frr_failures-replay d ds c h k =
    let t =
      same_timer (d ∷ ds) c c refl ∙ (after_failures-timer "frr" d ds c h (omega (arith, k))).0 in
    let e : (frr_failures (d ∷ ds) c).replay ≡ leb 6 (length ds) =
      last_replay d ds c ∙ ap (ltb replay_threshold) t ∙ threshold (length ds) in
    (λ r. ground (arith, e, r, k), λ b. ground (arith, e, b))

frr_failures-append :
    (ds : List String) (d : String) (c : Component)
    → frr_failures (ds ++ d ∷ []) c ≡ frr_reported d false (frr_failures ds c)
unfolding frr_failures
frr_failures-append [] d c = refl
frr_failures-append (x ∷ ds) d c = frr_failures-append ds d (frr_reported x false c)

frr_reported_name : (d : String) (c : Component) → (frr_reported d false c).name ≡ "frr"
unfolding frr_reported check_replay_threshold reported
frr_reported_name d c = refl

-- The components of an object after one failed report of the module for each of the texts, each of
-- which is made from the components that the one before has left, and is stored.
unfoldable pub stored_failures : List String → List Component → List Component
stored_failures [] cs = cs
stored_failures (d ∷ ds) cs =
    stored_failures ds (set_component (frr_reported d false (own_component "frr" cs)) cs)

own_component-stored_failures :
    (ds : List String) (cs : List Component)
    → count_name "frr" cs ≡ 1
    → own_component "frr" (stored_failures ds cs) ≡ frr_failures ds (own_component "frr" cs)
unfolding stored_failures frr_failures
own_component-stored_failures [] cs one = refl
own_component-stored_failures (d ∷ ds) cs one =
    let r = frr_reported d false (own_component "frr" cs) in
    let (own, still) =
      own_component-set_component "frr" r cs (frr_reported_name d (own_component "frr" cs)) one in
    own_component-stored_failures ds (set_component r cs) still ∙ ap (frr_failures ds) own

append_replay :
    (ds : List String) (d : String) (c : Component)
    → c.timer ≡ 0
    → length ds ≤ 6
    → ((frr_failures (ds ++ d ∷ []) c).replay ≡ true) ↔ (length ds ≡ 6)
append_replay [] d c h k = frr_failures-replay d [] c h (omega arith)
append_replay (x ∷ ds) d c h k =
    let n = length-append ds (d ∷ []) in
    let (there, back) = frr_failures-replay x (ds ++ d ∷ []) c h (omega (arith, n, k)) in
    (λ r. omega (arith, n, there r), λ e. back (omega (arith, n, e)))

-- An object has one component of FRR, without a timer, and the module of FRR fails again and again.
-- Where up to six of its failed reports, each made from the one before, have been stored, the next
-- one asks for a replay exactly if they were six: so none of the six has asked for one.
pub stored_failures-replay :
    (ds : List String) (d : String) (cs : List Component)
    → (own_component "frr" cs).timer ≡ 0
    → count_name "frr" cs ≡ 1
    → length ds ≤ 6
    → ((frr_reported d false (own_component "frr" (stored_failures ds cs))).replay ≡ true)
      ↔ (length ds ≡ 6)
stored_failures-replay ds d cs t one k =
    let c = own_component "frr" cs in
    let e : frr_failures (ds ++ d ∷ []) c
        ≡ frr_reported d false (own_component "frr" (stored_failures ds cs)) =
      frr_failures-append ds d c
      ∙ ap (frr_reported d false) (sym (own_component-stored_failures ds cs one)) in
    rw (← e) (append_replay ds d c t k)

module _ (kv : Gokv) (c : Codec) (F : Frr) (localas : ℕ) (decoder : Decoder) (text : Fmt)
    (o : ObjectData) (m : Router kv.Db F.State) (v : Vrf)
    (found : kv.content m.db.db o.name ≡ some (vrf v))
    (readable : kv.get_error m.db.db o.name ≡ none)
    (current : o.resource_version ≡ v.resource_version) where
  -- What handlevrf runs on the daemons.
  abbrev session : Session
  session =
      if is_to_be_deleted v.status.vrf_oper_status
      then tear_down_vrf localas decoder v
      else set_up_vrf localas decoder v

  -- The report of a failure, and what the handler leaves once it is made.
  abbrev pub failure : String → Component
  failure detail = frr_reported detail false (own_component "frr" v.status.components)

  abbrev failure_reported : String → Router kv.Db F.State
  failure_reported detail = record {
    db =
        (run kv
          (update_vrf_status c o.name o.resource_version o.notification_id none (failure detail))
          m.db).1;
    daemons = (run_session F session m.daemons).1;
  }

  handle_vrf-failed :
      (detail : String)
      → (run_session F session m.daemons).0 ≡ returned detail false
      → handle_vrf kv c F localas decoder text o m ≡ some (failure_reported detail)
  unfolding handle_vrf get_vrf
  handle_vrf-failed detail failed =
      ground (arith, c.as_vrf-vrf v, eq_iff o.resource_version v.resource_version, failed)

  -- Where the components of a VRF are what six stored failed reports of FRR have made of a single
  -- component without a timer, and the set-up or the tear-down of the VRF fails once more, the module
  -- of FRR starts a replay: the database is as before, so that the failure is not stored, no task is
  -- added, and the task manager is told to drop the task. The VRF is there and can be read, and the
  -- event is about its stored version.
  pub handle_vrf-replay_started :
      (ds : List String) (cs : List Component) (detail : String)
      → (own_component "frr" cs).timer ≡ 0
      → count_name "frr" cs ≡ 1
      → length ds ≡ 6
      → v.status.components ≡ stored_failures ds cs
      → (run_session F session m.daemons).0 ≡ returned detail false
      → (m' : Router kv.Db F.State) × (handle_vrf kv c F localas decoder text o m ≡ some m')
        × (m'.db.db ≡ m.db.db)
        × (m'.db.trace.tasks ≡ m.db.trace.tasks)
        × (m'.db.trace.statuses
            ≡ m.db.trace.statuses
              ++ record {
                name = v.name;
                object_type = "vrf";
                resource_version = v.resource_version;
                notification_id = o.notification_id;
                drop_task = true;
                component = failure detail;
              }
                ∷ [])
        × (m'.db.trace.replays ≡ m.db.trace.replays ++ "frr" ∷ [])
  handle_vrf-replay_started ds cs detail t one six comps failed =
      let name = frr_reported_name detail (own_component "frr" v.status.components) in
      let replay : (failure detail).replay ≡ true =
        rw comps ((stored_failures-replay ds detail cs t one (omega (arith, six))).1 six) in
      let asks : (v.resource_version == o.resource_version && not (failure detail).replay) ≡ false =
        ground (arith, replay) in
      let (ended, db, tasks, statuses, replays) =
        update_vrf_status-dropped kv c o.name o.resource_version o.notification_id none
          (failure detail) v m.db found asks readable in
      (
        failure_reported detail,
        handle_vrf-failed detail failed,
        db,
        tasks,
        statuses,
        ground (arith, replays, name, current, eq_iff v.resource_version o.resource_version),
      )
