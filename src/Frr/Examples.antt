-- ===== src/Frr/Examples.antt =====
-- The theorems about the module of FRR, with daemons that accept every command.
use opi_evpn_bridge.Prelude.{
  ℕ, Bool, false, String, ◌≡◌, ◌↔◌, ◌⊎◌, ◌==◌, if◌then◌else◌, refl, arith, true, List, [], ◌∷◌,
  none, some, string_eq,
}
use opi_evpn_bridge.Prelude.Text.{decimal, path_base, cut, contains}
use opi_evpn_bridge.Component.{Component, check_replay_threshold, pending, error}
use opi_evpn_bridge.Infradb.Components.{down, to_be_deleted, set_component}
use opi_evpn_bridge.Infradb.Vrf.{Vrf}
use opi_evpn_bridge.Infradb.Store.{Value}
use opi_evpn_bridge.Infradb.Program.{Content, update}
use opi_evpn_bridge.Infradb.Examples.Objects.{codec, memory, empty, world, comp, vrf_of}
use opi_evpn_bridge.Linux.Report.{ObjectData, own_component, reported, retry_timer}
use opi_evpn_bridge.Frr.Session.{Frr, run_session, output, checked, check_frr_result}
use opi_evpn_bridge.Frr.Vrfs.{Decoder, set_up_vrf}
use opi_evpn_bridge.Frr.Svis.{Fmt}
use opi_evpn_bridge.Frr.Handlers.{Router, handle_vrf, frr_reported}
use opi_evpn_bridge.Frr.Handlers.Vrfs.{handle_vrf-tear_down_vrf}
use opi_evpn_bridge.Frr.PreReplay.{
  Files, Answers, handle_pre_replay, new_module_frr_action_handler, handle_pre_replay-backup,
}
use opi_evpn_bridge.Frr.Replay.{stored_failures, stored_failures-replay, handle_vrf-replay_started}

-- The state is the commands that have been sent.
abbrev daemons : Frr
daemons = record {
  State = List String;
  communicate = λ s d t. (output "frr# ", t ∷ s);
  save = λ s. s;
  to_lower = λ t. t;
}

abbrev decoder : Decoder
decoder = record { l2_vpn = λ t. none; vrf = λ t. none; texts = λ ts. "[]"; host_name = "frr" }

abbrev text : Fmt
text = record { error = λ e. "error"; ip_net = λ n. "10.0.0.1/24"; ip_bytes = λ n. "" }

abbrev event : ObjectData
event = record {
  name = "//network.opiproject.org/vrfs/red";
  resource_version = "1";
  notification_id = "n1";
}

-- Six failures.
abbrev six : List String
six = "a" ∷ "b" ∷ "c" ∷ "d" ∷ "e" ∷ "f" ∷ []

-- The components of a new VRF.
abbrev fresh : List Component
fresh = comp "lgm" pending ∷ comp "frr" pending ∷ []

abbrev failed : String → ℕ → Bool → Component
failed details timer replay = record {
  name = "frr";
  comp_status = error;
  details = details;
  timer = timer;
  replay = replay;
}

stored_failures-replay_example :
    ((frr_reported "g" false (own_component "frr" (stored_failures six fresh))).replay ≡ true)
    ↔ (◌≡◌ {A = ℕ} 6 6)
unfolding own_component
stored_failures-replay_example = stored_failures-replay six "g" fresh refl refl (omega arith)

abbrev red_name : String
red_name = "//network.opiproject.org/vrfs/red"

-- A VRF without a VNI that is to be deleted.
abbrev dying : Vrf
dying = vrf_of red_name none to_be_deleted (comp "frr" pending ∷ [])

abbrev router : Vrf → Router Content (List String)
router v = record { db = world (update empty red_name (Value.vrf v)); daemons = [] }

handle_vrf-tear_down_vrf_example :
    handle_vrf memory codec daemons 65000 decoder text event (router dying) ≡ none
unfolding path_base check_frr_result contains cut checked
handle_vrf-tear_down_vrf_example =
    handle_vrf-tear_down_vrf memory codec daemons 65000 decoder text event (router dying) dying refl
      refl refl refl "frr# " refl refl refl

-- A VRF whose set-up has failed six times.
abbrev failing : Vrf
failing =
    record (vrf_of red_name (some 100) down
      (comp "lgm" pending ∷ failed "f" 64000000000 false ∷ [])) {
        spec = record {
          vni = some 100;
          loopback_ip = some (record { ip = 167772161; len = 32 });
          vtep_ip = none;
        };
      }

abbrev refusal : String
refusal = "FRR: Error Executing frr config t vrf red vni 100 exit-vrf exit \n Error: error \n"

-- zebra refuses every command.
abbrev refusing : Frr
refusing = record daemons { communicate = λ s d t. (output "error", t ∷ s) }

handle_vrf-replay_started_example :
    (m' : Router Content (List String)) × (handle_vrf memory codec refusing 65000 decoder text event
        (router failing)
      ≡ some m')
    × (m'.db.db ≡ update empty red_name (Value.vrf failing))
    × (m'.db.trace.tasks ≡ [])
    × (m'.db.trace.statuses
        ≡ record {
          name = red_name;
          object_type = "vrf";
          resource_version = "1";
          notification_id = "n1";
          drop_task = true;
          component = failed refusal 128000000000 true;
        }
          ∷ [])
    × (m'.db.trace.replays ≡ "frr" ∷ [])
unfolding stored_failures path_base check_frr_result contains cut checked decimal frr_reported
    own_component check_replay_threshold reported retry_timer run_session set_up_vrf set_component
handle_vrf-replay_started_example =
    handle_vrf-replay_started memory codec refusing 65000 decoder text event (router failing)
      failing refl refl refl six fresh refusal refl refl refl refl refl

abbrev files : Files
files n =
    if n == "/etc/frr/frr.conf"
    then some "router bgp 65000"
    else if n == "/etc/frr/frr-basic.conf"
    then some ""
    else none

-- The new configuration cannot be written.
abbrev disk_full : Answers
disk_full = record {
  rename_error = none;
  read_error = none;
  write_error = some ("no space left on device", some "");
  owner_error = none;
  chown_error = none;
  restarts = true;
}

handle_pre_replay-backup_example :
    ((handle_pre_replay new_module_frr_action_handler disk_full files).1 "/etc/frr/frr.conf"
      ≡ some "router bgp 65000")
    ⊎ ((handle_pre_replay new_module_frr_action_handler disk_full files).1 "/etc/frr/frr.conf.bak"
        ≡ some "router bgp 65000")
unfolding handle_pre_replay
handle_pre_replay-backup_example =
    handle_pre_replay-backup new_module_frr_action_handler disk_full refl files "router bgp 65000"
      refl
