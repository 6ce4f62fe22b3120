-- ===== src/TaskManager/Examples.antt =====
-- A task for two subscribers.
use opi_evpn_bridge.Prelude.Int.{pos}
use opi_evpn_bridge.Prelude.{ℕ, ◌≡◌, refl, true, false, String, List, [], ◌∷◌, ◌++◌, drop}
use opi_evpn_bridge.Component.{CompStatus, pending_component}
use opi_evpn_bridge.EventBus.{Subscriber}
use opi_evpn_bridge.TaskManager.{
  Task, Attempt, new_task, contact, reply, await, process_task, is_acknowledged,
}
use opi_evpn_bridge.TaskManager.Resume.{
  acknowledged, acknowledgements, passes, process_task-requeued, new_task-finished,
}

abbrev frr : Subscriber
frr = record { id = 0; name = "frr"; priority = pos 1 }

abbrev lgm : Subscriber
lgm = record { id = 1; name = "lgm"; priority = pos 2 }

abbrev both : List Subscriber
both = frr ∷ lgm ∷ []

abbrev task : Task
task = new_task "red" "vrf" "1" both

-- An answer to the notification `n`.
abbrev answer : String → CompStatus → ℕ → Attempt
answer n status timer = record {
  notification_id = n;
  is_published = true;
  received =
      record {
        name = "red";
        object_type = "vrf";
        resource_version = "1";
        notification_id = n;
        drop_task = false;
        component = record (pending_component "c") { comp_status = status; timer = timer };
      }
      ∷ [];
}

abbrev silent : Attempt
silent = record { notification_id = "n"; is_published = true; received = [] }

abbrev one_failure : List Attempt
one_failure = answer "n1" CompStatus.success 0 ∷ answer "n2" CompStatus.error 4 ∷ []

process_task-requeued_example :
    ((process_task task one_failure).0.subs ≡ both)
    × (acknowledged both one_failure
          ++ drop (process_task task one_failure).0.sub_index (process_task task one_failure).0.subs
        ≡ both)
unfolding process_task contact reply await new_task is_acknowledged
process_task-requeued_example = process_task-requeued task one_failure 4 refl

new_task-finished_example :
    acknowledgements task (one_failure ∷ (answer "n3" CompStatus.success 0 ∷ []) ∷ []) ≡ both
unfolding process_task contact reply await new_task is_acknowledged passes
new_task-finished_example =
    new_task-finished "red" "vrf" "1" both
      (one_failure ∷ (answer "n3" CompStatus.success 0 ∷ []) ∷ []) refl
