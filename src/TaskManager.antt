-- ===== src/TaskManager.antt =====
-- pkg/infradb/taskmanager: the queue of tasks, and how processTasks takes one task through its
-- subscribers. Time, the identifiers of notifications and what the subscribers do are arguments:
-- an `Attempt` is what happens while one subscriber is contacted. Times are in
-- nanoseconds.
pub mod Resume
pub mod Backoff
mod Examples
use opi_evpn_bridge.Prelude.{
  ℕ, zero, suc, ◌+◌, ◌*◌, ◌%◌, ◌^◌, String, Bool, true, false, List, [], ◌∷◌, ◌++◌, Option, none,
  some, ltb, ◌==◌, string_eq, length, drop, if◌then◌else◌,
}
use opi_evpn_bridge.Component.{Component, CompStatus}
use opi_evpn_bridge.EventBus.{Subscriber}

pub record Task : Type 0 where
  pub name : String
  pub object_type : String
  pub resource_version : String
  pub sub_index : ℕ
  pub system_timer : ℕ
  pub subs : List Subscriber

pub record TaskStatus : Type 0 where
  pub name : String
  pub object_type : String
  pub resource_version : String
  pub notification_id : String
  pub drop_task : Bool
  pub component : Component

unfoldable pub new_task : String → String → String → List Subscriber → Task
new_task name object_type resource_version subs = record {
  name = name;
  object_type = object_type;
  resource_version = resource_version;
  sub_index = 0;
  system_timer = 1000000000;
  subs = subs;
}

-- The buffered channel of taskmanager/utils.go; a sender on a full channel waits (`none`), and so
-- does a receiver on an empty one.
pub record TaskQueue : Type 0 where
  pub channel : List Task

abbrev pub capacity : ℕ
capacity = 200

unfoldable pub enqueue : Task → TaskQueue → Option TaskQueue
enqueue task q =
    if ltb (length q.channel) capacity
    then some (record { channel = q.channel ++ task ∷ [] })
    else none

first : List Task → Option (Task × TaskQueue)
first [] = none
first (task ∷ rest) = some (task, record { channel = rest })

unfoldable pub dequeue : TaskQueue → Option (Task × TaskQueue)
unfolding first
dequeue q = first q.channel

-- What happens while one subscriber is contacted: the identifier of the notification, whether the
-- subscriber's channel takes it, and the statuses that arrive before the timeout, in order.
pub record Attempt : Type 0 where
  pub notification_id : String
  pub is_published : Bool
  pub received : List TaskStatus

-- The inner loop: the first status with this notification's identifier, `none` on the timeout.
unfoldable pub await : String → List TaskStatus → Option TaskStatus
await notification_id [] = none
await notification_id (st ∷ rest) =
    if st.notification_id == notification_id then some st else await notification_id rest

-- The reply to an attempt, if its notification was taken and answered in time.
unfoldable pub reply : Attempt → Option TaskStatus
unfolding await
reply a = if a.is_published then await a.notification_id a.received else none

-- How one pass of a task ends: all its subscribers have succeeded; or it goes back to the queue
-- after a time; or it is dropped (after the replay, if one was asked for). `waiting`: the
-- environment has not yet done anything with the next subscriber.
pub data Verdict : Type 0 where
  finished : Verdict
  requeued : ℕ → Verdict
  dropped : Bool → Verdict
  waiting : Verdict

-- `task.systemTimer *= 2`, of a duration of 64 bits.
abbrev pub doubled : ℕ → ℕ
doubled timer = timer * 2 % 2 ^ 64

abbrev backed_off : Task → ℕ → Task
backed_off t i = record t { sub_index = t.sub_index + i; system_timer = doubled t.system_timer }

-- checkStatus, of a status that is not nil: whether the task is dropped.
unfoldable pub check_status : TaskStatus → Bool
check_status st = st.drop_task

after_status : Task → ℕ → TaskStatus → CompStatus → Task × Verdict → Task × Verdict
after_status t i st CompStatus.success rest = rest
after_status t i st CompStatus.error rest =
    (record t { sub_index = t.sub_index + i }, requeued st.component.timer)
after_status t i st _ rest = (t, dropped false)

-- The loop over `task.subs[task.subIndex:]`; `i` counts the subscribers before, and the rest of
-- the loop is made with the timer set anew.
unfoldable pub contact : Task → ℕ → List Subscriber → List Attempt → Task × Verdict
unfolding reply check_status after_status
contact t i [] attempts = (t, finished)
contact t i (s ∷ subs) [] = (t, waiting)
contact t i (s ∷ subs) (a ∷ attempts) =
    let rest = contact (record t { system_timer = 1000000000 }) (suc i) subs attempts in
    elim (reply a) [
      | none ↦ (backed_off t i, requeued (doubled t.system_timer))
      | some st ↦
          if check_status st
          then (t, dropped st.component.replay)
          else after_status (record t { system_timer = 1000000000 }) i st st.component.comp_status
              rest
    ]

-- One pass: a task is taken from the queue, and contacts the subscribers that are left.
unfoldable pub process_task : Task → List Attempt → Task × Verdict
process_task t attempts = contact t 0 (drop t.sub_index t.subs) attempts

-- The subscriber has answered that it has done its part.
unfoldable pub is_acknowledged : Attempt → Bool
unfolding reply check_status
is_acknowledged a = elim (reply a) [
  | none ↦ false
  | some st ↦
      if check_status st
      then false
      else elim st.component.comp_status [ CompStatus.success ↦ true | _ ↦ false ]
]
