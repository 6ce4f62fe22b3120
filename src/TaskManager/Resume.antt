-- ===== src/TaskManager/Resume.antt =====
-- The order in which a task contacts its subscribers, over its returns to the queue.
use mathlib.Core.List.{append-nil}
use opi_evpn_bridge.Prelude.{
  ℕ, zero, suc, ◌+◌, ◌≡◌, refl, ap, sym, ◌∙◌, String, true, false, List, [], ◌∷◌, ◌++◌, arith,
  length, drop,
}
use opi_evpn_bridge.EventBus.{Subscriber}
use opi_evpn_bridge.TaskManager.{
  Task, Attempt, Verdict, finished, requeued, waiting, dropped, new_task, contact, process_task,
  is_acknowledged,
}

-- The subscribers that answer with success, up to the first attempt that ends otherwise.
abbrev pub acknowledged : List Subscriber → List Attempt → List Subscriber
acknowledged [] attempts = []
acknowledged (s ∷ subs) [] = []
acknowledged (s ∷ subs) (a ∷ attempts) = elim (is_acknowledged a) [
  | true ↦ s ∷ acknowledged subs attempts
  | false ↦ []
]

contact-finished :
    (t : Task) (i : ℕ) (subs : List Subscriber) (attempts : List Attempt)
    → (contact t i subs attempts).1 ≡ finished
    → acknowledged subs attempts ≡ subs
unfolding contact is_acknowledged
contact-finished t i [] attempts h = refl
contact-finished t i (s ∷ subs) [] h = cc
contact-finished t i (s ∷ subs) (a ∷ attempts) h =
    ground (arith, contact-finished (record t { system_timer = 1000000000 }) (suc i) subs attempts)

contact-subs :
    (t : Task) (i : ℕ) (subs : List Subscriber) (attempts : List Attempt)
    → (contact t i subs attempts).0.subs ≡ t.subs
unfolding contact
contact-subs t i [] attempts = refl
contact-subs t i (s ∷ subs) [] = refl
contact-subs t i (s ∷ subs) (a ∷ attempts) =
    ground (arith, contact-subs (record t { system_timer = 1000000000 }) (suc i) subs attempts)

contact-sub_index :
    (t : Task) (i n : ℕ) (subs : List Subscriber) (attempts : List Attempt)
    → (contact t i subs attempts).1 ≡ requeued n
    → (contact t i subs attempts).0.sub_index
      ≡ t.sub_index + i + length (acknowledged subs attempts)
unfolding contact is_acknowledged
contact-sub_index t i n [] attempts h = cc
contact-sub_index t i n (s ∷ subs) [] h = cc
contact-sub_index t i n (s ∷ subs) (a ∷ attempts) h =
    ground
      (arith, contact-sub_index (record t { system_timer = 1000000000 }) (suc i) n subs attempts)

acknowledged-drop :
    (subs : List Subscriber) (attempts : List Attempt)
    → acknowledged subs attempts ++ drop (length (acknowledged subs attempts)) subs ≡ subs
acknowledged-drop [] attempts = refl
acknowledged-drop (s ∷ subs) [] = refl
acknowledged-drop (s ∷ subs) (a ∷ attempts) = ground (arith, acknowledged-drop subs attempts)

drop-nil : (n : ℕ) → drop {A = Subscriber} n [] ≡ []
drop-nil zero = refl
drop-nil (suc n) = refl

drop-drop : (m n : ℕ) (subs : List Subscriber) → drop (m + n) subs ≡ drop n (drop m subs)
drop-drop zero n subs = ap (λ k. drop k subs) (omega arith)
drop-drop (suc m) n [] = drop-nil (suc m + n) ∙ sym (drop-nil n)
drop-drop (suc m) n (s ∷ subs) =
    let e : suc m + n ≡ suc (m + n) = omega arith in rw e (drop-drop m n subs)

-- A pass that ends with the task back in the queue leaves the list of subscribers as it is, and the
-- subscribers that acknowledged, followed by those that the next pass will contact, are exactly the
-- ones that this pass had to contact: none is skipped, and none that acknowledged is contacted anew.
pub process_task-requeued :
    (t : Task) (attempts : List Attempt) (n : ℕ)
    → (process_task t attempts).1 ≡ requeued n
    → ((process_task t attempts).0.subs ≡ t.subs)
      × (acknowledged (drop t.sub_index t.subs) attempts
            ++ drop (process_task t attempts).0.sub_index (process_task t attempts).0.subs
          ≡ drop t.sub_index t.subs)
unfolding process_task
process_task-requeued t attempts n h =
    let rest = drop t.sub_index t.subs in
    let k = length (acknowledged rest attempts) in
    let e : (contact t 0 rest attempts).0.sub_index ≡ t.sub_index + k =
      omega (arith, contact-sub_index t 0 n rest attempts h) in
    (
      contact-subs t 0 rest attempts,
      rw (e, contact-subs t 0 rest attempts, drop-drop t.sub_index k t.subs)
          (acknowledged-drop rest attempts),
    )

-- The passes of a task, one for each time that it is taken from the queue: how the last one ends,
-- and which subscribers have acknowledged, in order.
unfoldable pub passes : Task → List (List Attempt) → Verdict
passes t [] = waiting
passes t (attempts ∷ later) =
    let (t', v) = process_task t attempts in
    let rest = passes t' later in elim v [ requeued n ↦ rest | other ↦ other ]

unfoldable pub acknowledgements : Task → List (List Attempt) → List Subscriber
acknowledgements t [] = []
acknowledgements t (attempts ∷ later) =
    let (t', v) = process_task t attempts in
    let rest = acknowledgements t' later in
    acknowledged (drop t.sub_index t.subs) attempts ++ (elim v [ requeued n ↦ rest | _ ↦ [] ])

passes-finished_pass :
    (t : Task) (attempts : List Attempt) (later : List (List Attempt))
    → (passes (process_task t attempts).0 later ≡ finished
        → acknowledgements (process_task t attempts).0 later
          ≡ drop (process_task t attempts).0.sub_index (process_task t attempts).0.subs)
    → (v : Verdict) → (process_task t attempts).1 ≡ v
    → passes t (attempts ∷ later) ≡ finished
    → acknowledgements t (attempts ∷ later) ≡ drop t.sub_index t.subs
unfolding passes acknowledgements
passes-finished_pass t attempts later ih finished e h =
    rw (e, acknowledgements)
      (append-nil _
        ∙ contact-finished t 0 (drop t.sub_index t.subs) attempts (unfold process_task in e))
passes-finished_pass t attempts later ih (requeued n) e h =
    rw (e, acknowledgements, ih (rw (e, passes) at h)) ((process_task-requeued t attempts n e).1)
passes-finished_pass t attempts later ih (dropped b) e h = cc (rw (e, passes) at h)
passes-finished_pass t attempts later ih waiting e h = cc (rw (e, passes) at h)

passes-finished :
    (t : Task) (all : List (List Attempt))
    → passes t all ≡ finished
    → acknowledgements t all ≡ drop t.sub_index t.subs
unfolding passes acknowledgements
passes-finished t [] h = cc
passes-finished t (attempts ∷ later) h =
    passes-finished_pass t attempts later (passes-finished (process_task t attempts).0 later)
      (process_task t attempts).1 refl h

-- A new task that finishes, after however many returns to the queue, has been acknowledged by each
-- of its subscribers exactly once, in the order of the list.
pub new_task-finished :
    (name object_type resource_version : String) (subs : List Subscriber)
    (all : List (List Attempt))
    → passes (new_task name object_type resource_version subs) all ≡ finished
    → acknowledgements (new_task name object_type resource_version subs) all ≡ subs
unfolding new_task
new_task-finished name object_type resource_version subs all h = passes-finished _ all h
