-- ===== src/TaskManager/Backoff.antt =====
-- How long a task waits before it is contacted again.
use opi_evpn_bridge.Prelude.{
  ℕ, suc, ◌*◌, ◌^◌, ◌<◌, ◌≡◌, List, [], ◌∷◌, none, arith, length, drop, All, ap, ◌∙◌,
}
use native.Mathlib.Nat.{pow-succ', mul_assoc, le-mul_of_pos_right, one-le-pow}
use opi_evpn_bridge.EventBus.{Subscriber}
use opi_evpn_bridge.TaskManager.{Task, Attempt, requeued, reply, contact, process_task, doubled}

doubled_lem :
    (a n : ℕ) → a * 2 ^ suc n < 2 ^ 63 → (doubled a ≡ a * 2) × (a * 2 * 2 ^ n ≡ a * 2 ^ suc n)
doubled_lem a n h =
    let e : a * 2 * 2 ^ n ≡ a * 2 ^ suc n = rw pow-succ' (mul_assoc a 2 (2 ^ n)) in
    let up = le-mul_of_pos_right (a * 2) (one-le-pow n 2 (omega arith)) in
    (ground (arith, e, up, h), e)

process_task-unanswered :
    (t : Task) (s : Subscriber) (rest : List Subscriber) (a : Attempt) (attempts : List Attempt)
    → drop t.sub_index t.subs ≡ s ∷ rest
    → reply a ≡ none
    → process_task t (a ∷ attempts)
      ≡ (record t { system_timer = doubled t.system_timer }, requeued (doubled t.system_timer))
unfolding process_task contact
process_task-unanswered t s rest a attempts d h = rw d (ground arith)

-- The task after passes in each of which its next subscriber is contacted by one attempt.
unfoldable pub after_passes : Task → List Attempt → Task
after_passes t [] = t
after_passes t (a ∷ later) = after_passes (process_task t (a ∷ [])).0 later

-- As long as the next subscriber of a task is busy or silent, the task keeps its place in the list
-- of subscribers and everything else, but for its waiting time, which each pass doubles. There is a
-- subscriber left, each pass is one attempt without an answer, and the last time fits in 63 bits.
pub after_passes-unanswered :
    (t : Task) (s : Subscriber) (rest : List Subscriber) (attempts : List Attempt)
    → drop t.sub_index t.subs ≡ s ∷ rest
    → All (λ a. reply a ≡ none) attempts
    → t.system_timer * 2 ^ length attempts < 2 ^ 63
    → after_passes t attempts ≡ record t { system_timer = t.system_timer * 2 ^ length attempts }
unfolding after_passes
after_passes-unanswered t s rest [] d h fits = ground arith
after_passes-unanswered t s rest (a ∷ later) d h fits =
    let (once, e) = doubled_lem t.system_timer (length later) fits in
    let t' = record t { system_timer = doubled t.system_timer } in
    let same : t'.system_timer * 2 ^ length later ≡ t.system_timer * 2 ^ suc (length later) =
      ap (λ n. n * 2 ^ length later) once ∙ e in
    rw (process_task-unanswered t s rest a [] d h.0) (
      after_passes-unanswered t' s rest later d h.1 (omega (arith, same, fits))
      ∙ ap (λ n. record t { system_timer = n }) same)
