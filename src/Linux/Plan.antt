-- ===== src/Linux/Plan.antt =====
-- How a function of the Linux modules acts: by calls of netlink, each of which may end it with the
-- text and the Boolean that it returns. Such a function is a `Plan`, a tree of these calls.
pub mod Performed
use opi_evpn_bridge.Prelude.{
  ℕ, zero, suc, String, Bool, true, false, List, [], ◌∷◌, Option, none, some, ltb,
}
use opi_evpn_bridge.Linux.Kernel.{Request, Kernel}

pub data Plan : Type 0 where
  -- A nil pointer is read, or an index is out of range.
  panic : Plan
  finish : (details : String) → (status : Bool) → Plan
  -- A call whose error ends the function with a text and false.
  request : Request → (String → String) → Plan → Plan
  -- A call whose error is ignored.
  attempt : Request → Plan → Plan
  -- LinkByName, whose error ends the function with a text and a status.
  find : String → (String → String) → (status : Bool) → Plan → Plan
  -- RouteListFiltered on a routing table.
  if_busy : ℕ → (String → String) → (busy free : Plan) → Plan
  -- RouteListIPTable.
  if_local : String → (here elsewhere : Plan) → Plan

-- A function returns its text and status, or it panics.
pub data Ending : Type 0 where
  returned : (details : String) → (status : Bool) → Ending
  panicked : Ending

abbrev pub is_true : Ending → Bool
is_true (returned details status) = status
is_true panicked = false

-- Calls, one after the other.
abbrev pub in_order : List (Plan → Plan) → Plan → Plan
in_order [] p = p
in_order (f ∷ fs) p = f (in_order fs p)

-- A field that is a pointer, read where the source does not test it.
abbrev pub deref {ℓ} : {A : Type ℓ} → Option A → (A → Plan) → Plan
deref none p = panic
deref (some a) p = p a

module _ (K : Kernel) where
  unfoldable pub run_plan : Plan → K.State → Ending × K.State
  run_plan panic s = (panicked, s)
  run_plan (finish details status) s = (returned details status, s)
  run_plan (request r message p) s = elim (K.perform s r).0 [
    | none ↦ run_plan p (K.perform s r).1
    | some e ↦ (returned (message e) false, (K.perform s r).1)
  ]
  run_plan (attempt r p) s = run_plan p (K.perform s r).1
  run_plan (find n message status p) s = elim (K.find_error s n) [
    | none ↦ run_plan p s
    | some e ↦ (returned (message e) status, s)
  ]
  run_plan (if_busy table message busy free) s = elim (K.busy_error s table) [
    | some e ↦ (returned (message e) false, s)
    | none ↦
        let on_busy = run_plan busy s in
        let on_free = run_plan free s in
        elim (ltb 0 (K.routes s table)) [ true ↦ on_busy | false ↦ on_free ]
  ]
  run_plan (if_local ip here elsewhere) s =
      let on_here = run_plan here s in
      let on_elsewhere = run_plan elsewhere s in
      elim (K.in_ip_table s ip) [ true ↦ on_here | false ↦ on_elsewhere ]

  abbrev pub succeeds : Plan → K.State → Bool
  succeeds p s = is_true (run_plan p s).0

  abbrev pub final : Plan → K.State → K.State
  final p s = (run_plan p s).1

  -- The state after a number of further runs.
  unfoldable pub retried : Plan → ℕ → K.State → K.State
  retried p zero s = s
  retried p (suc n) s = retried p n (final p s)
