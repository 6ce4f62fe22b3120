-- ===== src/EventBus/Order.antt =====
-- The order of the subscribers of an event type (EventBus.Subscribe).
use opi_evpn_bridge.Prelude.{
  ℕ, ◌+◌, String, ◌≡◌, refl, true, List, [], ◌∷◌, ◌++◌, arith, ◌==◌, nat_eq, string_eq,
  if◌then◌else◌,
}
use opi_evpn_bridge.Prelude.Int.{ℤ, int_leb, int_leb_trans, int_leb_total}
use text.Mathlib.TextEquality.{eq_iff}
use opi_evpn_bridge.Prelude.Dict.{lookup-insert}
use opi_evpn_bridge.EventBus.{
  Subscriber, EventBus, get_subscribers, insert_by_priority, sort_by_priority, subscribe,
}

abbrev pub AtLeast : ℤ → List Subscriber → Type 0
AtLeast p [] = Unit
AtLeast p (s ∷ rest) = (int_leb p s.priority ≡ true) × AtLeast p rest

-- Each subscriber's priority number is at most those of the later ones.
abbrev pub IsOrdered : List Subscriber → Type 0
IsOrdered [] = Unit
IsOrdered (s ∷ rest) = AtLeast s.priority rest × IsOrdered rest

AtLeast-mono : (p q : ℤ) (l : List Subscriber) → int_leb p q ≡ true → AtLeast q l → AtLeast p l
AtLeast-mono p q [] h a = tt
AtLeast-mono p q (s ∷ rest) h a = (int_leb_trans p q s.priority h a.0, AtLeast-mono p q rest h a.1)

insert_by_priority-AtLeast :
    (p : ℤ) (s : Subscriber) (l : List Subscriber)
    → int_leb p s.priority ≡ true
    → AtLeast p l
    → AtLeast p (insert_by_priority s l)
unfolding insert_by_priority
insert_by_priority-AtLeast p s [] h a = (h, tt)
insert_by_priority-AtLeast p s (x ∷ xs) h a =
    ground (arith, insert_by_priority-AtLeast p s xs h a.1)

insert_by_priority-IsOrdered :
    (s : Subscriber) (l : List Subscriber) → IsOrdered l → IsOrdered (insert_by_priority s l)
unfolding insert_by_priority
insert_by_priority-IsOrdered s [] o = (tt, tt)
insert_by_priority-IsOrdered s (x ∷ xs) o = ground (
  arith,
  insert_by_priority-IsOrdered s xs o.1,
  insert_by_priority-AtLeast x.priority s xs,
  AtLeast-mono s.priority x.priority xs,
  int_leb_total x.priority s.priority,
)

sort_by_priority-IsOrdered :
    (sorted l : List Subscriber) → IsOrdered sorted → IsOrdered (sort_by_priority sorted l)
unfolding sort_by_priority
sort_by_priority-IsOrdered sorted [] o = o
sort_by_priority-IsOrdered sorted (s ∷ rest) o =
    sort_by_priority-IsOrdered (insert_by_priority s sorted) rest
      (insert_by_priority-IsOrdered s sorted o)

-- How many entries of a list are the subscriber with this identity.
abbrev pub count_id : ℕ → List Subscriber → ℕ
count_id i [] = 0
count_id i (s ∷ rest) = (if s.id == i then 1 else 0) + count_id i rest

insert_by_priority-count_id :
    (i : ℕ) (s : Subscriber) (l : List Subscriber)
    → count_id i (insert_by_priority s l) ≡ count_id i (s ∷ l)
unfolding insert_by_priority
insert_by_priority-count_id i s [] = refl
insert_by_priority-count_id i s (x ∷ xs) = ground (arith, insert_by_priority-count_id i s xs)

sort_by_priority-count_id :
    (i : ℕ) (sorted l : List Subscriber)
    → count_id i (sort_by_priority sorted l) ≡ count_id i sorted + count_id i l
unfolding sort_by_priority
sort_by_priority-count_id i sorted [] = omega arith
sort_by_priority-count_id i sorted (s ∷ rest) = omega (
  arith,
  sort_by_priority-count_id i (insert_by_priority s sorted) rest,
  insert_by_priority-count_id i s sorted,
)

count_id-append :
    (i : ℕ) (xs ys : List Subscriber) → count_id i (xs ++ ys) ≡ count_id i xs + count_id i ys
count_id-append i [] ys = omega arith
count_id-append i (x ∷ xs) ys = omega (arith, count_id-append i xs ys)

module _ (module_name event_type : String) (priority : ℤ) (handler : ℕ) (e : EventBus)
    (t : String) where
  get_subscribers-subscribe :
      get_subscribers (subscribe module_name event_type priority handler e).1 t ≡ (
        if event_type == t
        then sort_by_priority [] (
            get_subscribers e event_type
            ++ (subscribe module_name event_type priority handler e).0 ∷ [])
        else get_subscribers e t)
  unfolding subscribe get_subscribers
  get_subscribers-subscribe = rw lookup-insert (ground arith)

  -- A subscription puts the new subscriber, once, among those of its event type and takes none of
  -- these away; the subscribers of an event type, whichever it is, stand in the order of their
  -- priorities if they did before; and those of every other event type are as they were.
  pub subscribe_lem :
      (i : ℕ)
      → IsOrdered (get_subscribers e t)
      → IsOrdered (get_subscribers (subscribe module_name event_type priority handler e).1 t)
        × (count_id i (get_subscribers (subscribe module_name event_type priority handler e).1 t)
            ≡ (if event_type == t
                then count_id i ((subscribe module_name event_type priority handler e).0 ∷ [])
                else 0)
              + count_id i (get_subscribers e t))
        × (get_subscribers (subscribe module_name event_type priority handler e).1 t ≡ (
            if event_type == t
            then get_subscribers (subscribe module_name event_type priority handler e).1 t
            else get_subscribers e t))
  subscribe_lem i o =
      let s = (subscribe module_name event_type priority handler e).0 in
      let all = get_subscribers e event_type ++ s ∷ [] in
      rw get_subscribers-subscribe (
        ground (
          arith,
          eq_iff event_type t,
          sort_by_priority-IsOrdered [] all tt,
          sort_by_priority-count_id i [] all,
          count_id-append i (get_subscribers e event_type) (s ∷ []),
        ))
