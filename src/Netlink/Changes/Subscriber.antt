-- ===== src/Netlink/Changes/Subscriber.antt =====
-- What the comparison of two snapshots lets a subscriber know.
pub mod Polls
use text.Mathlib.TextEquality.{eq_iff}
use opi_evpn_bridge.Prelude.{
  String, ◌≡◌, ◌≢◌, refl, sym, ap, ◌∙◌, Bool, true, false, List, [], ◌∷◌, ◌++◌, Option, none, some,
  Eq, All, arith, ◌==◌, string_eq, if◌then◌else◌, inl, inr, Option-cases, Bool-cases, ◌⊎◌,
}
use opi_evpn_bridge.Prelude.Dict.{Dict, lookup, delete, lookup-delete}
use opi_evpn_bridge.Infradb.Components.{OperStatus, is_to_be_deleted}
use opi_evpn_bridge.Netlink.Changes.{
  Event, Operations, EventType, Progress, notify_all, notify_change, notify_differing,
  compare_entries, notify_changes, both_deleted, has_vrf,
}
use opi_evpn_bridge.Netlink.Changes.Received.{
  receive_all, receive_all-append, IsTable, delete-IsTable, lookup-keyed, receive_all-added,
  receive_all-deleted,
}

module _ {K V : Type 0} ⦃eq_key : Eq K⦄ (deep_check : V → V → Bool) (status : V → Option OperStatus)
    (event : Event) (key_of : V → K) where
  abbrev ops : Operations
  ops = event.operation

  -- What a subscriber is to know of a value that was `v2` and is `v1`.
  abbrev pub kept_or_changed : V → V → Option V → Option V
  kept_or_changed v1 v2 before =
      if deep_check v1 v2
      then before
      else if has_vrf event.event_type
      then elim (status v1) [
        | none ↦ none
        | some st ↦ if is_to_be_deleted st then none else some v1
      ]
      else some v1

  module _ (known : K → Option V) (d : (ops.add == ops.delete) ≡ false)
      (u : (ops.update == ops.delete) ≡ false) where
    -- Where the comparison stands at a key.
    abbrev step : K × V → Progress K V → Progress K V
    step (k1, v1) p = compare_entries deep_check status event ((k1, v1) ∷ []) p

    appended :
        (es fs : List (String × V)) (k : K) (x : Option V)
        → receive_all key_of ops (es ++ fs) k x
          ≡ receive_all key_of ops fs k (receive_all key_of ops es k x)
    appended es fs k x = receive_all-append key_of ops es fs k x

    step_other :
        (k1 k : K) (v1 : V) (p : Progress K V)
        → key_of v1 ≡ k1
        → IsTable key_of ops p.old_db
        → (k1 == k) ≡ false
        → (lookup k (step (k1, v1) p).new_db ≡ lookup k p.new_db)
          × (lookup k (step (k1, v1) p).old_db ≡ lookup k p.old_db)
          × (receive_all key_of ops (step (k1, v1) p).published k (known k)
              ≡ receive_all key_of ops p.published k (known k))
    unfolding compare_entries receive_all
    step_other k1 k v1 p keyed t differs = elim (Option-cases (lookup k1 p.old_db)) [
      | inl e ↦ ground arith
      | inr (v2, e) ↦ ground (
        arith,
        lookup-keyed key_of ops k1 v2 p.old_db t e,
        lookup-delete k1 k p.new_db,
        lookup-delete k1 k p.old_db,
        appended p.published [] k (known k),
        appended p.published ((ops.delete, v1) ∷ []) k (known k),
        appended p.published (notify_change event v1 v2) k (known k),
        eq_key.same_iff k1 k,
        eq_key.same_iff (key_of v1) k,
        eq_key.same_iff (key_of v2) k,
      )
    ]

    step-IsTable :
        (k1 : K) (v1 : V) (p : Progress K V)
        → IsTable key_of ops p.new_db
        → IsTable key_of ops p.old_db
        → IsTable key_of ops (step (k1, v1) p).new_db × IsTable key_of ops (step (k1, v1) p).old_db
    unfolding compare_entries
    step-IsTable k1 v1 p tn to =
        ground (
          arith,
          delete-IsTable key_of ops k1 p.new_db tn,
          delete-IsTable key_of ops k1 p.old_db to,
        )

    -- What the subscriber has at a key in the end, if the comparison ends here.
    abbrev final_at : K → Progress K V → Option V
    final_at k p = elim (lookup k p.old_db) [
      | some _ ↦ none
      | none ↦ elim (lookup k p.new_db) [
        | some v ↦ some v
        | none ↦ receive_all key_of ops p.published k (known k)
      ]
    ]

    abbrev outcome : V → Option V → Option V → Option V
    outcome v1 none before = some v1
    outcome v1 (some v2) before = kept_or_changed v1 v2 before

    step_here :
        (k1 : K) (v1 : V) (p : Progress K V)
        → key_of v1 ≡ k1
        → IsTable key_of ops p.old_db
        → lookup k1 p.new_db ≡ some v1
        → final_at k1 (step (k1, v1) p)
          ≡ outcome v1 (lookup k1 p.old_db) (receive_all key_of ops p.published k1 (known k1))
    unfolding compare_entries receive_all
    step_here k1 v1 p keyed t present = elim (Option-cases (lookup k1 p.old_db)) [
      | inl e ↦ ground arith
      | inr (v2, e) ↦ ground (
        arith,
        lookup-keyed key_of ops k1 v2 p.old_db t e,
        lookup-delete k1 k1 p.new_db,
        lookup-delete k1 k1 p.old_db,
        appended p.published [] k1 (known k1),
        appended p.published ((ops.delete, v1) ∷ []) k1 (known k1),
        appended p.published (notify_change event v1 v2) k1 (known k1),
        eq_key.same_iff k1 k1,
        eq_key.same_iff (key_of v1) k1,
        eq_key.same_iff (key_of v2) k1,
        eq_iff ops.delete ops.delete,
      )
    ]

    others_final :
        (es : Dict K V) (k : K) (p : Progress K V)
        → IsTable key_of ops es
        → IsTable key_of ops p.new_db
        → IsTable key_of ops p.old_db
        → lookup k es ≡ none
        → final_at k (compare_entries deep_check status event es p) ≡ final_at k p
    unfolding compare_entries lookup
    others_final [] k p te tn to h = refl
    others_final ((k1, v1) ∷ rest) k p te tn to h =
        let differs : (k1 == k) ≡ false = ground arith in
        let same = step_other k1 k v1 p te.0 to differs in
        let tables = step-IsTable k1 v1 p tn to in
        others_final rest k (step (k1, v1) p) te.2 tables.0 tables.1 (ground arith)
        ∙ ground (arith, same)

    its_final :
        (es : Dict K V) (k : K) (v1 : V) (p : Progress K V)
        → IsTable key_of ops es
        → IsTable key_of ops p.new_db
        → IsTable key_of ops p.old_db
        → lookup k es ≡ some v1
        → lookup k p.new_db ≡ some v1
        → final_at k (compare_entries deep_check status event es p)
          ≡ outcome v1 (lookup k p.old_db) (receive_all key_of ops p.published k (known k))
    unfolding compare_entries lookup
    its_final [] k v1 p te tn to h present = absurd (ground arith)
    its_final ((k1, w) ∷ rest) k v1 p te tn to h present =
        let tables = step-IsTable k1 w p tn to in
        elim (Bool-cases (k1 == k)) [
          | inl e ↦
              let same : k1 ≡ k = (eq_key.same_iff k1 k).0 e in
              let value : w ≡ v1 = ground arith in
              rw (← same, ← value)
                (others_final rest k1 (step (k1, w) p) te.2 tables.0 tables.1 te.1
                  ∙ step_here k1 w p te.0 to (rw (same, value) present))
          | inr e ↦
              let same = step_other k1 k w p te.0 to e in
              its_final rest k v1 (step (k1, w) p) te.2 tables.0 tables.1 (ground arith)
                (ground (arith, same))
              ∙ ground (arith, same)
        ]

    compare-IsTable :
        (es : Dict K V) (p : Progress K V)
        → IsTable key_of ops es
        → IsTable key_of ops p.new_db
        → IsTable key_of ops p.old_db
        → IsTable key_of ops (compare_entries deep_check status event es p).new_db
          × IsTable key_of ops (compare_entries deep_check status event es p).old_db
    unfolding compare_entries
    compare-IsTable [] p te tn to = (tn, to)
    compare-IsTable ((k1, v1) ∷ rest) p te tn to =
        let tables = step-IsTable k1 v1 p tn to in
        compare-IsTable rest (step (k1, v1) p) te.2 tables.0 tables.1

    received :
        (k : K) (p : Progress K V)
        → IsTable key_of ops p.new_db
        → IsTable key_of ops p.old_db
        → receive_all key_of ops
            (p.published ++ notify_all ops.add p.new_db ++ notify_all ops.delete p.old_db)
            k
            (known k)
          ≡ final_at k p
    received k p tn to =
        let adds = notify_all ops.add p.new_db in
        let deletes = notify_all ops.delete p.old_db in
        let so_far = receive_all key_of ops p.published k (known k) in
        appended (p.published ++ adds) deletes k (known k)
        ∙ receive_all-deleted key_of ops p.old_db k
            (receive_all key_of ops (p.published ++ adds) k (known k)) to
        ∙ ground (
          arith,
          appended p.published adds k (known k),
          receive_all-added key_of ops p.new_db k so_far tn d,
        )

  -- The value that a subscriber is to have at a key, if it had `before`.
  abbrev pub expected : Dict K V → Dict K V → K → Option V → Option V
  expected new_db old_db k before = elim (lookup k new_db) [
    | none ↦ elim (lookup k old_db) [ none ↦ before | some _ ↦ none ]
    | some v1 ↦ elim (lookup k old_db) [ none ↦ some v1 | some v2 ↦ kept_or_changed v1 v2 before ]
  ]

  -- What a subscriber knows that takes the published events in their order. Of a key of the new map
  -- it has the new value, or where the comparison finds no difference from the old one, what it
  -- had; of a key that is only in the old map it has nothing, and nothing of a value that has
  -- changed while its VRF is to be deleted. The maps are tables, and the event names differ.
  pub notify_changes-expected :
      (new_db old_db : Dict K V) (k : K) (before : Option V)
      → (ops.add == ops.delete) ≡ false
      → (ops.update == ops.delete) ≡ false
      → IsTable key_of ops new_db
      → IsTable key_of ops old_db
      → receive_all key_of ops (notify_changes deep_check status event new_db old_db) k before
        ≡ expected new_db old_db k before
  unfolding notify_changes receive_all
  notify_changes-expected new_db old_db k before d u tn to =
      let known : K → Option V = (λ j. before) in
      let start : Progress K V = record { new_db = new_db; old_db = old_db; published = [] } in
      let tables = compare-IsTable known d u new_db start tn tn to in
      received known d u k (compare_entries deep_check status event new_db start) tables.0 tables.1
      ∙ elim (Option-cases (lookup k new_db)) [
        | inl e ↦ others_final known d u new_db k start tn tn to e ∙ ground arith
        | inr (v1, e) ↦ its_final known d u new_db k v1 start tn tn to e e ∙ ground arith
      ]
