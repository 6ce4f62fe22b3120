-- ===== src/Netlink/Changes/Received.antt =====
-- What a subscriber of a table knows, that takes every event as it is published.
use text.Mathlib.TextEquality.{eq_iff}
use opi_evpn_bridge.Prelude.{
  String, ◌≡◌, refl, false, List, [], ◌∷◌, ◌++◌, Option, none, some, Eq, arith, ◌==◌, string_eq,
  if◌then◌else◌, inl, inr, Bool-cases,
}
use opi_evpn_bridge.Prelude.Dict.{Dict, lookup, delete, lookup-delete}
use opi_evpn_bridge.Netlink.Changes.{Operations, notify_all}

module _ {K V : Type 0} ⦃eq_key : Eq K⦄ (key_of : V → K) (ops : Operations) where
  -- The value that a subscriber has at a key, after an event.
  abbrev receive : String × V → K → Option V → Option V
  receive (operation, v) k known =
      if key_of v == k then if operation == ops.delete then none else some v else known

  unfoldable pub receive_all : List (String × V) → K → Option V → Option V
  receive_all [] k known = known
  receive_all (e ∷ es) k known = receive_all es k (receive e k known)

  pub receive_all-append :
      (es fs : List (String × V)) (k : K) (known : Option V)
      → receive_all (es ++ fs) k known ≡ receive_all fs k (receive_all es k known)
  unfolding receive_all
  receive_all-append [] fs k known = refl
  receive_all-append (e ∷ es) fs k known = receive_all-append es fs k (receive e k known)

  -- A map has one entry for each of its keys, and an entry's value carries its key.
  abbrev pub IsTable : Dict K V → Type 0
  IsTable [] = Unit
  IsTable ((k, v) ∷ m) = (key_of v ≡ k) × (lookup k m ≡ none) × IsTable m

  pub delete-IsTable : (k : K) (m : Dict K V) → IsTable m → IsTable (delete k m)
  unfolding delete
  delete-IsTable k [] t = tt
  delete-IsTable k ((j, v) ∷ m) t = elim (Bool-cases (j == k)) [
    | inl e ↦ rw (e, delete) (delete-IsTable k m t.2)
    | inr e ↦ rw (e, delete) (t.0, ground (arith, lookup-delete k j m, t.1), delete-IsTable k m t.2)
  ]

  pub lookup-keyed : (k : K) (v : V) (m : Dict K V) → IsTable m → lookup k m ≡ some v → key_of v ≡ k
  unfolding lookup
  lookup-keyed k v [] t h = absurd (ground arith)
  lookup-keyed k v ((j, w) ∷ m) t h = ground (arith, lookup-keyed k v m t.2, eq_key.same_iff j k)

  pub receive_all-added :
      (m : Dict K V) (k : K) (known : Option V)
      → IsTable m
      → (ops.add == ops.delete) ≡ false
      → receive_all (notify_all ops.add m) k known
        ≡ elim (lookup k m) [ none ↦ known | some v ↦ some v ]
  unfolding receive_all notify_all lookup
  receive_all-added [] k known t d = refl
  receive_all-added ((j, v) ∷ m) k known t d =
      let rest = receive_all-added m k (receive (ops.add, v) k known) t.2 d in
      ground
        (arith, rest, eq_iff ops.add ops.delete, eq_key.same_iff j k, eq_key.same_iff (key_of v) k)

  pub receive_all-deleted :
      (m : Dict K V) (k : K) (known : Option V)
      → IsTable m
      → receive_all (notify_all ops.delete m) k known
        ≡ elim (lookup k m) [ none ↦ known | some v ↦ none ]
  unfolding receive_all notify_all lookup
  receive_all-deleted [] k known t = refl
  receive_all-deleted ((j, v) ∷ m) k known t =
      let rest = receive_all-deleted m k (receive (ops.delete, v) k known) t.2 in
      ground (
        arith,
        rest,
        eq_iff ops.delete ops.delete,
        eq_key.same_iff j k,
        eq_key.same_iff (key_of v) k,
      )
