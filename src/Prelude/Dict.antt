-- ===== src/Prelude/Dict.antt =====
-- Go's maps as association lists. An entry is written in place, and a deletion takes every entry
-- of its key away; a `range` over a map goes through the entries in list order.
use mathlib.Core.Path.{◌≡◌, refl}
use mathlib.Core.Option.{Option, none, some}
use mathlib.Core.List.{List, [], ◌∷◌}
use native.Mathlib.Omega.{arith}
use opi_evpn_bridge.Prelude.Tests.{Eq, ◌==◌, if◌then◌else◌}

abbrev pub Dict {ℓ} : Type ℓ → Type ℓ → Type ℓ
Dict K V = List (K × V)

module _ {ℓ} {K V : Type ℓ} where
  abbrev pub keys : Dict K V → List K
  keys [] = []
  keys ((k, v) ∷ m) = k ∷ keys m

module _ {ℓ} {K V : Type ℓ} ⦃e : Eq K⦄ where
  unfoldable pub delete : K → Dict K V → Dict K V
  delete key [] = []
  delete key ((k, v) ∷ m) = let rest = delete key m in if k == key then rest else (k, v) ∷ rest

  unfoldable pub insert : K → V → Dict K V → Dict K V
  insert key value [] = (key, value) ∷ []
  insert key value ((k, v) ∷ m) =
      let rest = insert key value m in if k == key then (key, value) ∷ m else (k, v) ∷ rest

  unfoldable pub lookup : K → Dict K V → Option V
  lookup key [] = none
  lookup key ((k, v) ∷ m) = let rest = lookup key m in if k == key then some v else rest

  pub lookup-delete :
      (key other : K) (m : Dict K V)
      → lookup other (delete key m) ≡ (if key == other then none else lookup other m)
  unfolding lookup delete
  lookup-delete key other [] = ground arith
  lookup-delete key other ((k, v) ∷ m) =
      ground (
        arith,
        lookup-delete key other m,
        e.same_iff k key,
        e.same_iff k other,
        e.same_iff key other,
      )

  pub lookup-insert :
      (key other : K) (value : V) (m : Dict K V)
      → lookup other (insert key value m) ≡ (if key == other then some value else lookup other m)
  unfolding lookup insert
  lookup-insert key other value [] = refl
  lookup-insert key other value ((k, v) ∷ m) = ground (
    arith,
    lookup-insert key other value m,
    e.same_iff k key,
    e.same_iff k other,
    e.same_iff key other,
  )

  -- Taking out a key that is not there changes nothing; nor does putting one in and out again.
  pub delete-absent : (key : K) (m : Dict K V) → lookup key m ≡ none → delete key m ≡ m
  unfolding lookup delete
  delete-absent key [] h = refl
  delete-absent key ((k, v) ∷ m) h = ground (arith, delete-absent key m)

  pub delete-insert :
      (key : K) (value : V) (m : Dict K V)
      → lookup key m ≡ none
      → delete key (insert key value m) ≡ m
  unfolding lookup insert delete
  delete-insert key value [] h = ground (arith, e.same_iff key key)
  delete-insert key value ((k, v) ∷ m) h = ground (arith, delete-insert key value m)
