-- ===== src/IdPool/Unique.antt =====
-- The holders of the identifiers, under any sequence of calls.
use opi_evpn_bridge.Prelude.{
  ℕ, zero, suc, ◌+◌, ◌-◌, ◌≤◌, ◌<◌, ◌≡◌, Bool-cases, inl, inr, refl, true, false, Bool, List, [],
  ◌∷◌, Option, none, some, arith, Eq, ◌==◌, nat_beq, nat_beq_iff, String,
}
use opi_evpn_bridge.Prelude.Dict.{Dict, lookup, insert, delete}
use opi_evpn_bridge.IdPool.{
  IdPool, is_nil, u32_mod, last, without_last, drop_first, assignid, get_id, get_id_with_ref,
  release_id, release_id_with_ref, id_pool_init,
}
use opi_evpn_bridge.IdPool.Init.{descending, id_pool_init-range}

abbrev one_if : Bool → ℕ
one_if true = 1
one_if false = 0

unfoldable pub count : ℕ → List ℕ → ℕ
count i [] = 0
count i (x ∷ xs) = one_if (nat_beq x i) + count i xs

unfoldable pub vals {ℓ} : {K : Type ℓ} {V : Type ℓ} → Dict K V → List V
vals [] = []
vals ((k, v) ∷ m) = v ∷ vals m

count-without_last :
    (i x : ℕ) (xs : List ℕ)
    → one_if (nat_beq (last (x ∷ xs)) i) + count i (without_last (x ∷ xs)) ≡ count i (x ∷ xs)
unfolding last without_last count
count-without_last i x [] = omega arith
count-without_last i x (y ∷ ys) = omega (arith, count-without_last i y ys)

count-last :
    (i : ℕ) (xs : List ℕ)
    → is_nil xs ≡ false
    → one_if (nat_beq (last xs) i) + count i (without_last xs) ≡ count i xs
unfolding is_nil
count-last i [] h = cc
count-last i (x ∷ xs) h = count-without_last i x xs

module _ {K : Type 0} ⦃e : Eq K⦄ where
  count-delete : (i : ℕ) (k : K) (m : Dict K ℕ) → count i (vals (delete k m)) ≤ count i (vals m)
  unfolding delete count vals
  count-delete i k [] = omega arith
  count-delete i k ((j, v) ∷ m) = ground (arith, count-delete i k m)

  -- What a deletion takes away was there.
  pub count-delete_found :
      (i : ℕ) (k : K) (v : ℕ) (m : Dict K ℕ)
      → lookup k m ≡ some v
      → one_if (nat_beq v i) + count i (vals (delete k m)) ≤ count i (vals m)
  unfolding delete lookup count vals
  count-delete_found i k v [] h = cc
  count-delete_found i k v ((j, w) ∷ m) h =
      ground (arith, count-delete_found i k v m, count-delete i k m)

  count-insert :
      (i : ℕ) (k : K) (v : ℕ) (m : Dict K ℕ)
      → count i (vals (insert k v m)) ≤ one_if (nat_beq v i) + count i (vals m)
  unfolding insert count vals
  count-insert i k v [] = omega arith
  count-insert i k v ((j, w) ∷ m) = ground (arith, count-insert i k v m)

  count-drop_first : (i : ℕ) (m : Dict K ℕ) → count i (vals (drop_first m)) ≤ count i (vals m)
  unfolding drop_first vals
  count-drop_first i [] = omega arith
  count-drop_first i ((k, v) ∷ m) = count-delete i k ((k, v) ∷ m)

  pub count-one : (i : ℕ) (k : K) (m : Dict K ℕ) → lookup k m ≡ some i → 1 ≤ count i (vals m)
  unfolding lookup count vals
  count-one i k [] p = cc
  count-one i k ((l, v) ∷ m) p = ground (arith, count-one i k m, nat_beq_iff v i)

  -- Two keys with one value are two entries.
  count-two :
      (i : ℕ) (j k : K) (m : Dict K ℕ)
      → (j == k) ≡ false
      → lookup j m ≡ some i
      → lookup k m ≡ some i
      → 2 ≤ count i (vals m)
  unfolding lookup count vals
  count-two i j k [] n p q = cc
  count-two i j k ((l, v) ∷ m) n p q = ground (
    arith,
    e.same_iff l j,
    e.same_iff l k,
    e.same_iff j k,
    count-two i j k m,
    count-one i j m,
    count-one i k m,
    nat_beq_iff v i,
  )

abbrev or_zero : Option ℕ → ℕ
or_zero none = 0
or_zero (some id) = id

module _ {K : Type 0} ⦃e : Eq K⦄ where
  -- The two maps after a release.
  pub count-release :
      (i : ℕ) (k : K) (used free : Dict K ℕ) (v : ℕ)
      → lookup k used ≡ some v
      → count i (vals (delete k used)) + count i (vals (insert k v free))
        ≤ count i (vals used) + count i (vals free)
  count-release i k used free v h =
      omega (arith, count-delete_found i k v used h, count-insert i k v free)

module _ {K R : Type 0} ⦃e : Eq K⦄ ⦃f : Eq R⦄ where
  -- How often an identifier stands in the pool.
  unfoldable pub total : ℕ → IdPool K R → ℕ
  total i pool =
      count i pool.unused_ids + count i (vals pool.ids_in_use) + count i (vals pool.ids_for_reuse)

  total-assignid :
      (i : ℕ) (key : K) (pool : IdPool K R) → total i (assignid key pool).1 ≤ total i pool
  unfolding assignid total
  total-assignid i key pool = ground (
    arith,
    count-last i pool.unused_ids,
    count-delete i key pool.ids_for_reuse,
    count-drop_first i pool.ids_for_reuse,
    count-insert i key (last pool.unused_ids) pool.ids_in_use,
  )

  total-get_id : (i : ℕ) (key : K) (pool : IdPool K R) → total i (get_id key pool).1 ≤ total i pool
  unfolding get_id
  total-get_id i key pool = ground (arith, total-assignid i key pool)

  total-get_id_with_ref :
      (i : ℕ) (key : K) (ref : Option R) (pool : IdPool K R)
      → total i (get_id_with_ref key ref pool).1 ≤ total i pool
  unfolding get_id_with_ref total
  total-get_id_with_ref i key none pool = ground (arith, total-get_id i key pool)
  total-get_id_with_ref i key (some ref) pool = ground (arith, total-get_id i key pool)

  total-release_id :
      (i : ℕ) (key : K) (pool : IdPool K R) → total i (release_id key pool).1 ≤ total i pool
  unfolding release_id total
  total-release_id i key pool = ground (
    arith,
    count-release i key pool.ids_in_use pool.ids_for_reuse (or_zero (lookup key pool.ids_in_use)),
  )

  total-release_id_with_ref :
      (i : ℕ) (key : K) (ref : Option R) (pool : IdPool K R)
      → total i (release_id_with_ref key ref pool).1 ≤ total i pool
  unfolding release_id_with_ref total
  total-release_id_with_ref i key ref pool = ground (
    arith,
    count-release i key pool.ids_in_use pool.ids_for_reuse (or_zero (lookup key pool.ids_in_use)),
  )

pub data Call (K R : Type 0) : Type 0 where
  gets : K → Option R → Call K R
  gets_plain : K → Call K R
  releases : K → Option R → Call K R
  releases_plain : K → Call K R

module _ {K R : Type 0} ⦃e : Eq K⦄ ⦃f : Eq R⦄ where
  unfoldable pub step : IdPool K R → Call K R → IdPool K R
  step pool (gets key ref) = (get_id_with_ref key ref pool).1
  step pool (gets_plain key) = (get_id key pool).1
  step pool (releases key ref) = (release_id_with_ref key ref pool).1
  step pool (releases_plain key) = (release_id key pool).1

  unfoldable pub run_calls : IdPool K R → List (Call K R) → IdPool K R
  run_calls pool [] = pool
  run_calls pool (c ∷ calls) = run_calls (step pool c) calls

  total-step : (i : ℕ) (c : Call K R) (pool : IdPool K R) → total i (step pool c) ≤ total i pool
  unfolding step
  total-step i (gets key ref) pool = total-get_id_with_ref i key ref pool
  total-step i (gets_plain key) pool = total-get_id i key pool
  total-step i (releases key ref) pool = total-release_id_with_ref i key ref pool
  total-step i (releases_plain key) pool = total-release_id i key pool

  pub total-run_calls :
      (i : ℕ) (calls : List (Call K R)) (pool : IdPool K R)
      → total i (run_calls pool calls) ≤ total i pool
  unfolding run_calls
  total-run_calls i [] pool = omega arith
  total-run_calls i (c ∷ calls) pool =
      omega (arith, total-run_calls i calls (step pool c), total-step i c pool)

count-descending_above : (i min n : ℕ) → min + n ≤ i → count i (descending min n) ≡ 0
unfolding count descending
count-descending_above i min zero h = refl
count-descending_above i min (suc n) h = ground (arith, count-descending_above i min n)

pub count-descending :
    (i min n : ℕ)
    → (count i (descending min n) ≤ 1)
      × (1 ≤ count i (descending min n) → (min ≤ i) × (i < min + n))
unfolding count descending
count-descending i min zero = omega arith
count-descending i min (suc n) =
    ground (arith, count-descending i min n, count-descending_above i min n)

module _ {K R : Type 0} ⦃e : Eq K⦄ ⦃f : Eq R⦄ (name : String) (min max : ℕ)
    (pool : IdPool K R) where
  pub total-init :
      (i : ℕ)
      → 0 < min
      → min ≤ max
      → max < u32_mod
      → id_pool_init name min max ≡ some (pool, true)
      → total i pool ≡ count i (descending min (max - min + 1))
  unfolding total count vals
  total-init i p h fits init = ground (arith, id_pool_init-range {K = K} {R = R} name min max fits)

  -- Whatever calls are made of a pool that was set up for a range of 32-bit numbers that does not
  -- begin at 0 and is not empty, an identifier in use lies in the range, and the keys that hold it
  -- are one key.
  pub run_calls_lem :
      (calls : List (Call K R)) (j k : K) (id : ℕ)
      → 0 < min
      → min ≤ max
      → max < u32_mod
      → id_pool_init name min max ≡ some (pool, true)
      → lookup j (run_calls pool calls).ids_in_use ≡ some id
      → lookup k (run_calls pool calls).ids_in_use ≡ some id
      → (min ≤ id) × (id ≤ max) × (j ≡ k)
  unfolding total
  run_calls_lem calls j k id p h fits init at_j at_k =
      let used = (run_calls pool calls).ids_in_use in
      let below = total-run_calls id calls pool in
      let start = total-init id p h fits init in
      let range = count-descending id min (max - min + 1) in
      let here = count-one id j used at_j in
      (
        omega arith,
        omega arith,
        elim (Bool-cases (j == k)) [
          | inl same ↦ (e.same_iff j k).0 same
          | inr other ↦ absurd (omega (arith, count-two id j k used other at_j at_k))
        ],
      )
