-- ===== src/IdPool.antt =====
-- pkg/utils/idpool.go: a pool of numeric identifiers for keys. Keys and references are values of a
-- comparable type (`interface{}`); an identifier is a `uint32`, 0 for none. A reference that is nil
-- is `none`.
pub mod Init
pub mod Unique
pub mod Reuse
pub mod References
mod Examples
use opi_evpn_bridge.Prelude.{
  ℕ, zero, suc, ◌+◌, ◌-◌, ◌%◌, ◌^◌, String, Bool, true, false, List, [], ◌∷◌, ◌++◌, Option, none,
  some, ltb, ◌==◌, nat_eq, length, Eq, if◌then◌else◌,
}
use opi_evpn_bridge.Prelude.Dict.{Dict, lookup, insert, delete}

pub record IdPool (K R : Type 0) : Type 0 where
  pub name : String
  pub unused_ids : List ℕ
  pub ids_in_use : Dict K ℕ
  pub ids_for_reuse : Dict K ℕ
  pub refs : Dict ℕ (Dict R Bool)
  pub size : ℕ

abbrev pub u32_mod : ℕ
u32_mod = 2 ^ 32

zeros : ℕ → List ℕ
zeros zero = []
zeros (suc n) = 0 ∷ zeros n

prepend : ℕ → Option (List ℕ) → Option (List ℕ)
prepend value none = none
prepend value (some ids) = some (value ∷ ids)

-- `for value := max; value >= min; value--`, writing the slots that are left; `none` is the panic
-- on a write past the last slot.
unfoldable pub fill : ℕ → ℕ → ℕ → Option (List ℕ)
unfolding zeros prepend
fill min value zero = if ltb value min then some [] else none
fill min value (suc slots) =
    if ltb value min
    then some (zeros (suc slots))
    else prepend value (fill min ((value + u32_mod - 1) % u32_mod) slots)

-- `last s` and `without_last s`: `s[len(s)-1]` and `s[0:len(s)-1]`.
unfoldable pub last : List ℕ → ℕ
last [] = 0
last (x ∷ []) = x
last (x ∷ y ∷ ys) = last (y ∷ ys)

unfoldable pub without_last : List ℕ → List ℕ
without_last [] = []
without_last (x ∷ []) = []
without_last (x ∷ y ∷ ys) = x ∷ without_last (y ∷ ys)

-- `delete(m, oldKey)` of the first key of a range.
drop_first : {K : Type 0} ⦃eq_key : Eq K⦄ → Dict K ℕ → Dict K ℕ
drop_first [] = []
drop_first ((k, v) ∷ m) = delete k ((k, v) ∷ m)

is_nil {ℓ} : {A : Type ℓ} → List A → Bool
is_nil [] = true
is_nil (x ∷ xs) = false

abbrev or_no_refs : {R : Type 0} → Option (Dict R Bool) → Dict R Bool
or_no_refs none = []
or_no_refs (some m) = m

without_ref : {R : Type 0} ⦃eq_ref : Eq R⦄ → Option R → Dict R Bool → Dict R Bool
without_ref none refs = refs
without_ref (some ref) refs = delete ref refs

-- `refSet` is shared with the map, so its deletion is a write to the pool.
write_refs :
    {R : Type 0}
    → ℕ
    → Option (Dict R Bool)
    → Dict R Bool
    → Dict ℕ (Dict R Bool)
    → Dict ℕ (Dict R Bool)
write_refs id none refs m = m
write_refs id (some _) refs m = insert id refs m

abbrev ref_count : {R : Type 0} → Option R → Dict R Bool → ℕ
ref_count none refs = 0
ref_count (some _) refs = length refs

module _ {K R : Type 0} where
  zero_pool : IdPool K R
  zero_pool = record {
    name = "";
    unused_ids = [];
    ids_in_use = [];
    ids_for_reuse = [];
    refs = [];
    size = 0;
  }

  filled : String → Option (List ℕ) → Option (IdPool K R × Bool)
  filled name none = none
  filled name (some unused) = some (
    record {
      name = name;
      unused_ids = unused;
      ids_in_use = [];
      ids_for_reuse = [];
      refs = [];
      size = length unused;
    },
    true,
  )

  -- `none` is a panic.
  unfoldable pub id_pool_init : String → ℕ → ℕ → Option (IdPool K R × Bool)
  unfolding zero_pool filled
  id_pool_init name min max =
      if ltb max min
      then some (zero_pool, false)
      else filled name (fill min max ((max - min + 1) % u32_mod))

module _ {K R : Type 0} ⦃eq_key : Eq K⦄ ⦃eq_ref : Eq R⦄ where
  store_id : K → ℕ → IdPool K R → ℕ × IdPool K R
  store_id key id pool =
      if id == 0
      then (id, pool)
      else (id, record pool { ids_in_use = insert key id pool.ids_in_use })

  -- `id` keeps its initial 0 where an earlier identifier is taken out of `idsForReuse`.
  unfoldable pub assignid : K → IdPool K R → ℕ × IdPool K R
  unfolding store_id drop_first is_nil
  assignid key pool = elim (lookup key pool.ids_for_reuse) [
    | some _ ↦ store_id key 0 (record pool { ids_for_reuse = delete key pool.ids_for_reuse })
    | none ↦
        if is_nil pool.unused_ids
        then if is_nil pool.ids_for_reuse
          then (0, pool)
          else store_id key 0 (record pool { ids_for_reuse = drop_first pool.ids_for_reuse })
        else store_id key (last pool.unused_ids)
            (record pool { unused_ids = without_last pool.unused_ids })
  ]

  unfoldable pub get_id : K → IdPool K R → ℕ × IdPool K R
  get_id key pool = elim (lookup key pool.ids_in_use) [
    | some id ↦ (id, pool)
    | none ↦ assignid key pool
  ]

  add_ref : ℕ → Option R → IdPool K R → (ℕ × ℕ) × IdPool K R
  add_ref id none pool = ((id, 0), pool)
  add_ref id (some ref) pool =
      let refs = insert ref true (or_no_refs (lookup id pool.refs)) in
      ((id, length refs), record pool { refs = insert id refs pool.refs })

  unfoldable pub get_id_with_ref : K → Option R → IdPool K R → (ℕ × ℕ) × IdPool K R
  unfolding add_ref
  get_id_with_ref key ref pool =
      let (id, pool') = get_id key pool in if id == 0 then ((0, 0), pool') else add_ref id ref pool'

  unfoldable pub release_id : K → IdPool K R → ℕ × IdPool K R
  release_id key pool = elim (lookup key pool.ids_in_use) [
    | none ↦ (0, pool)
    | some id ↦ elim (lookup id pool.refs) [
      | some _ ↦ (0, pool)
      | none ↦ (
        id,
        record pool {
          ids_in_use = delete key pool.ids_in_use;
          ids_for_reuse = insert key id pool.ids_for_reuse;
        },
      )
    ]
  ]

  unfoldable pub release_id_with_ref : K → Option R → IdPool K R → (ℕ × ℕ) × IdPool K R
  unfolding without_ref write_refs is_nil
  release_id_with_ref key ref pool = elim (lookup key pool.ids_in_use) [
    | none ↦ ((0, 0), pool)
    | some id ↦
        let found = lookup id pool.refs in
        let refs = without_ref ref (or_no_refs found) in
        (
          (id, ref_count ref refs),
          if is_nil refs
              then record pool {
                ids_in_use = delete key pool.ids_in_use;
                ids_for_reuse = insert key id pool.ids_for_reuse;
                refs = delete id pool.refs;
              }
              else record pool { refs = write_refs id found refs pool.refs },
        )
  ]
