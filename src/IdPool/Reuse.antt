-- ===== src/IdPool/Reuse.antt =====
-- GetID after GetID, and after ReleaseID.
use opi_evpn_bridge.Prelude.{
  ℕ, suc, ◌+◌, ◌-◌, ◌<◌, ◌≤◌, String, List, true, ◌≡◌, ◌≢◌, none, some, arith, Eq, ◌==◌,
  if◌then◌else◌, nat_beq_iff,
}
use opi_evpn_bridge.Prelude.Dict.{lookup, insert, lookup-insert, lookup-delete}
use opi_evpn_bridge.IdPool.{IdPool, u32_mod, assignid, get_id, release_id, id_pool_init}
use opi_evpn_bridge.IdPool.Unique.{
  Call, run_calls, total, count, count-release, count-delete_found, count-one, count-descending,
  total-init, total-run_calls,
}

module _ {K R : Type 0} ⦃e : Eq K⦄ ⦃f : Eq R⦄ (key : K) (pool : IdPool K R) where
  -- An identifier that GetID returns, other than 0, is held by the key from then on: GetID returns
  -- it again and leaves the pool as it is. The other keys hold what they held.
  pub get_id-get_id :
      (j : K)
      → (get_id key pool).0 ≢ 0
      → (get_id key (get_id key pool).1 ≡ get_id key pool)
        × (lookup j (get_id key pool).1.ids_in_use
            ≡ (if key == j then some (get_id key pool).0 else lookup j pool.ids_in_use))
  unfolding get_id assignid
  get_id-get_id j h = ground (
    arith,
    e.same_iff key j,
    e.same_iff key key,
    lookup-insert key key (get_id key pool).0 pool.ids_in_use,
    lookup-insert key j (get_id key pool).0 pool.ids_in_use,
  )

  -- After a release that took place, the next GetID of the same key fails: it returns 0, not the
  -- identifier that the key had, and the pool has no entry for the key any more.
  pub get_id-release_id :
      (release_id key pool).0 ≢ 0
      → ((get_id key (release_id key pool).1).0 ≡ 0)
        × (lookup key (get_id key (release_id key pool).1).1.ids_in_use ≡ none)
        × (lookup key (get_id key (release_id key pool).1).1.ids_for_reuse ≡ none)
        × ((get_id key (release_id key pool).1).1.unused_ids ≡ pool.unused_ids)
  unfolding get_id assignid release_id
  get_id-release_id h =
      let free = insert key (release_id key pool).0 pool.ids_for_reuse in
      ground (
        arith,
        e.same_iff key key,
        lookup-delete key key pool.ids_in_use,
        lookup-insert key key (release_id key pool).0 pool.ids_for_reuse,
        lookup-delete key key free,
      )

  -- The identifier that is released, after the next GetID of its key.
  total-lost :
      (release_id key pool).0 ≢ 0
      → suc (total (release_id key pool).0 (get_id key (release_id key pool).1).1)
        ≤ total (release_id key pool).0 pool
  unfolding get_id assignid release_id total
  total-lost h =
      let id = (release_id key pool).0 in
      let free = insert key id pool.ids_for_reuse in
      ground (
        arith,
        e.same_iff key key,
        lookup-delete key key pool.ids_in_use,
        lookup-insert key key id pool.ids_for_reuse,
        count-release id key pool.ids_in_use pool.ids_for_reuse id,
        count-delete_found id key id free,
        nat_beq_iff id id,
      )

module _ {K R : Type 0} ⦃e : Eq K⦄ ⦃f : Eq R⦄ (name : String) (min max : ℕ) (pool : IdPool K R)
    (before after : List (Call K R)) (key : K) where
  abbrev used : IdPool K R
  used = run_calls pool before

  -- The identifier that the key gives back, and the pool once the key has asked anew.
  abbrev pub lost : ℕ
  lost = (release_id key used).0

  abbrev pub asked : ℕ × IdPool K R
  asked = get_id key (release_id key used).1

  -- In a pool that was set up for a range of 32-bit numbers that does not begin at 0 and is not
  -- empty, after any calls: where a key gives its identifier back and then asks for one, GetID
  -- returns 0 and the identifier is lost. Whatever calls follow, no key holds it, and it stands
  -- neither among the unused identifiers nor among those kept for a later use.
  pub run_calls-release_id :
      (j : K)
      → 0 < min
      → min ≤ max
      → max < u32_mod
      → id_pool_init name min max ≡ some (pool, true)
      → lost ≢ 0
      → (asked.0 ≡ 0)
        × (lookup j (run_calls asked.1 after).ids_in_use ≢ some lost)
        × (lookup j (run_calls asked.1 after).ids_for_reuse ≢ some lost)
        × (count lost (run_calls asked.1 after).unused_ids ≡ 0)
  unfolding total
  run_calls-release_id j p h fits init given =
      let end = run_calls asked.1 after in
      let gone = total-lost key used given in
      let later = total-run_calls lost after asked.1 in
      let below = total-run_calls lost before pool in
      let start = total-init name min max pool lost p h fits init in
      let range = count-descending lost min (max - min + 1) in
      (
        (get_id-release_id key used given).0,
        λ at_j. absurd (omega (arith, count-one lost j end.ids_in_use at_j)),
        λ at_j. absurd (omega (arith, count-one lost j end.ids_for_reuse at_j)),
        omega arith,
      )
