-- ===== src/Netlink/Ids/Unique.antt =====
-- The identifiers are unique and do not change.
use opi_evpn_bridge.Prelude.{ℕ, ◌≡◌, ◌<◌, ◌≤◌, arith, List, [], ◌∷◌, some, nat_eq, Eq, ◌↔◌}
use opi_evpn_bridge.Prelude.Dict.{lookup, lookup-insert}
use opi_evpn_bridge.Netlink.Ids.{IdCache, initial_ids, assign_id}

module _ {K : Type 0} ⦃eq_key : Eq K⦄ where
  -- Every identifier in the cache is at least 16 and has been counted, and no two keys share one.
  pub record IsUnique (ids : IdCache K) : Type 0 where
    pub in_range : (k : K) (i : ℕ) → lookup k ids.cache ≡ some i → (16 ≤ i) × (i < ids.next_id)
    pub at_least : 16 ≤ ids.next_id
    pub unshared :
        (k l : K) (i : ℕ) → lookup k ids.cache ≡ some i → lookup l ids.cache ≡ some i → k ≡ l

  pub initial_ids-IsUnique : IsUnique initial_ids
  unfolding lookup
  initial_ids-IsUnique = record {
    in_range = λ k i h. absurd (ground arith);
    at_least = omega arith;
    unshared = λ k l i h j. absurd (ground arith);
  }

  pub assign_id-IsUnique :
      (key : K) (ids : IdCache K) → IsUnique ids → IsUnique (assign_id key ids).1
  unfolding assign_id
  assign_id-IsUnique key ids u = record {
    in_range = λ k i h.
        ground (arith, lookup-insert key k ids.next_id ids.cache, u.in_range k i, u.at_least);
    at_least = ground (arith, u.at_least);
    unshared = λ k l i h j. ground (
      arith,
      lookup-insert key k ids.next_id ids.cache,
      lookup-insert key l ids.next_id ids.cache,
      u.in_range k i,
      u.in_range l i,
      u.unshared k l i,
      eq_key.same_iff key k,
      eq_key.same_iff key l,
    );
  }

  -- The identifiers that a sequence of requests gets, and the cache that it leaves.
  unfoldable pub assign_all : List K → IdCache K → IdCache K
  assign_all [] ids = ids
  assign_all (k ∷ ks) ids = assign_all ks (assign_id k ids).1

  assign_all-IsUnique :
      (ks : List K) (ids : IdCache K) → IsUnique ids → IsUnique (assign_all ks ids)
  unfolding assign_all
  assign_all-IsUnique [] ids u = u
  assign_all-IsUnique (k ∷ ks) ids u =
      assign_all-IsUnique ks (assign_id k ids).1 (assign_id-IsUnique k ids u)

  pub assigned :
      (k : K) (ids : IdCache K)
      → IsUnique ids
      → lookup k (assign_id k ids).1.cache ≡ some (assign_id k ids).0
  unfolding assign_id
  assigned k ids u = ground (arith, lookup-insert k k ids.next_id ids.cache, eq_key.same_iff k k)

  pub kept :
      (m k : K) (i : ℕ) (ids : IdCache K)
      → IsUnique ids
      → lookup k ids.cache ≡ some i
      → lookup k (assign_id m ids).1.cache ≡ some i
  unfolding assign_id
  kept m k i ids u h =
      ground (arith, lookup-insert m k ids.next_id ids.cache, u.in_range k i, eq_key.same_iff m k)

  cached :
      (k : K) (i : ℕ) (ids : IdCache K)
      → IsUnique ids
      → lookup k ids.cache ≡ some i
      → (assign_id k ids).0 ≡ i
  unfolding assign_id
  cached k i ids u h = ground (arith, u.in_range k i)

  kept_by_all :
      (ms : List K) (k : K) (i : ℕ) (ids : IdCache K)
      → IsUnique ids
      → lookup k ids.cache ≡ some i
      → lookup k (assign_all ms ids).cache ≡ some i
  unfolding assign_all
  kept_by_all [] k i ids u h = h
  kept_by_all (m ∷ ms) k i ids u h =
      kept_by_all ms k i (assign_id m ids).1 (assign_id-IsUnique m ids u) (kept m k i ids u h)

  -- After any requests for identifiers, a key gets one, and after any further requests a key gets
  -- the same one if and only if it is the same key.
  pub assign_id-assign_id :
      (before between : List K) (k l : K)
      → (let s = assign_all before initial_ids in
          let (i, s') = assign_id k s in ((assign_id l (assign_all between s')).0 ≡ i) ↔ (l ≡ k))
  unfolding assign_id
  assign_id-assign_id before between k l =
      let s = assign_all before initial_ids in
      let u = assign_all-IsUnique before initial_ids initial_ids-IsUnique in
      let i = (assign_id k s).0 in
      let s' = (assign_id k s).1 in
      let u' = assign_id-IsUnique k s u in
      let t = assign_all between s' in
      let u'' = assign_all-IsUnique between s' u' in
      let mine = kept_by_all between k i s' u' (assigned k s u) in
      let its = assigned l t u'' in
      let after = assign_id-IsUnique l t u'' in
      (
        λ same. after.unshared l k i (rw same at its) (kept l k i t u'' mine),
        λ same. rw same (cached k i t u'' mine),
      )
