-- ===== src/IdPool/References.antt =====
-- The references of an identifier.
use opi_evpn_bridge.Prelude.{
  ℕ, ◌≡◌, refl, false, Bool, [], ◌∷◌, none, some, arith, Eq, ◌==◌, nat_beq_iff, nat_eq,
  if◌then◌else◌, length,
}
use opi_evpn_bridge.Prelude.Dict.{Dict, lookup, delete, lookup-insert, lookup-delete}
use opi_evpn_bridge.IdPool.{IdPool, is_nil, release_id_with_ref}

is_nil-lookup :
    {R : Type 0} ⦃f : Eq R⦄ (r : R) (b : Bool) (m : Dict R Bool)
    → lookup r m ≡ some b
    → is_nil m ≡ false
unfolding lookup is_nil
is_nil-lookup r b [] h = cc
is_nil-lookup r b (x ∷ m) h = refl

module _ {K R : Type 0} ⦃e : Eq K⦄ ⦃f : Eq R⦄ where
  -- While another reference to a key's identifier is left, releasing one of them keeps the
  -- identifier with the key, takes exactly that reference away, and returns the identifier.
  pub release_id_with_ref-kept :
      (key : K) (ref other r : R) (id : ℕ) (refs : Dict R Bool) (b : Bool) (pool : IdPool K R)
      → lookup key pool.ids_in_use ≡ some id
      → lookup id pool.refs ≡ some refs
      → lookup other refs ≡ some b
      → (ref == other) ≡ false
      → (lookup key (release_id_with_ref key (some ref) pool).1.ids_in_use ≡ some id)
        × (lookup id (release_id_with_ref key (some ref) pool).1.refs ≡ some (delete ref refs))
        × (lookup r (delete ref refs) ≡ (if ref == r then none else lookup r refs))
        × ((release_id_with_ref key (some ref) pool).0 ≡ (id, length (delete ref refs)))
  unfolding release_id_with_ref
  release_id_with_ref-kept key ref other r id refs b pool used found there ne = ground (
    arith,
    lookup-delete ref other refs,
    lookup-delete ref r refs,
    is_nil-lookup other b (delete ref refs),
    lookup-insert id id (delete ref refs) pool.refs,
    nat_beq_iff id id,
  )

  -- Releasing the only reference to a key's identifier takes the identifier from the key, keeps it
  -- for reuse, forgets the references, and returns the count 0.
  pub release_id_with_ref-last :
      (key : K) (ref : R) (id : ℕ) (b : Bool) (pool : IdPool K R)
      → lookup key pool.ids_in_use ≡ some id
      → lookup id pool.refs ≡ some ((ref, b) ∷ [])
      → (lookup key (release_id_with_ref key (some ref) pool).1.ids_in_use ≡ none)
        × (lookup key (release_id_with_ref key (some ref) pool).1.ids_for_reuse ≡ some id)
        × (lookup id (release_id_with_ref key (some ref) pool).1.refs ≡ none)
        × ((release_id_with_ref key (some ref) pool).0 ≡ (id, 0))
  unfolding release_id_with_ref delete
  release_id_with_ref-last key ref id b pool used found = ground (
    arith,
    e.same_iff key key,
    f.same_iff ref ref,
    nat_beq_iff id id,
    lookup-delete key key pool.ids_in_use,
    lookup-insert key key id pool.ids_for_reuse,
    lookup-delete id id pool.refs,
  )
