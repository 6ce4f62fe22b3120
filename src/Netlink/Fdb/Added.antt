-- ===== src/Netlink/Fdb/Added.antt =====
-- addFdbEntry keeps the entries and the next hops of a snapshot linked.
use opi_evpn_bridge.Prelude.{
  ◌≡◌, ◌≢◌, refl, subst, false, List, [], ◌∷◌, ◌++◌, none, some, ◌==◌, arith, inl, inr,
  Option-cases, Bool-cases, Option, ℕ, sym, if◌then◌else◌, All, All-append, All-map,
}
use mathlib.Core.List.{Mem, mem-cons_self, mem-append_left, mem-append_right}
use opi_evpn_bridge.Prelude.Dict.{lookup, lookup-insert}
use opi_evpn_bridge.Netlink.Ids.{assign_id}
use opi_evpn_bridge.Netlink.Ids.Unique.{IsUnique, assign_id-IsUnique, assigned, kept}
use opi_evpn_bridge.Netlink.Fdb.{
  FdbKey, L2NexthopKey, FdbEntryStruct, L2NexthopStruct, FdbSnapshot, fdb_eq, l2_eq, add_fdb_entry,
  no_refs, referred,
}

-- Each entry stands at its key, and its next hop is in the table and refers to it; each next hop
-- stands at its key, has the identifier that the cache gives to its key, and refers to some entries,
-- which all have it as their next hop and whose VLAN and MAC have an entry.
pub record IsLinked (db : FdbSnapshot) : Type 0 where
  pub ids : IsUnique db.l2_ids
  pub entries :
      (k : FdbKey) (e : FdbEntryStruct)
      → lookup k db.latest_fdb ≡ some e
      → (e.key ≡ k)
        × ((n : L2NexthopStruct) × (lookup e.nexthop db.latest_l2_nexthop ≡ some n)
            × Mem e n.fdb_refs)
  pub nexthops :
      (k : L2NexthopKey) (n : L2NexthopStruct)
      → lookup k db.latest_l2_nexthop ≡ some n
      → (n.key ≡ k)
        × (lookup k db.l2_ids.cache ≡ some n.id)
        × (no_refs n.fdb_refs ≡ false)
        × All (λ e. (e.nexthop ≡ k) × (lookup e.key db.latest_fdb ≢ none)) n.fdb_refs

not_empty : (xs : List FdbEntryStruct) (x : FdbEntryStruct) → no_refs (xs ++ x ∷ []) ≡ false
not_empty [] x = refl
not_empty (y ∷ ys) x = refl

module _ (fdb : FdbEntryStruct) (nh : L2NexthopStruct) (db : FdbSnapshot) where
  -- The next hop that addL2Nexthop leaves at its key.
  abbrev extend : Option L2NexthopStruct → L2NexthopStruct
  extend (some n0) = referred fdb n0
  extend none = record (referred fdb nh) { id = (assign_id nh.key db.l2_ids).0 }

  abbrev extended : L2NexthopStruct
  extended = extend (lookup nh.key db.latest_l2_nexthop)

  lookup-nexthops :
      (k : L2NexthopKey)
      → lookup k (add_fdb_entry (fdb, nh) db).latest_l2_nexthop
        ≡ (if nh.key == k then some extended else lookup k db.latest_l2_nexthop)
  unfolding add_fdb_entry
  lookup-nexthops k =
      let n1 = record (referred fdb nh) { id = (assign_id nh.key db.l2_ids).0 } in
      elim (Option-cases (lookup nh.key db.latest_l2_nexthop)) [
        | inl e ↦ ground (arith, lookup-insert nh.key k n1 db.latest_l2_nexthop)
        | inr (n0, e) ↦
            ground (arith, lookup-insert nh.key k (referred fdb n0) db.latest_l2_nexthop)
      ]

  lookup-entries :
      (k : FdbKey)
      → lookup k (add_fdb_entry (fdb, nh) db).latest_fdb
        ≡ (if fdb.key == k then some fdb else lookup k db.latest_fdb)
  unfolding add_fdb_entry
  lookup-entries k = elim (Option-cases (lookup nh.key db.latest_l2_nexthop)) [
    | inl e ↦ ground (arith, lookup-insert fdb.key k fdb db.latest_fdb)
    | inr (n0, e) ↦ ground (arith, lookup-insert fdb.key k fdb db.latest_fdb)
  ]

  lookup-replaced :
      (k : FdbKey)
      → lookup k db.latest_fdb ≢ none
      → lookup k (add_fdb_entry (fdb, nh) db).latest_fdb ≢ none
  lookup-replaced k h = ground (arith, lookup-entries k, h)

  lookup-added : lookup fdb.key (add_fdb_entry (fdb, nh) db).latest_fdb ≢ none
  lookup-added = ground (arith, lookup-entries fdb.key, fdb_eq.same_iff fdb.key fdb.key)

  mem-extend : (o : Option L2NexthopStruct) → Mem fdb (extend o).fdb_refs
  mem-extend (some n0) = mem-append_right n0.fdb_refs mem-cons_self
  mem-extend none = mem-append_right nh.fdb_refs mem-cons_self

  mem-extended :
      (e : FdbEntryStruct) (n : L2NexthopStruct) (o : Option L2NexthopStruct)
      → o ≡ some n
      → Mem e n.fdb_refs
      → Mem e (extend o).fdb_refs
  mem-extended e n o h m =
      let in_extended : Mem e (extend (some n)).fdb_refs = mem-append_left (fdb ∷ []) m in
      rw h in_extended

  module _ (points : fdb.nexthop ≡ nh.key) (fresh : nh.fdb_refs ≡ []) (l : IsLinked db) where
    after_ids : IsUnique (add_fdb_entry (fdb, nh) db).l2_ids
    unfolding add_fdb_entry
    after_ids = elim (Option-cases (lookup nh.key db.latest_l2_nexthop)) [
      | inl e ↦
          let same : (assign_id nh.key db.l2_ids).1 ≡ (add_fdb_entry (fdb, nh) db).l2_ids =
            ground arith in
          subst (λ i. IsUnique i) same (assign_id-IsUnique nh.key db.l2_ids l.ids)
      | inr (n0, e) ↦
          let same : db.l2_ids ≡ (add_fdb_entry (fdb, nh) db).l2_ids = ground arith in
          subst (λ i. IsUnique i) same l.ids
    ]

    after_entry :
        (k : FdbKey) (e : FdbEntryStruct)
        → lookup k db.latest_fdb ≡ some e
        → (e.key ≡ k)
          × ((n : L2NexthopStruct) × (lookup e.nexthop
                  (add_fdb_entry (fdb, nh) db).latest_l2_nexthop
                ≡ some n)
              × Mem e n.fdb_refs)
    after_entry k e h =
        let (at, (n, there, m)) = l.entries k e h in
        elim (Bool-cases (nh.key == e.nexthop)) [
          | inl t ↦
              let found : lookup nh.key db.latest_l2_nexthop ≡ some n =
                ground (arith, l2_eq.same_iff nh.key e.nexthop, t, there) in
              (
                at,
                (
                  extended,
                  ground (arith, lookup-nexthops e.nexthop, t),
                  mem-extended e n (lookup nh.key db.latest_l2_nexthop) found m,
                ),
              )
          | inr f ↦ (at, (n, ground (arith, lookup-nexthops e.nexthop, f, there), m))
        ]

    after_entries :
        (k : FdbKey) (e : FdbEntryStruct)
        → lookup k (add_fdb_entry (fdb, nh) db).latest_fdb ≡ some e
        → (e.key ≡ k)
          × ((n : L2NexthopStruct) × (lookup e.nexthop
                  (add_fdb_entry (fdb, nh) db).latest_l2_nexthop
                ≡ some n)
              × Mem e n.fdb_refs)
    after_entries k e h = elim (Bool-cases (fdb.key == k)) [
      | inl t ↦
          let same : fdb ≡ e = ground (arith, lookup-entries k, t, h) in
          let there : lookup fdb.nexthop (add_fdb_entry (fdb, nh) db).latest_l2_nexthop
              ≡ some extended =
            ground (arith, lookup-nexthops nh.key, l2_eq.same_iff nh.key nh.key, points) in
          subst
            (λ x.
              (x.key ≡ k)
              × ((n : L2NexthopStruct) × (lookup x.nexthop
                      (add_fdb_entry (fdb, nh) db).latest_l2_nexthop
                    ≡ some n)
                  × Mem x n.fdb_refs))
            same
            (
              (fdb_eq.same_iff fdb.key k).0 t,
              (extended, there, mem-extend (lookup nh.key db.latest_l2_nexthop)),
            )
      | inr f ↦ after_entry k e (ground (arith, lookup-entries k, f, h))
    ]

    abbrev Referring : L2NexthopKey → FdbEntryStruct → Type 0
    Referring k e = (e.nexthop ≡ k) × (lookup e.key (add_fdb_entry (fdb, nh) db).latest_fdb ≢ none)

    All-still :
        (k : L2NexthopKey) (n : L2NexthopStruct)
        → lookup k db.latest_l2_nexthop ≡ some n
        → All (Referring k) n.fdb_refs
    All-still k n h =
        All-map (λ e. (e.nexthop ≡ k) × (lookup e.key db.latest_fdb ≢ none)) (Referring k)
          (λ e p. (p.0, lookup-replaced e.key p.1)) n.fdb_refs (l.nexthops k n h).3

    All-extend :
        (o : Option L2NexthopStruct)
        → lookup nh.key db.latest_l2_nexthop ≡ o
        → All (Referring nh.key) (extend o).fdb_refs
    All-extend (some n) h =
        All-append (Referring nh.key) n.fdb_refs fdb (All-still nh.key n h) (points, lookup-added)
    All-extend none h =
        All-append (Referring nh.key) nh.fdb_refs fdb
          (subst (λ rs. All (Referring nh.key) rs) (sym fresh) tt) (points, lookup-added)

    after_new :
        let n = extended in
        (n.key ≡ nh.key)
        × (lookup nh.key (add_fdb_entry (fdb, nh) db).l2_ids.cache ≡ some n.id)
        × (no_refs n.fdb_refs ≡ false)
    unfolding add_fdb_entry
    after_new = elim (Option-cases (lookup nh.key db.latest_l2_nexthop)) [
      | inl e ↦ ground (arith, assigned nh.key db.l2_ids l.ids, not_empty nh.fdb_refs fdb)
      | inr (n0, e) ↦ ground (arith, not_empty n0.fdb_refs fdb, l.nexthops nh.key n0)
    ]

    cache-kept :
        (k : L2NexthopKey) (i : ℕ)
        → lookup k db.l2_ids.cache ≡ some i
        → lookup k (add_fdb_entry (fdb, nh) db).l2_ids.cache ≡ some i
    unfolding add_fdb_entry
    cache-kept k i h = elim (Option-cases (lookup nh.key db.latest_l2_nexthop)) [
      | inl e ↦ ground (arith, kept nh.key k i db.l2_ids l.ids)
      | inr (n0, e) ↦ ground arith
    ]

    after_nexthops :
        (k : L2NexthopKey) (n : L2NexthopStruct)
        → lookup k (add_fdb_entry (fdb, nh) db).latest_l2_nexthop ≡ some n
        → (n.key ≡ k)
          × (lookup k (add_fdb_entry (fdb, nh) db).l2_ids.cache ≡ some n.id)
          × (no_refs n.fdb_refs ≡ false)
          × All (Referring k) n.fdb_refs
    after_nexthops k n h = elim (Bool-cases (nh.key == k)) [
      | inl t ↦
          let same : extended ≡ n = ground (arith, lookup-nexthops k, t, h) in
          let here = (l2_eq.same_iff nh.key k).0 t in
          let (at, id, refs) = after_new in
          rw (← here, ← same) (at, id, refs, All-extend (lookup nh.key db.latest_l2_nexthop) refl)
      | inr f ↦
          let before : lookup k db.latest_l2_nexthop ≡ some n =
            ground (arith, lookup-nexthops k, f, h) in
          let (at, id, refs, all) = l.nexthops k n before in
          (at, cache-kept k n.id id, refs, All-still k n before)
    ]

    pub IsLinked-after : IsLinked (add_fdb_entry (fdb, nh) db)
    IsLinked-after = record { ids = after_ids; entries = after_entries; nexthops = after_nexthops }
