-- ===== src/Infradb/Routing/Tables.antt =====
-- Saving and deleting routing tables.
use opi_evpn_bridge.Prelude.{
  ℕ, ◌≡◌, Bool, true, false, ◌||◌, ◌&&◌, not, none, some, arith, string_eq, nat_eq, nat_beq,
  if◌then◌else◌, nat_beq_iff,
}
use opi_evpn_bridge.Prelude.Dict.{insert, delete}
use opi_evpn_bridge.Infradb.Errors.{Result, ok, err, key_not_found, routing_table_in_use}
use opi_evpn_bridge.Infradb.Store.{Codec, Gokv}
use opi_evpn_bridge.Infradb.Program.{World, Content, exec, run, done}
use opi_evpn_bridge.Infradb.Program.Refine.{run_by_exec}
use opi_evpn_bridge.Infradb.Routing.{save_routing_table, delete_routing_table}
use opi_evpn_bridge.Infradb.Ops.{or_new}
use opi_evpn_bridge.Infradb.View.{has_vni, read_as, has_vni-insert, has_vni-delete}

-- The number is among the routing tables in use.
abbrev pub table_used : Codec → Content → ℕ → Bool
table_used c f n = has_vni n (read_as c.as_numbers (f "rts"))

-- The value at this key, if there is one, is a map of numbers.
abbrev pub is_readable : Codec → Content → Bool
is_readable c f = elim (f "rts") [
  | none ↦ true
  | some v ↦ elim (c.as_numbers v) [ none ↦ false | some m ↦ true ]
]

module _ (kv : Gokv) (c : Codec) (t n : ℕ) (w : World kv.Db)
    (readable : is_readable c (kv.content w.db) ≡ true) where
  -- Unless the store fails, saving a routing table returns ErrRoutingTableInUse if it is in use,
  -- and no error if not; in both cases it is in use afterwards, and the others are as before.
  pub save_routing_table_lem :
      (r : Result (Unit {0}))
      → (run kv (save_routing_table c t) w).0 ≡ done r
      → (r ≡ (if table_used c (kv.content w.db) t then err routing_table_in_use else ok tt))
        × (table_used c (kv.content (run kv (save_routing_table c t) w).1.db) n
            ≡ (nat_beq t n || table_used c (kv.content w.db) n))
  unfolding exec save_routing_table
  save_routing_table_lem r h =
      let m = read_as c.as_numbers (kv.content w.db "rts") in
      run_by_exec kv
        (λ r' w'.
          (r' ≡ (if table_used c (kv.content w.db) t then err routing_table_in_use else ok tt))
          × (table_used c w'.db n ≡ (nat_beq t n || table_used c (kv.content w.db) n)))
        (save_routing_table c t) w r h
        (ground (
          arith,
          has_vni-insert t n m,
          nat_beq_iff t n,
          c.as_numbers-numbers (insert t false (or_new m)),
        ))

  -- Unless the store fails, deleting a routing table returns no error if it is in use, and
  -- ErrKeyNotFound if not; in both cases it is not in use afterwards, and the others are as before.
  pub delete_routing_table_lem :
      (r : Result (Unit {0}))
      → (run kv (delete_routing_table c t) w).0 ≡ done r
      → (r ≡ (if table_used c (kv.content w.db) t then ok tt else err key_not_found))
        × (table_used c (kv.content (run kv (delete_routing_table c t) w).1.db) n
            ≡ (table_used c (kv.content w.db) n && not (nat_beq t n)))
  unfolding exec delete_routing_table
  delete_routing_table_lem r h =
      let m = or_new (read_as c.as_numbers (kv.content w.db "rts")) in
      run_by_exec kv
        (λ r' w'.
          (r' ≡ (if table_used c (kv.content w.db) t then ok tt else err key_not_found))
          × (table_used c w'.db n ≡ (table_used c (kv.content w.db) n && not (nat_beq t n))))
        (delete_routing_table c t) w r h
        (ground (arith, has_vni-delete t n m, nat_beq_iff t n, c.as_numbers-numbers (delete t m)))
