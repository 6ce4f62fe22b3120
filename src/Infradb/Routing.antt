-- ===== src/Infradb/Routing.antt =====
-- SaveRoutingTable and DeleteRoutingTable of pkg/infradb/infradb.go: the routing tables in use.
pub mod Tables
use opi_evpn_bridge.Prelude.{ℕ, Bool, false, [], none, some, nat_eq}
use opi_evpn_bridge.Prelude.Dict
use opi_evpn_bridge.Infradb.Errors.{key_not_found, routing_table_in_use}
use opi_evpn_bridge.Infradb.Store.{Codec, numbers}
use opi_evpn_bridge.Infradb.Program.{Prog, fail, ◌>>=◌}
use opi_evpn_bridge.Infradb.Ops.{put, get_numbers}

module _ (c : Codec) where
  unfoldable pub save_routing_table : ℕ → Prog (Unit {0})
  save_routing_table rt_num = do
    found ← get_numbers c "rts"
    elim found [
      | none ↦ put "rts" (numbers (Dict.insert rt_num false []))
      | some rts ↦ elim (Dict.lookup rt_num rts) [
        | some _ ↦ fail routing_table_in_use
        | none ↦ put "rts" (numbers (Dict.insert rt_num false rts))
      ]
    ]

  unfoldable pub delete_routing_table : ℕ → Prog (Unit {0})
  delete_routing_table rt_num = do
    found ← get_numbers c "rts"
    elim found [
      | none ↦ fail key_not_found
      | some rts ↦ elim (Dict.lookup rt_num rts) [
        | none ↦ fail key_not_found
        | some _ ↦ put "rts" (numbers (Dict.delete rt_num rts))
      ]
    ]
