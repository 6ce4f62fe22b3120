-- ===== src/IdPool/Examples.antt =====
-- A pool of the identifiers from 5 to 6, with texts for keys and references.
use opi_evpn_bridge.Prelude.{
  ◌≤◌, ◌≡◌, ◌≢◌, refl, String, List, [], ◌∷◌, some, arith, nat_eq, string_eq,
}
use opi_evpn_bridge.Prelude.Dict.{lookup, insert, delete}
use opi_evpn_bridge.IdPool.{
  IdPool, id_pool_init, fill, get_id, get_id_with_ref, assignid, last, without_last, release_id,
  release_id_with_ref,
}
use opi_evpn_bridge.IdPool.Unique.{
  Call, gets, gets_plain, releases, run_calls, step, count, run_calls_lem,
}
use opi_evpn_bridge.IdPool.Reuse.{asked, run_calls-release_id}

abbrev fresh : IdPool String String
fresh = record {
  name = "mods";
  unused_ids = 6 ∷ 5 ∷ [];
  ids_in_use = [];
  ids_for_reuse = [];
  refs = [];
  size = 2;
}

-- The key "a" gives its identifier back and asks anew; then both keys ask.
abbrev first_calls : List (Call String String)
first_calls = gets_plain "a" ∷ []

abbrev later_calls : List (Call String String)
later_calls = gets_plain "b" ∷ gets_plain "a" ∷ []

abbrev at_end : IdPool String String
at_end = run_calls (asked "mods" 5 6 fresh first_calls later_calls "a").1 later_calls

run_calls-release_id_example :
    ((asked "mods" 5 6 fresh first_calls later_calls "a").0 ≡ 0)
    × (lookup "b" at_end.ids_in_use ≢ some 5)
    × (lookup "b" at_end.ids_for_reuse ≢ some 5)
    × (count 5 at_end.unused_ids ≡ 0)
unfolding run_calls step lookup id_pool_init fill release_id get_id assignid last insert
    without_last delete
run_calls-release_id_example =
    run_calls-release_id "mods" 5 6 fresh first_calls later_calls "a" "b" (omega arith)
      (omega arith) (omega arith) refl (λ e. absurd (omega arith))

abbrev calls : List (Call String String)
calls = gets "a" (some "r") ∷ gets_plain "b" ∷ releases "a" (some "r") ∷ []

abbrev holder : String
holder = "b"

run_calls_lem_example : (5 ≤ 6) × (6 ≤ 6) × (holder ≡ holder)
unfolding run_calls step lookup id_pool_init fill release_id_with_ref get_id get_id_with_ref
    assignid last insert without_last delete
run_calls_lem_example =
    run_calls_lem "mods" 5 6 fresh calls holder holder 6 (omega arith) (omega arith) (omega arith)
      refl refl refl
