-- ===== src/Pagination/Examples.antt =====
-- Three objects in pages of two.
use opi_evpn_bridge.Prelude.{ℕ, ◌≡◌, refl, String, List, [], ◌∷◌, some, arith}
use opi_evpn_bridge.Prelude.Int.{pos}
use opi_evpn_bridge.Prelude.Dict.{Dict, lookup}
use opi_evpn_bridge.Pagination.{slice_out_of_range, list_page, failed}
use opi_evpn_bridge.Pagination.Pages.{list_all, list_all_lem, list_page-slice_out_of_range}

abbrev names : List String
names = "a" ∷ "b" ∷ "c" ∷ []

abbrev tokens : List String
tokens = "t1" ∷ "t2" ∷ "t3" ∷ "t4" ∷ []

list_all_lem_example : list_all tokens (pos 2) "" [] names ≡ some names
list_all_lem_example =
    list_all_lem tokens 2 [] names (refl, (refl, (refl, (refl, tt)))) (omega arith)

abbrev given : Dict String ℕ
given = ("t1", 2) ∷ []

abbrev left : List String
left = "a" ∷ []

list_page-slice_out_of_range_example :
    list_page left (pos 2) "t1" "t2" given ≡ (failed slice_out_of_range, given)
unfolding lookup
list_page-slice_out_of_range_example =
    list_page-slice_out_of_range 2 2 "t1" "t2" given left refl refl (omega arith)
