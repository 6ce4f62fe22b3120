-- ===== src/Pagination.antt =====
-- pkg/utils/pagination.go, and its use by the List handlers of pkg/bridge, pkg/port, pkg/svi and
-- pkg/vrf. A page size is an `int32`; offsets are far below the bound of `int`, and never negative.
pub mod Pages
mod Examples
use opi_evpn_bridge.Prelude.{
  ℕ, ◌+◌, ◌-◌, String, Bool, true, false, List, [], ◌∷◌, Option, none, some, ltb, ◌==◌, nat_eq,
  string_eq, if◌then◌else◌, length, take, drop,
}
use opi_evpn_bridge.Prelude.Int.{ℤ, pos, negsuc}
use opi_evpn_bridge.Prelude.Dict.{Dict, lookup, insert}

-- The two errors of ExtractPagination, and the panic of a slice expression.
pub data PagingError : Type 0 where
  negative_page_size : PagingError
  unknown_token : String → PagingError
  slice_out_of_range : PagingError

pub data Extracted : Type 0 where
  extracted : ℕ → ℕ → Extracted
  rejected : PagingError → Extracted

abbrev pub default_page_size : ℕ
default_page_size = 50

abbrev pub max_page_size : ℕ
max_page_size = 250

unfoldable pub size_of : ℕ → ℕ
size_of page_size =
    if page_size == 0
    then default_page_size
    else if ltb max_page_size page_size
    then max_page_size
    else page_size

unfoldable pub offset_of : String → Dict String ℕ → Option ℕ
offset_of page_token pagination = if page_token == "" then some 0 else lookup page_token pagination

abbrev with_offset : ℕ → String → Option ℕ → Extracted
with_offset size page_token none = rejected (unknown_token page_token)
with_offset size page_token (some offset) = extracted size offset

unfoldable pub extract_pagination : ℤ → String → Dict String ℕ → Extracted
unfolding size_of offset_of
extract_pagination (negsuc n) page_token pagination = rejected negative_page_size
extract_pagination (pos n) page_token pagination =
    with_offset (size_of n) page_token (offset_of page_token pagination)

-- `none` is the panic of `result[offset:end]` where `end < offset`.
unfoldable pub limit_pagination {ℓ} : {A : Type ℓ} → List A → ℕ → ℕ → Option (List A × Bool)
limit_pagination result offset size =
    let has_more_elements = ltb (offset + size) (length result) in
    let end = if has_more_elements then offset + size else length result in
    if ltb end offset
    then none
    else some (take (end - offset) (drop offset result), has_more_elements)

-- What a List handler answers, and the map of tokens that it leaves.
pub data Page {ℓ} (A : Type ℓ) : Type ℓ where
  listed : List A → String → Page A
  failed : PagingError → Page A

abbrev limited {ℓ} :
    {A : Type ℓ} → String → ℕ → Dict String ℕ → Option (List A × Bool) → Page A × Dict String ℕ
limited new_token next pagination none = (failed slice_out_of_range, pagination)
limited new_token next pagination (some (page, true)) =
    (listed page new_token, insert new_token next pagination)
limited new_token next pagination (some (page, false)) = (listed page "", pagination)

abbrev paged {ℓ} :
    {A : Type ℓ} → List A → String → Dict String ℕ → Extracted → Page A × Dict String ℕ
paged result new_token pagination (rejected e) = (failed e, pagination)
paged result new_token pagination (extracted size offset) =
    limited new_token (offset + size) pagination (limit_pagination result offset size)

-- The paging of a List handler: `result` is the sorted list of the objects, and `new_token` the UUID
-- that is drawn if there is a next page.
unfoldable pub list_page {ℓ} :
    {A : Type ℓ} → List A → ℤ → String → String → Dict String ℕ → Page A × Dict String ℕ
unfolding extract_pagination limit_pagination
list_page result page_size page_token new_token pagination =
    paged result new_token pagination (extract_pagination page_size page_token pagination)
