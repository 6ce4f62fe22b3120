-- ===== src/Pagination/Pages.antt =====
-- The pages that a client gets by following the tokens.
use text.Mathlib.TextEquality.{eq_iff}
use opi_evpn_bridge.Prelude.{
  ℕ, zero, suc, ◌+◌, ◌-◌, ◌≤◌, ◌<◌, ◌≡◌, refl, ap, String, true, false, List, [], ◌∷◌, ◌++◌, Option,
  none, some, arith, ◌==◌, string_eq, if◌then◌else◌, length, take, drop, All, Bool-cases, inl, inr,
  ltb,
}
use opi_evpn_bridge.Prelude.Int.{ℤ, pos}
use opi_evpn_bridge.Prelude.Dict.{Dict, lookup, insert, lookup-insert}
use opi_evpn_bridge.Pagination.{
  slice_out_of_range, extract_pagination, size_of, offset_of, limit_pagination, listed, failed,
  list_page,
}

size_of-positive : (n : ℕ) → 0 < size_of n
unfolding size_of
size_of-positive n = ground arith

offset_of-insert :
    (new : String) (offset : ℕ) (pagination : Dict String ℕ)
    → (new == "") ≡ false
    → offset_of new (insert new offset pagination) ≡ some offset
unfolding offset_of
offset_of-insert new offset pagination h =
    ground (arith, eq_iff new new, lookup-insert new new offset pagination)

module _ {A : Type 0} where
  take-all : (n : ℕ) (xs : List A) → length xs ≤ n → take n xs ≡ xs
  take-all zero [] h = refl
  take-all zero (x ∷ xs) h = absurd (omega arith)
  take-all (suc n) [] h = refl
  take-all (suc n) (x ∷ xs) h = ap (λ l. x ∷ l) (take-all n xs (omega arith))

  length-drop : (m : ℕ) (xs : List A) → length (drop m xs) ≡ length xs - m
  length-drop zero xs = omega arith
  length-drop (suc m) [] = omega arith
  length-drop (suc m) (x ∷ xs) = omega (arith, length-drop m xs)

  take-drop : (m n : ℕ) (xs : List A) → take n (drop m xs) ++ drop (m + n) xs ≡ drop m xs
  take-drop zero zero xs = refl
  take-drop zero (suc n) [] = let e : zero + suc n ≡ suc (zero + n) = omega arith in rw e refl
  take-drop zero (suc n) (x ∷ xs) =
      let e : zero + suc n ≡ suc (zero + n) = omega arith in
      rw e (ap (λ l. x ∷ l) (take-drop zero n xs))
  take-drop (suc m) zero [] = let e : suc m + zero ≡ suc (m + zero) = omega arith in rw e refl
  take-drop (suc m) (suc n) [] = let e : suc m + suc n ≡ suc (m + suc n) = omega arith in rw e refl
  take-drop (suc m) n (x ∷ xs) =
      let e : suc m + n ≡ suc (m + n) = omega arith in rw e (take-drop m n xs)

  limit_pagination-more :
      (result : List A) (offset size : ℕ)
      → offset + size < length result
      → limit_pagination result offset size ≡ some (take size (drop offset result), true)
  unfolding limit_pagination
  limit_pagination-more result offset size h =
      let e : offset + size - offset ≡ size = omega arith in ground (arith, e)

  limit_pagination-last :
      (result : List A) (offset size : ℕ)
      → offset ≤ length result
      → length result ≤ offset + size
      → limit_pagination result offset size ≡ some (drop offset result, false)
  unfolding limit_pagination
  limit_pagination-last result offset size low h =
      ground
        (arith, length-drop offset result, take-all (length result - offset) (drop offset result))

  abbrev pub prepended : List A → Option (List A) → Option (List A)
  prepended page none = none
  prepended page (some rest) = some (page ++ rest)

  -- A client that asks for all pages with one page size, from a token on, while the objects stay as
  -- they are; `tokens` are the UUIDs that the handler draws, one for each call. `none`: a call has
  -- failed, or there were more calls than `tokens`.
  unfoldable pub list_all : List String → ℤ → String → Dict String ℕ → List A → Option (List A)
  list_all [] page_size page_token pagination result = none
  list_all (new ∷ tokens) page_size page_token pagination result =
      let (answer, pagination') = list_page result page_size page_token new pagination in
      elim answer [
        | failed e ↦ none
        | listed page next ↦
            let rest = list_all tokens page_size next pagination' result in
            if next == "" then some page else prepended page rest
      ]

  list_page-more :
      (n offset : ℕ) (page_token new : String) (pagination : Dict String ℕ) (result : List A)
      → offset_of page_token pagination ≡ some offset
      → offset + size_of n < length result
      → list_page result (pos n) page_token new pagination ≡ (
        listed (take (size_of n) (drop offset result)) new,
        insert new (offset + size_of n) pagination,
      )
  unfolding list_page extract_pagination
  list_page-more n offset page_token new pagination result at h =
      rw (at, limit_pagination-more result offset (size_of n) h) refl

  list_page-last :
      (n offset : ℕ) (page_token new : String) (pagination : Dict String ℕ) (result : List A)
      → offset_of page_token pagination ≡ some offset
      → offset ≤ length result
      → length result ≤ offset + size_of n
      → list_page result (pos n) page_token new pagination
        ≡ (listed (drop offset result) "", pagination)
  unfolding list_page extract_pagination
  list_page-last n offset page_token new pagination result at low h =
      rw (at, limit_pagination-last result offset (size_of n) low h) refl

  list_all-drop :
      (tokens : List String) (n offset : ℕ) (page_token : String) (pagination : Dict String ℕ)
      (result : List A)
      → All (λ t. (t == "") ≡ false) tokens
      → offset_of page_token pagination ≡ some offset
      → offset ≤ length result
      → length result < offset + length tokens
      → list_all tokens (pos n) page_token pagination result ≡ some (drop offset result)
  unfolding list_all
  list_all-drop [] n offset page_token pagination result fresh at low enough = absurd (omega arith)
  list_all-drop (new ∷ tokens) n offset page_token pagination result fresh at low enough =
      elim (Bool-cases (ltb (offset + size_of n) (length result))) [
        | inl more ↦
            let next = offset + size_of n in
            let below : next < length result = ground arith in
            let ih =
              list_all-drop tokens n next new (insert new next pagination) result fresh.1
                (offset_of-insert new next pagination fresh.0) (omega arith)
                (omega (arith, size_of-positive n)) in
            let e = list_page-more n offset page_token new pagination result at below in
            rw (e, list_all, fresh.0, e, ih) (ap some (take-drop offset (size_of n) result))
        | inr last ↦
            let above : length result ≤ offset + size_of n = ground arith in
            rw (list_page-last n offset page_token new pagination result at low above, list_all)
              refl
      ]

  -- A client that follows the tokens from the first page on, with any page size that is not
  -- negative, gets every object exactly once, in order, and the calls come to an end: no more of
  -- them than there are objects, and one, are needed. The objects stay as they are in the meantime,
  -- and no token that is drawn is empty.
  pub list_all_lem :
      (tokens : List String) (n : ℕ) (pagination : Dict String ℕ) (result : List A)
      → All (λ t. (t == "") ≡ false) tokens
      → length result < length tokens
      → list_all tokens (pos n) "" pagination result ≡ some result
  unfolding offset_of
  list_all_lem tokens n pagination result fresh enough =
      list_all-drop tokens n 0 "" pagination result fresh refl (omega arith) (omega arith)

  -- A token whose offset lies beyond the objects that are left, since some were deleted after it was
  -- given out, makes the handler panic; the token stays valid.
  pub list_page-slice_out_of_range :
      (n offset : ℕ) (page_token new_token : String) (pagination : Dict String ℕ) (result : List A)
      → (page_token == "") ≡ false
      → lookup page_token pagination ≡ some offset
      → length result < offset
      → list_page result (pos n) page_token new_token pagination
        ≡ (failed slice_out_of_range, pagination)
  unfolding list_page extract_pagination offset_of size_of limit_pagination
  list_page-slice_out_of_range n offset page_token new_token pagination result given at short =
      ground arith
