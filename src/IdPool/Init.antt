-- ===== src/IdPool/Init.antt =====
-- IDPoolInit.
use opi_evpn_bridge.Prelude.{
  ℕ, zero, suc, ◌+◌, ◌-◌, ◌%◌, ◌≤◌, ◌<◌, String, ◌≡◌, refl, true, List, [], ◌∷◌, none, some, arith,
  length,
}
use opi_evpn_bridge.IdPool.{u32_mod, fill, id_pool_init}

-- The identifiers from `min` on, `n` of them, the highest first.
unfoldable pub descending : ℕ → ℕ → List ℕ
descending min zero = []
descending min (suc n) = (min + n) ∷ descending min n

length-descending : (min n : ℕ) → length (descending min n) ≡ n
unfolding descending
length-descending min zero = refl
length-descending min (suc n) = omega (arith, length-descending min n)

fill-descending :
    (min value n : ℕ)
    → 0 < min
    → value + 1 ≡ min + n
    → value < u32_mod
    → fill min value n ≡ some (descending min n)
unfolding fill descending
fill-descending min value zero p e h = ground arith
fill-descending min value (suc n) p e h =
    ground (arith, fill-descending min ((value + u32_mod - 1) % u32_mod) n)

fill-zero : (value n : ℕ) → fill 0 value n ≡ none
unfolding fill
fill-zero value zero = ground arith
fill-zero value (suc n) = ground (arith, fill-zero ((value + u32_mod - 1) % u32_mod) n)

module _ {K R : Type 0} (name : String) (min max : ℕ) (fits : max < u32_mod) where
  -- For a range of 32-bit numbers that is not empty and does not begin at 0 the pool holds each
  -- identifier of the range once, in such an order that the lowest is given out first, and nothing
  -- is in use, released or referenced.
  pub id_pool_init-range :
      0 < min
      → min ≤ max
      → id_pool_init {K = K} {R = R} name min max
        ≡ some (
          record {
            name = name;
            unused_ids = descending min (max - min + 1);
            ids_in_use = [];
            ids_for_reuse = [];
            refs = [];
            size = max - min + 1;
          },
          true,
        )
  unfolding id_pool_init
  id_pool_init-range p h = ground (
    arith,
    fill-descending min max ((max - min + 1) % u32_mod),
    length-descending min (max - min + 1),
  )

  -- For a range of 32-bit numbers that begins at 0 the initialisation panics, whatever the range's
  -- end.
  pub id_pool_init-zero : min ≡ 0 → id_pool_init {K = K} {R = R} name min max ≡ none
  unfolding id_pool_init
  id_pool_init-zero e = ground (arith, fill-zero max ((max - min + 1) % u32_mod))
