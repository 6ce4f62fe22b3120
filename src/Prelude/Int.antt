-- ===== src/Prelude/Int.antt =====
-- Integers over the native numbers, under the library's names: `negsuc n` is -(n + 1).
use Prim.Native.Nat.{ℕ}
use mathlib.Core.Path.{◌≡◌, refl}
use mathlib.Core.Bool.{Bool, true, false}
use native.Mathlib.Omega.{arith}
use opi_evpn_bridge.Prelude.Tests.{leb}

pub data ℤ : Type 0 where
  pos : ℕ → ℤ
  negsuc : ℕ → ℤ

abbrev pub int_leb : ℤ → ℤ → Bool
int_leb (pos m) (pos n) = leb m n
int_leb (pos m) (negsuc n) = false
int_leb (negsuc m) (pos n) = true
int_leb (negsuc m) (negsuc n) = leb n m

pub int_leb_trans : (i j k : ℤ) → int_leb i j ≡ true → int_leb j k ≡ true → int_leb i k ≡ true
int_leb_trans (pos m) (pos n) (pos o) h g = ground (arith, h, g)
int_leb_trans (pos m) (pos n) (negsuc o) h g = g
int_leb_trans (pos m) (negsuc n) k h g = ground (arith, h)
int_leb_trans (negsuc m) j (pos o) h g = refl
int_leb_trans (negsuc m) (pos n) (negsuc o) h g = ground (arith, g)
int_leb_trans (negsuc m) (negsuc n) (negsuc o) h g = ground (arith, h, g)

pub int_leb_total : (i j : ℤ) → int_leb i j ≡ false → int_leb j i ≡ true
int_leb_total (pos m) (pos n) h = ground (arith, h)
int_leb_total (pos m) (negsuc n) h = refl
int_leb_total (negsuc m) (pos n) h = ground (arith, h)
int_leb_total (negsuc m) (negsuc n) h = ground (arith, h)
