-- ===== src/Infradb/View.antt =====
-- What a reader of the store's contents sees: the VNIs in use and the names in a list.
use opi_evpn_bridge.Prelude.{
  ℕ, String, Bool, true, false, Option, none, some, [], nat_beq, ◌==◌, ◌≡◌, ◌||◌, ◌&&◌, not, arith,
  nat_eq, string_eq,
}
use opi_evpn_bridge.Prelude.Dict.{Dict, lookup, insert, lookup-insert, delete, lookup-delete}
use opi_evpn_bridge.Infradb.Store.{Value, Codec}
use opi_evpn_bridge.Infradb.Ops.{or_new}
use opi_evpn_bridge.Infradb.Program.{Content}

abbrev pub is_some {ℓ} : {A : Type ℓ} → Option A → Bool
is_some none = false
is_some (some a) = true

abbrev pub read_as : {A : Type 0} → (Value → Option A) → Option Value → Option A
read_as as_type none = none
read_as as_type (some v) = as_type v

-- The value at a key, if there is one, decodes to the type.
abbrev pub decodes : {A : Type 0} → (Value → Option A) → Option Value → Bool
decodes as_type none = true
decodes as_type (some v) = is_some (as_type v)

abbrev pub has_vni : ℕ → Option (Dict ℕ Bool) → Bool
has_vni n none = false
has_vni n (some m) = is_some (lookup n m)

abbrev pub has_entry : String → Option (Dict String Bool) → Bool
has_entry n none = false
has_entry n (some m) = is_some (lookup n m)

-- The VNI is in the map `vpns`.
abbrev pub vni_used : Codec → Content → ℕ → Bool
vni_used c f n = has_vni n (read_as c.as_numbers (f "vpns"))

-- The name is in the map of names at this key.
abbrev pub listed : Codec → Content → String → String → Bool
listed c f list name = has_entry name (read_as c.as_names (f list))

abbrev pub holds : Option ℕ → ℕ → Bool
holds none n = false
holds (some m) n = nat_beq m n

pub has_vni-insert :
    (v n : ℕ) (m : Option (Dict ℕ Bool))
    → is_some (lookup n (insert v false (or_new m))) ≡ (nat_beq v n || has_vni n m)
unfolding lookup
has_vni-insert v n none = ground (arith, lookup-insert v n false [])
has_vni-insert v n (some m) = ground (arith, lookup-insert v n false m)

pub has_entry-insert :
    (v n : String) (m : Option (Dict String Bool))
    → is_some (lookup n (insert v false (or_new m))) ≡ (v == n || has_entry n m)
unfolding lookup
has_entry-insert v n none = ground (arith, lookup-insert v n false [])
has_entry-insert v n (some m) = ground (arith, lookup-insert v n false m)

pub has_vni-delete :
    (v n : ℕ) (m : Dict ℕ Bool)
    → is_some (lookup n (delete v m)) ≡ (is_some (lookup n m) && not (nat_beq v n))
has_vni-delete v n m = ground (arith, lookup-delete v n m)

pub has_entry-delete :
    (v n : String) (m : Dict String Bool)
    → is_some (lookup n (delete v m)) ≡ (is_some (lookup n m) && not (v == n))
has_entry-delete v n m = ground (arith, lookup-delete v n m)
