-- ===== src/Infradb/Ops.antt =====
-- The steps that the functions of pkg/infradb/infradb.go share: reads at a type, the guard on the
-- subscribers, the maps of names and the map of the VNIs in use.
use opi_evpn_bridge.Prelude.{
  ℕ, String, Bool, true, false, List, [], ◌∷◌, Option, none, some, ◌==◌, nat_eq, string_eq,
  if◌then◌else◌,
}
use opi_evpn_bridge.Prelude.Dict
use opi_evpn_bridge.Prelude.Dict.{Dict}
use opi_evpn_bridge.Component.{Component}
use opi_evpn_bridge.EventBus.{Subscriber}
use opi_evpn_bridge.Infradb.Errors.{
  key_not_found, vni_in_use, no_subscribers, unmarshal, index_out_of_range,
}
use opi_evpn_bridge.Infradb.LogicalBridge.{LogicalBridge}
use opi_evpn_bridge.Infradb.Vrf.{Vrf}
use opi_evpn_bridge.Infradb.Svi.{Svi}
use opi_evpn_bridge.Infradb.BridgePort.{BridgePort}
use opi_evpn_bridge.Infradb.Store.{Value, names, numbers, Codec}
use opi_evpn_bridge.Infradb.Program.{Prog, pure, fail, get, set, status_updated, ◌>>=◌}

-- What `Get` hands to its caller, once the value is decoded.
abbrev pub decoded : {A : Type 0} → (Value → Option A) → Option Value → Prog (Option A)
decoded as_type none = pure none
decoded as_type (some v) = elim (as_type v) [ none ↦ fail unmarshal | some a ↦ pure (some a) ]

abbrev pub get_as : {A : Type 0} → (Value → Option A) → String → Prog (Option A)
get_as as_type k = get k (decoded as_type)

abbrev pub need_subscribers : String → List Subscriber → Prog (Unit {0})
need_subscribers object_type [] = fail (no_subscribers object_type)
need_subscribers object_type (s ∷ rest) = pure tt

abbrev pub or_panic : {A : Type 0} → Option A → Prog A
or_panic none = fail index_out_of_range
or_panic (some a) = pure a

abbrev pub put : String → Value → Prog (Unit {0})
put k v = set k v (pure tt)

abbrev pub report : String → String → String → String → Bool → Component → Prog (Unit {0})
report name object_type resource_version notification_id drop_task component =
    status_updated
      (record {
        name = name;
        object_type = object_type;
        resource_version = resource_version;
        notification_id = notification_id;
        drop_task = drop_task;
        component = component;
      })
      (pure tt)

unfoldable pub is_empty {ℓ} : {A : Type ℓ} → List A → Bool
is_empty [] = true
is_empty (x ∷ xs) = false

abbrev pub or_new {ℓ} : {K V : Type ℓ} → Option (Dict K V) → Dict K V
or_new none = []
or_new (some m) = m

module _ (c : Codec) where
  abbrev pub get_bridge : String → Prog (Option LogicalBridge)
  get_bridge = get_as c.as_bridge

  abbrev pub get_vrf : String → Prog (Option Vrf)
  get_vrf = get_as c.as_vrf

  abbrev pub get_svi : String → Prog (Option Svi)
  get_svi = get_as c.as_svi

  abbrev pub get_port : String → Prog (Option BridgePort)
  get_port = get_as c.as_port

  abbrev pub get_names : String → Prog (Option (Dict String Bool))
  get_names = get_as c.as_names

  abbrev pub get_numbers : String → Prog (Option (Dict ℕ Bool))
  get_numbers = get_as c.as_numbers

  abbrev pub with_vni : ℕ → Option (Dict ℕ Bool) → Prog (Dict ℕ Bool)
  with_vni vni none = pure (Dict.insert vni false [])
  with_vni vni (some vpns) = elim (Dict.lookup vni vpns) [
    | some _ ↦ fail vni_in_use
    | none ↦ pure (Dict.insert vni false vpns)
  ]

  -- The check of a new object's VNI: the map to store, with the VNI in it.
  unfoldable pub check_vni : Option ℕ → Prog (Dict ℕ Bool)
  check_vni none = pure []
  check_vni (some vni) = do found ← get_numbers "vpns"; with_vni vni found

  unfoldable pub store_vni : Option ℕ → Dict ℕ Bool → Prog (Unit {0})
  store_vni none vpns = pure tt
  store_vni (some vni) vpns = put "vpns" (numbers vpns)

  -- removeVniFromVpns
  unfoldable pub remove_vni_from_vpns : ℕ → Prog (Unit {0})
  remove_vni_from_vpns vni = if vni == 0 then pure tt else do
    found ← get_numbers "vpns"
    elim found [
      | none ↦ fail key_not_found
      | some vpns ↦ put "vpns" (numbers (Dict.delete vni vpns))
    ]

  unfoldable pub release_vni : Option ℕ → Prog (Unit {0})
  unfolding remove_vni_from_vpns
  release_vni none = pure tt
  release_vni (some vni) = remove_vni_from_vpns vni

  -- The entry of a name in one of the maps `lbs`, `bps`, `vrfs` and `svis`.
  unfoldable pub add_name : String → String → Prog (Unit {0})
  add_name list name = do
    found ← get_names list
    put list (names (Dict.insert name false (or_new found)))

  unfoldable pub remove_name : String → String → Prog (Unit {0})
  remove_name list name = do
    found ← get_names list
    elim found [ none ↦ fail key_not_found | some m ↦ put list (names (Dict.delete name m)) ]
