-- ===== src/Linux/Vrfs/HalfUp.antt =====
-- A VRF whose set-up has failed between its device and its VXLAN link.
use opi_evpn_bridge.Prelude.{ℕ, String, List, ◌≡◌, ◌≢◌, false, none, some, arith, string_eq}
use opi_evpn_bridge.Prelude.Text.{path_base}
use opi_evpn_bridge.Infradb.Vrf.{Vrf, VrfMetadata}
use opi_evpn_bridge.Linux.Kernel.{Kernel, Links, IsDocumented, link_add}
use opi_evpn_bridge.Linux.Kernel.Laws.{accepted_or_same, missing}
use opi_evpn_bridge.Linux.Plan.{Plan, run_plan, succeeds, final}
use opi_evpn_bridge.Linux.Report.{Fmt}
use opi_evpn_bridge.Linux.Vrfs.{plan_vrf, tear_down_vrf, is_grd, vxlan_name, vrf_link}

module _ (K : Kernel) (mtu : ℕ) (text : Fmt) (random : List ℕ) (v : Vrf) where
  abbrev set_up : ℕ → Plan
  set_up table = plan_vrf mtu text random v table

  abbrev tear_down : VrfMetadata → Plan
  tear_down meta = tear_down_vrf mtu text random (record v { meta = meta })

  -- The states that set-ups and tear-downs of the VRF lead to, whatever routing table the pool
  -- gives and whatever metadata is stored.
  pub data Attempts (s : K.State) : K.State → Type 0 where
    start : Attempts s s
    again : {t : K.State} → Attempts s t → (table : ℕ) → Attempts s (final K (set_up table) t)
    delete :
        {t : K.State}
        → Attempts s t
        → (meta : VrfMetadata) → Attempts s (final K (tear_down meta) t)

  module _ (links : K.State → Links) where
    -- The device is there, and the VXLAN link is not.
    pub record IsHalfUp (t : K.State) : Type 0 where
      pub device : links t (path_base v.name) ≢ none
      pub no_vxlan : links t (vxlan_name v) ≡ none

    module _ (documented : IsDocumented K links) (vni : ℕ) (has_vni : v.spec.vni ≡ some vni)
        (ordinary : is_grd v ≡ false)
        (finds : (t : K.State) (n : String) → links t n ≢ none → K.find_error t n ≡ none) where
      set_up_fails :
          (t : K.State) (table : ℕ) (n : String)
          → IsHalfUp t
          → (succeeds K (set_up table) t ≡ false) × (links (final K (set_up table) t) n ≡ links t n)
      unfolding run_plan plan_vrf
      set_up_fails t table n half = ground (
        arith,
        half.device,
        documented.free t (vrf_link v table),
        accepted_or_same K links documented t (link_add (vrf_link v table)) n,
      )

      tear_down_fails :
          (t : K.State) (meta : VrfMetadata) (n : String)
          → IsHalfUp t
          → (succeeds K (tear_down meta) t ≡ false)
            × (links (final K (tear_down meta) t) n ≡ links t n)
      unfolding run_plan tear_down_vrf vxlan_name
      tear_down_fails t meta n half =
          let found = finds t (path_base v.name) half.device in
          let (e, lost) = missing K links documented t (vxlan_name v) half.no_vxlan in
          ground (arith, found, lost)

      stays-IsHalfUp : {s t : K.State} → Attempts s t → IsHalfUp s → IsHalfUp t
      stays-IsHalfUp start half = half
      stays-IsHalfUp (again {t} more table) half =
          let h = stays-IsHalfUp more half in
          record {
            device = rw ((set_up_fails t table (path_base v.name) h).1) h.device;
            no_vxlan = rw ((set_up_fails t table (vxlan_name v) h).1) h.no_vxlan;
          }
      stays-IsHalfUp (delete {t} more meta) half =
          let h = stays-IsHalfUp more half in
          record {
            device = rw ((tear_down_fails t meta (path_base v.name) h).1) h.device;
            no_vxlan = rw ((tear_down_fails t meta (vxlan_name v) h).1) h.no_vxlan;
          }

      -- A VRF whose device is there while its VXLAN link is not stays so: after any number of
      -- set-ups and tear-downs of it, each further set-up fails, and so does each further
      -- tear-down. It has a VNI and is not the GRD, a link that is there is found, and the kernel does
      -- what netlink documents.
      pub half_up-stuck :
          {s t : K.State}
          → Attempts s t
          → IsHalfUp s
          → ((table : ℕ) → succeeds K (set_up table) t ≡ false)
            × ((meta : VrfMetadata) → succeeds K (tear_down meta) t ≡ false)
      half_up-stuck {t = t} more half =
          let h = stays-IsHalfUp more half in
          (λ table. (set_up_fails t table "" h).0, λ meta. (tear_down_fails t meta "" h).0)
