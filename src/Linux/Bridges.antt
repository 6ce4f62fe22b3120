-- ===== src/Linux/Bridges.antt =====
-- setUpBridge, tearDownBridge and the tenant bridge of pkg/LinuxGeneralModule/lgm.go. `mtu` is
-- `ipMtu`, from the configuration.
pub mod Links
use opi_evpn_bridge.Prelude.{
  ℕ, ◌+◌, ◌%◌, ◌^◌, String, Bool, true, false, List, [], ◌∷◌, Option, none, some,
}
use opi_evpn_bridge.Prelude.Text.{sprint, decimal}
use opi_evpn_bridge.Infradb.LogicalBridge.{LogicalBridge}
use opi_evpn_bridge.Linux.Kernel.{
  NewLink, VlanFlags, vxlan, bridge, link_add, link_del, link_set_master, link_set_mtu, link_set_up,
  bridge_vlan_add, link_set_br_neigh_suppress,
}
use opi_evpn_bridge.Linux.Plan.{Plan, finish, request, find, in_order, deref}
use opi_evpn_bridge.Linux.Report.{Fmt}

abbrev pub br_tenant : String
br_tenant = "br-tenant"

abbrev pub access_flags : VlanFlags
access_flags = record { pvid = true; untagged = true; self = false; master = false }

unfoldable pub vxlan_name : LogicalBridge → String
vxlan_name lb = sprint ("vxlan-" ∷ decimal lb.spec.vlan_id ∷ [])

abbrev pub vxlan_link : ℕ → LogicalBridge → ℕ → ℕ → NewLink
vxlan_link mtu lb vni src = record {
  name = vxlan_name lb;
  mtu = mtu;
  kind = vxlan vni 4789 (some src) false false;
}

module _ (mtu : ℕ) (text : Fmt) where
  set_up_vxlan : LogicalBridge → ℕ → Plan
  set_up_vxlan lb vni =
      let link = vxlan_name lb in
      find br_tenant
        (λ e.
          sprint ("LGM: Failed to get link information for " ∷ br_tenant ∷ ": " ∷ e ∷ "\n" ∷ []))
        false
        (deref lb.spec.vtep_ip λ vtep.
          let new_link = vxlan_link mtu lb vni vtep.ip in
          in_order
            (request (link_add new_link)
                (λ e. sprint ("LGM: Failed to create Vxlan linki " ∷ link ∷ ": " ∷ e ∷ "\n" ∷ []))
              ∷ request (link_set_master link br_tenant) (λ e. sprint (
                  "LGM: Failed to add Vxlan " ∷ link ∷ " to bridge " ∷ br_tenant ∷ ": " ∷ e ∷ "\n"
                  ∷ []))
              ∷ request (link_set_up link)
                  (λ e. sprint ("LGM: Failed to up Vxlan link " ∷ link ∷ ": " ∷ e ∷ "\n" ∷ []))
              ∷ request (bridge_vlan_add link (lb.spec.vlan_id % 2 ^ 16) access_flags) (λ e.
                sprint ("LGM: Failed to add vlan to bridge " ∷ br_tenant ∷ ": " ∷ e ∷ "\n" ∷ []))
              ∷ request (link_set_br_neigh_suppress link true) (λ e. sprint (
                  "LGM: Failed to add bridge "
                  ∷ text.link new_link
                  ∷ " neigh_suppress: "
                  ∷ e
                  ∷ "\n"
                  ∷ []))
              ∷ [])
            (finish "" true))

  unfoldable pub set_up_bridge : LogicalBridge → Plan
  unfolding set_up_vxlan
  set_up_bridge lb = elim lb.spec.vni [ none ↦ finish "" true | some vni ↦ set_up_vxlan lb vni ]

-- A link that is not found counts as torn down.
unfoldable pub tear_down_bridge : LogicalBridge → Plan
tear_down_bridge lb =
    let link = vxlan_name lb in
    elim lb.spec.vni [
      | none ↦ finish "" true
      | some _ ↦
          find link (λ e. sprint ("LGM: Failed to get link " ∷ link ∷ ": " ∷ e ∷ "\n" ∷ [])) true
            (request (link_del link)
              (λ e. sprint ("LGM: Failed to delete link " ∷ link ∷ ": " ∷ e ∷ "\n" ∷ []))
              (finish "" true))
    ]
