-- ===== src/Linux/Svis.antt =====
-- setUpSvi and tearDownSvi of pkg/LinuxGeneralModule/lgm.go. `get_lb` is infradb.GetLB, and `mtu`
-- is `ipMtu`.
pub mod Links
use opi_evpn_bridge.Prelude.{
  ℕ, ◌%◌, ◌^◌, ◌-◌, String, Bool, true, false, List, [], ◌∷◌, Option, none, some, ltb,
  if◌then◌else◌,
}
use opi_evpn_bridge.Prelude.Text.{sprint, decimal, path_base}
use opi_evpn_bridge.Infradb.Errors.{Result, ok, err}
use opi_evpn_bridge.Infradb.LogicalBridge.{LogicalBridge, IpNet}
use opi_evpn_bridge.Infradb.Svi.{Svi}
use opi_evpn_bridge.Linux.Kernel.{
  NewLink, VlanFlags, vlan, link_add, link_del, link_set_master, link_set_mtu, link_set_up,
  link_set_hardware_addr, bridge_vlan_add, bridge_vlan_del, addr_add, sysctl,
}
use opi_evpn_bridge.Linux.Plan.{Plan, finish, request, attempt, find, in_order}
use opi_evpn_bridge.Linux.Report.{Fmt}
use opi_evpn_bridge.Linux.Bridges.{br_tenant}

abbrev pub self_flags : VlanFlags
self_flags = record { pvid = false; untagged = false; self = true; master = false }

unfoldable pub svi_link_name : Svi → LogicalBridge → String
svi_link_name svi lb = sprint (path_base svi.spec.vrf ∷ "-" ∷ decimal lb.spec.vlan_id ∷ [])

abbrev pub svi_link : Svi → LogicalBridge → NewLink
svi_link svi lb = record {
  name = svi_link_name svi lb;
  mtu = 0;
  kind = vlan br_tenant lb.spec.vlan_id;
}

abbrev too_big : String → LogicalBridge → String
too_big prefix lb = sprint (
    prefix
    ∷ " : VlanID "
    ∷ decimal lb.spec.vlan_id
    ∷ " value passed in Logical Bridge create is greater than 16 bit value\n"
    ∷ [])

abbrev no_bridge : Fmt → String → String → Result LogicalBridge → (LogicalBridge → Plan) → Plan
no_bridge text prefix name (ok lb) p = p lb
no_bridge text prefix name (err e) p =
    finish (sprint (prefix ∷ ": unable to find key " ∷ name ∷ " and error is " ∷ text.error e ∷ []))
      false

-- GetLB, for the source's loops and functions that end with its error.
abbrev pub with_bridge :
    Fmt → String → (String → Result LogicalBridge) → String → (LogicalBridge → Plan) → Plan
with_bridge text prefix get_lb name p = no_bridge text prefix name (get_lb name) p

-- `vid`, where the bridge's VLAN fits 16 bits.
abbrev pub with_vid : String → LogicalBridge → (ℕ → Plan) → Plan
with_vid prefix lb p =
    if ltb (2 ^ 16 - 1) lb.spec.vlan_id
    then finish (too_big prefix lb) false
    else p (lb.spec.vlan_id % 2 ^ 16)

module _ (mtu : ℕ) (text : Fmt) (get_lb : String → Result LogicalBridge) where
  add_addresses : String → List IpNet → Plan → Plan
  add_addresses link [] rest = rest
  add_addresses link (ip ∷ ips) rest =
      request (addr_add link (some ip))
        (λ e. sprint (
          "LGM: Failed to add ip address " ∷ text.ip_net ip ∷ " to " ∷ link ∷ ": " ∷ e ∷ "\n" ∷ []))
        (add_addresses link ips rest)

  abbrev link_says : String → Svi → LogicalBridge → String → String
  link_says what svi lb e =
      sprint ("LGM : Failed to " ∷ what ∷ " " ∷ text.link (svi_link svi lb) ∷ ": " ∷ e ∷ "\n" ∷ [])

  set_up_vlan : Svi → LogicalBridge → ℕ → Plan
  unfolding add_addresses
  set_up_vlan svi lb vid =
      let link = svi_link_name svi lb in
      let vrf = path_base svi.spec.vrf in
      in_order
        (request (bridge_vlan_add br_tenant vid self_flags) (λ e. sprint (
            "LGM : Failed to add VLAN "
            ∷ decimal vid
            ∷ " to bridge interface "
            ∷ br_tenant
            ∷ ": "
            ∷ e
            ∷ "\n"
            ∷ []))
          ∷ request (link_add (svi_link svi lb)) (λ e.
            sprint ("LGM : Failed to add VLAN sub-interface " ∷ link ∷ ": " ∷ e ∷ "\n" ∷ []))
          ∷ request (link_set_hardware_addr link svi.spec.mac_address) (link_says "set link" svi lb)
          ∷ find vrf
              (λ e.
                sprint ("LGM : Failed to get link information for " ∷ vrf ∷ ": " ∷ e ∷ "\n" ∷ []))
              false
          ∷ request (link_set_master link vrf) (link_says "set master for" svi lb)
          ∷ request (link_set_up link) (link_says "set up link for" svi lb)
          ∷ request (link_set_mtu link mtu) (link_says "set MTU for" svi lb)
          ∷ attempt (sysctl (sprint ("net.ipv4.conf." ∷ link ∷ ".arp_accept=1" ∷ [])))
          ∷ add_addresses link svi.spec.gateway_ips
          ∷ [])
        (finish "" true)

  no_tenant : String → String
  no_tenant e =
      sprint ("LGM : Failed to get link information for " ∷ br_tenant ∷ ": " ∷ e ∷ "\n" ∷ [])

  unfoldable pub set_up_svi : Svi → Plan
  unfolding set_up_vlan no_tenant
  set_up_svi svi =
      with_bridge text "LGM" get_lb svi.spec.logical_bridge
        λ lb. find br_tenant no_tenant false (with_vid "LGM" lb (set_up_vlan svi lb))

  unfoldable pub tear_down_svi : Svi → Plan
  unfolding no_tenant
  tear_down_svi svi = with_bridge text "LGM" get_lb svi.spec.logical_bridge λ lb.
      let link = svi_link_name svi lb in
      find br_tenant no_tenant false (
        with_vid "LGM" lb λ vid.
          in_order
            (request (bridge_vlan_del br_tenant vid self_flags) (λ e. sprint (
                "LGM : Failed to Del VLAN "
                ∷ decimal vid
                ∷ " to bridge interface "
                ∷ br_tenant
                ∷ ": "
                ∷ e
                ∷ "\n"
                ∷ []))
              ∷ find link (λ e. sprint ("LGM : Failed to get link " ∷ link ∷ ": " ∷ e ∷ "\n" ∷ []))
                  true
              ∷ request (link_del link)
                  (λ e. sprint ("LGM : Failed to delete link " ∷ link ∷ ": " ∷ e ∷ "\n" ∷ []))
              ∷ [])
            (finish "" true))
