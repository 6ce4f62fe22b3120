-- ===== src/Frr/Svis.antt =====
-- setUpSvi and tearDownSvi of pkg/frr/frr.go.
use opi_evpn_bridge.Prelude.{ℕ, String, true, false, [], ◌∷◌, if◌then◌else◌}
use opi_evpn_bridge.Prelude.Text.{sprint, decimal, path_base}
use opi_evpn_bridge.Infradb.Errors.{Error, Result, ok, err}
use opi_evpn_bridge.Infradb.LogicalBridge.{LogicalBridge, IpNet}
use opi_evpn_bridge.Infradb.Svi.{Svi}
use opi_evpn_bridge.Frr.Session.{Session, finish, bgpd, must, deref}

-- How errors and addresses are printed. `ip_bytes` is the text whose bytes are those of an address,
-- which `string(ip.To4())` gives.
pub record Fmt : Type 0 where
  pub error : Error → String
  pub ip_net : IpNet → String
  pub ip_bytes : ℕ → String

abbrev link_name : Svi → LogicalBridge → String
link_name svi lb = sprint (path_base svi.spec.vrf ∷ "-" ∷ decimal lb.spec.vlan_id ∷ [])

module _ (localas : ℕ) (text : Fmt) (get_lb : String → Result LogicalBridge) where
  -- The bridge of the SVI, or the end with what `module_name` says of the error.
  with_lb : String → Svi → (LogicalBridge → Session) → Session
  with_lb module_name svi next = elim (get_lb svi.spec.logical_bridge) [
    | err e ↦
        finish
          (sprint (
            module_name
            ∷ ": unable to find key "
            ∷ svi.spec.logical_bridge
            ∷ " and error is "
            ∷ text.error e
            ∷ []))
          false
    | ok lb ↦ next lb
  ]

  -- Only an SVI with BGP and a gateway address is configured; the first address counts.
  if_bgp : Svi → (IpNet → Session) → Session
  if_bgp svi next = elim svi.spec.gateway_ips [
    | [] ↦ finish "" true
    | gw ∷ _ ↦ if svi.spec.enable_bgp then next gw else finish "" true
  ]

  add_peers : Svi → String → IpNet → ℕ → Session
  add_peers svi link gw remote_as =
      must bgpd
        (sprint (
          "configure terminal\n router bgp "
          ∷ decimal localas
          ∷ " vrf "
          ∷ path_base svi.spec.vrf
          ∷ "\n bgp disable-ebgp-connected-route-check\n neighbor "
          ∷ link
          ∷ " peer-group\n neighbor "
          ∷ link
          ∷ " remote-as "
          ∷ decimal remote_as
          ∷ "\n neighbor "
          ∷ link
          ∷ " update-source "
          ∷ text.ip_bytes gw.ip
          ∷ "\n neighbor "
          ∷ link
          ∷ " as-override\n neighbor "
          ∷ link
          ∷ " soft-reconfiguration inbound\n  bgp listen range "
          ∷ text.ip_net gw
          ∷ " peer-group "
          ∷ link
          ∷ "\n exit"
          ∷ []))
        false
        (λ e.
          finish
            (sprint (
              "FRR: Error in conf svi "
              ∷ svi.name
              ∷ " "
              ∷ path_base svi.spec.vrf
              ∷ " command "
              ∷ e
              ∷ "\n"
              ∷ []))
            false)
        (finish "" true)

  unfoldable pub set_up_svi : Svi → Session
  unfolding with_lb if_bgp add_peers
  set_up_svi svi = with_lb "FRR" svi λ lb.
      if_bgp svi
        λ gw. deref svi.spec.remote_as λ remote_as. add_peers svi (link_name svi lb) gw remote_as

  unfoldable pub tear_down_svi : Svi → Session
  unfolding with_lb if_bgp
  tear_down_svi svi = with_lb "LCI" svi λ lb. if_bgp svi λ gw.
      must bgpd
        (sprint (
          "configure terminal\n router bgp "
          ∷ decimal localas
          ∷ " vrf "
          ∷ path_base svi.spec.vrf
          ∷ "\n no neighbor "
          ∷ link_name svi lb
          ∷ " peer-group\n exit"
          ∷ []))
        false
        (λ e. finish (sprint ("FRR: Error in conf Delete vrf/VNI command " ∷ e ∷ "\n" ∷ [])) false)
        (finish "" true)
