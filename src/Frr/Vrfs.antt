-- ===== src/Frr/Vrfs.antt =====
-- setUpVrf and tearDownVrf of pkg/frr/frr.go. `localas` is the number of that name.
use opi_evpn_bridge.Prelude.{
  ℕ, String, true, false, List, [], ◌∷◌, Option, none, some, ◌==◌, nat_eq, string_eq, if◌then◌else◌,
}
use opi_evpn_bridge.Prelude.Text.{sprint, decimal, path_base, split_0, split_1}
use opi_evpn_bridge.Infradb.Vrf.{Vrf}
use opi_evpn_bridge.Frr.Session.{
  Session, panic, finish, command, save, zebra, bgpd, must, deref, text_of,
}

-- bgpl2VpnCmd and bgpVrfCmd, as far as they are read.
pub record BgpL2VpnCmd : Type 0 where
  pub rd : String
  pub rmac : String
  pub import_rts : List String
  pub export_rts : List String

pub record BgpVrfCmd : Type 0 where
  pub local_as : ℕ

-- json.Unmarshal at these types, `%s` of a list of texts, and the name of the host.
pub record Decoder : Type 0 where
  pub l2_vpn : String → Option BgpL2VpnCmd
  pub vrf : String → Option BgpVrfCmd
  pub texts : List String → String
  pub host_name : String

module _ (localas : ℕ) (decoder : Decoder) where
  -- `strings.Split(strings.Split(cp, "json")[1], hname)[0]`
  json_of : String → (String → Session) → Session
  json_of cp next = deref (split_1 cp "json") λ rest. deref (split_0 rest decoder.host_name) next

  -- `show bgp vrf ... json`
  show_vrf : Vrf → BgpL2VpnCmd → Session
  unfolding json_of
  show_vrf v l2 =
      let cmd = sprint ("show bgp vrf " ∷ path_base v.name ∷ " json" ∷ []) in
      command bgpd cmd true λ r. save (
        json_of (text_of r) λ cp. elim (decoder.vrf cp) [
          | none ↦ finish (sprint ("FRR: unable to unmarshal \"" ∷ cmd ∷ "\"\n" ∷ [])) false
          | some b ↦
              finish
                (sprint (
                  "{ \"rd\":\""
                  ∷ l2.rd
                  ∷ "\",\"rmac\":\""
                  ∷ l2.rmac
                  ∷ "\",\"importRts\":[\""
                  ∷ decoder.texts l2.import_rts
                  ∷ "\"],\"exportRts\":[\""
                  ∷ decoder.texts l2.export_rts
                  ∷ "\"],\"localAS\":"
                  ∷ decimal b.local_as
                  ∷ " }"
                  ∷ []))
                true
        ])

  -- `show bgp l2vpn evpn vni ... json`
  show_l2_vpn : Vrf → ℕ → Session
  unfolding show_vrf json_of
  show_l2_vpn v vni =
      let cmd = sprint ("show bgp l2vpn evpn vni " ∷ decimal vni ∷ " json" ∷ []) in
      command bgpd cmd true λ r. save (
        json_of (text_of r) λ cp. elim (decoder.l2_vpn cp) [
          | none ↦ finish (sprint ("FRR: Failed in unmarshal the command " ∷ cmd ∷ "\n" ∷ [])) false
          | some l2 ↦ show_vrf v l2
        ])

  set_up_bgp : Vrf → ℕ → String → Session
  unfolding show_l2_vpn
  set_up_bgp v vni lb_ip =
      must bgpd
        (sprint (
          "configure terminal\n router bgp "
          ∷ decimal localas
          ∷ " vrf "
          ∷ path_base v.name
          ∷ "\n bgp router-id "
          ∷ lb_ip
          ∷ "\n no bgp ebgp-requires-policy\n no bgp hard-administrative-reset\n no bgp graceful-restart notification\n address-family ipv4 unicast\n redistribute connected\n redistribute static\n exit-address-family\n address-family l2vpn evpn\n advertise ipv4 unicast\n exit-address-family\n exit"
          ∷ []))
        false
        (λ e.
          finish
            (sprint (
              "FRR: Error Executing config t bgpVrfName router bgp "
              ∷ decimal localas
              ∷ " vrf "
              ∷ v.name
              ∷ " bgp_route_id "
              ∷ lb_ip
              ∷ " no bgp ebgp-requires-policy exit-vrf exit Error "
              ∷ e
              ∷ " \n"
              ∷ []))
            false)
        (show_l2_vpn v vni)

  -- The address of the router is all zeros where the VRF has a loopback address; where it has none,
  -- the nil pointer is read.
  set_up_evpn : Vrf → ℕ → Session
  unfolding set_up_bgp
  set_up_evpn v vni =
      let vrf_name = sprint ("vrf " ∷ path_base v.name ∷ []) in
      let vni_id = sprint ("vni " ∷ decimal vni ∷ []) in
      must zebra
        (sprint ("configure terminal\n " ∷ vrf_name ∷ "\n " ∷ vni_id ∷ "\n exit-vrf\n exit" ∷ []))
        false
        (λ e.
          finish
            (sprint (
              "FRR: Error Executing frr config t " ∷ vrf_name ∷ " " ∷ vni_id
              ∷ " exit-vrf exit \n Error: " ∷ e ∷ " \n" ∷ []))
            false)
        (elim v.spec.loopback_ip [ none ↦ panic | some ip ↦ set_up_bgp v vni "0.0.0.0" ])

  unfoldable pub set_up_vrf : Vrf → Session
  unfolding set_up_evpn
  set_up_vrf v =
      if path_base v.name == "GRD"
      then finish "" true
      else elim v.spec.vni [ none ↦ finish "" true | some vni ↦ set_up_evpn v vni ]

  says_error : String → Session
  says_error e = finish (sprint ("FRR: Error  " ∷ e ∷ "\n" ∷ [])) false

  tear_down_evpn : Vrf → Session
  unfolding says_error
  tear_down_evpn v =
      must bgpd
        (sprint (
          "configure terminal\n no router bgp "
          ∷ decimal localas
          ∷ " vrf "
          ∷ path_base v.name
          ∷ "\n exit\n"
          ∷ []))
        false says_error
        (must zebra (sprint ("configure terminal\n no vrf " ∷ path_base v.name ∷ "\n exit\n" ∷ []))
          false says_error (finish "" true))

  -- A VRF that the daemon does not show counts as torn down.
  unfoldable pub tear_down_vrf : Vrf → Session
  unfolding tear_down_evpn
  tear_down_vrf v =
      if path_base v.name == "GRD"
      then finish "" true
      else must zebra (sprint ("show vrf " ∷ path_base v.name ∷ " vni\n" ∷ [])) true
          (λ e. finish "" true)
          (deref v.spec.vni λ vni. if vni == 0 then finish "" true else tear_down_evpn v)
