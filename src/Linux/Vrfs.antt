-- ===== src/Linux/Vrfs.antt =====
-- setUpVrf and tearDownVrf of pkg/LinuxGeneralModule/lgm.go. `mtu` is `ipMtu`, and `random` what
-- `rand.Read` puts into GenerateMac's buffer of five bytes.
pub mod Links
pub mod TearDown
pub mod HalfUp
use opi_evpn_bridge.Prelude.{
  ℕ, String, Bool, true, false, not, List, [], ◌∷◌, Option, none, some, ◌==◌, string_eq,
  if◌then◌else◌,
}
use opi_evpn_bridge.Prelude.Text.{sprint, decimal, path_base}
use opi_evpn_bridge.IdPool.{IdPool, get_id}
use opi_evpn_bridge.Infradb.LogicalBridge.{IpNet}
use opi_evpn_bridge.Infradb.Vrf.{Vrf, VrfMetadata}
use opi_evpn_bridge.Linux.Kernel.{
  Kernel, NewLink, vxlan, bridge, vrf, link_add, link_del, link_set_master, link_set_mtu,
  link_set_up, link_set_hardware_addr, addr_add, route_add, route_flush_table,
}
use opi_evpn_bridge.Linux.Plan.{
  Plan, panic, finish, request, find, if_busy, if_local, in_order, deref, Ending, returned, is_true,
  run_plan,
}
use opi_evpn_bridge.Linux.Report.{Fmt}

abbrev pub is_grd : Vrf → Bool
is_grd v = path_base v.name == "GRD"

unfoldable pub bridge_name : Vrf → String
bridge_name v = sprint ("br-" ∷ path_base v.name ∷ [])

unfoldable pub vxlan_name : Vrf → String
vxlan_name v = sprint ("vxlan-" ∷ path_base v.name ∷ [])

-- GenerateMac
unfoldable pub generate_mac : List ℕ → List ℕ
generate_mac buf = 0 ∷ buf

-- A call that fails with a text of its own.
abbrev says : List String → String → String
says texts e = sprint texts

-- A call that fails with a text that ends in the error.
abbrev says_error : List String → String → String → String
says_error texts after e = sprint (sprint texts ∷ e ∷ after ∷ [])

abbrev pub vrf_link : Vrf → ℕ → NewLink
vrf_link v table = record { name = path_base v.name; mtu = 0; kind = vrf table }

abbrev pub vrf_bridge : Vrf → NewLink
vrf_bridge v = record { name = bridge_name v; mtu = 0; kind = bridge false }

abbrev pub vrf_vxlan : ℕ → Vrf → ℕ → ℕ → NewLink
vrf_vxlan mtu v vni src = record {
  name = vxlan_name v;
  mtu = mtu;
  kind = vxlan vni 4789 (some src) false true;
}

-- What setUpVrf returns, the metadata that it leaves in the VRF, and the pool of routing tables.
pub record VrfSetUp (S : Type 0) : Type 0 where
  pub ending : Ending
  pub meta : VrfMetadata
  pub tables : IdPool String String
  pub kernel : S

abbrev pub tables_of : List ℕ → VrfMetadata
tables_of [] = record { routing_table = [] }
tables_of (t ∷ ts) = record { routing_table = some t ∷ (tables_of ts).routing_table }

module _ (mtu : ℕ) (text : Fmt) (random : List ℕ) where
  -- The part of a VRF with a VNI: its bridge, and the VXLAN link in it.
  set_up_l3_evpn : Vrf → ℕ → Plan → Plan
  unfolding generate_mac
  set_up_l3_evpn v vni rest =
      let br = bridge_name v in
      let vx = vxlan_name v in
      let hw = text.hardware_addr (generate_mac random) in
      in_order
        (request (link_add (vrf_bridge v))
            (says_error ("LGM : Error in added bridge port " ∷ []) "")
          ∷ find br (says ("LGM : Error in getting the br-" ∷ v.name ∷ "\n" ∷ [])) false
          ∷ request (link_set_hardware_addr br hw)
              (says_error ("LGM: Failed in the setting Hardware Address: " ∷ []) "\n")
          ∷ request (link_set_mtu br mtu)
              (says ("LGM : Unable to set MTU to link br-" ∷ v.name ∷ " \n" ∷ []))
          ∷ find (path_base v.name) (says ("LGM : Error in getting the " ∷ v.name ∷ "\n" ∷ []))
              false
          ∷ request (link_set_master br (path_base v.name))
              (says ("LGM : Unable to set the master to br-" ∷ v.name ∷ " link" ∷ []))
          ∷ request (link_set_up br) (says ("LGM : Unable to set link " ∷ v.name ∷ " UP \n" ∷ []))
          ∷ [])
        (deref v.spec.vtep_ip λ vtep.
          in_order
            (request (link_add (vrf_vxlan mtu v vni vtep.ip))
                (says_error ("LGM : Error in added vxlan port " ∷ []) "\n")
              ∷ find vx (says ("LGM : Error in getting the vxlan-" ∷ v.name ∷ "\n" ∷ [])) false
              ∷ request (link_set_master vx br)
                  (says ("LGM : Unable to set the master to vxlan-" ∷ v.name ∷ " link" ∷ []))
              ∷ request (link_set_up vx)
                  (says ("LGM : Unable to set link " ∷ v.name ∷ " UP \n" ∷ []))
              ∷ [])
            rest)

  set_up_if_vni : Vrf → Option ℕ → Plan → Plan
  set_up_if_vni v none rest = rest
  set_up_if_vni v (some vni) rest = set_up_l3_evpn v vni rest

  set_up_device : Vrf → ℕ → Plan
  unfolding set_up_l3_evpn set_up_if_vni
  set_up_device v table =
      let base = path_base v.name in
      in_order
        (request (link_add (vrf_link v table))
            (says ("LGM: Error in Adding vrf link table " ∷ decimal table ∷ "\n" ∷ []))
          ∷ find base (says ("LGM : Link " ∷ v.name ∷ " not found\n" ∷ [])) false
          ∷ request (link_set_mtu base mtu)
              (says ("LGM : Unable to set MTU to link " ∷ v.name ∷ " \n" ∷ []))
          ∷ request (link_set_up base) (says ("LGM : Unable to set link " ∷ v.name ∷ " UP \n" ∷ []))
          ∷ [])
        (deref v.spec.loopback_ip λ address.
          in_order
            (request (addr_add base (some address))
                (says ("LGM: Unable to set the loopback ip to vrf link " ∷ v.name ∷ " \n" ∷ []))
              ∷ request
                  (route_add (record { table = table; protocol = 255; priority = 9999; src = 0 }))
                  (says_error ("LGM : Failed in adding Route throw default " ∷ []) "\n")
              ∷ set_up_if_vni v v.spec.vni
              ∷ [])
            (finish (sprint ("{\"routingtable\":\"" ∷ decimal table ∷ "\"}" ∷ [])) true))

  if_vtep : Option IpNet → Plan → Plan
  if_vtep none p = p
  if_vtep (some vtep) p =
      if_local (text.ip vtep.ip) p
        (finish (sprint (" LGM: VTEP IP not found: " ∷ text.ip_net vtep ∷ "\n" ∷ [])) false)

  -- A table with routes in it is used all the same.
  unfoldable pub plan_vrf : Vrf → ℕ → Plan
  unfolding set_up_device if_vtep
  plan_vrf v table =
      let checked = if_vtep v.spec.vtep_ip (set_up_device v table) in
      if_busy table (λ e. "") checked checked

  -- The table is written into the metadata at the end; a set-up that fails leaves 0 there.
  unfoldable pub set_up_vrf : (K : Kernel) → Vrf → IdPool String String → K.State → VrfSetUp K.State
  set_up_vrf K v tables s =
      if is_grd v
      then record {
        ending = returned "" true;
        meta = tables_of (254 ∷ 255 ∷ []);
        tables = tables;
        kernel = s;
      }
      else let (table, tables') = get_id v.name tables in
        let (ending, s') = run_plan K (plan_vrf v table) s in
        record {
          ending = ending;
          meta = tables_of ((if is_true ending then table else 0) ∷ []);
          tables = tables';
          kernel = s';
        }

  tear_down_l3_evpn : Vrf → Option ℕ → Plan → Plan
  tear_down_l3_evpn v none rest = rest
  tear_down_l3_evpn v (some _) rest =
      let br = bridge_name v in
      let vx = vxlan_name v in
      in_order
        (find vx (says_error ("LGM : Link vxlan-" ∷ v.name ∷ " not found " ∷ []) "\n") false
          ∷ request (link_del vx) (says_error ("LGM: Error in delete vxlan " ∷ []) "\n")
          ∷ find br (says_error ("LGM : Link br-" ∷ v.name ∷ " not found " ∷ []) "\n") false
          ∷ request (link_del br) (says_error ("LGM: Error in delete br " ∷ []) "\n")
          ∷ [])
        rest

  -- `*vrf.Metadata.RoutingTable[0]`
  first_table : VrfMetadata → (ℕ → Plan) → Plan
  first_table m p = elim m.routing_table [ [] ↦ panic | t ∷ _ ↦ deref t p ]

  unfoldable pub tear_down_vrf : Vrf → Plan
  unfolding tear_down_l3_evpn first_table
  tear_down_vrf v =
      let base = path_base v.name in
      find base (says_error ("LGM : Link " ∷ v.name ∷ " not found " ∷ []) "\n") true (
        if is_grd v
        then finish "" true
        else first_table v.meta λ table. tear_down_l3_evpn v v.spec.vni (
            in_order
              (request (route_flush_table (decimal table))
                  (says ("LGM: Error in flush table  " ∷ decimal table ∷ "\n" ∷ []))
                ∷ request (link_del base) (says_error ("LGM: Error in delete br " ∷ []) "\n")
                ∷ [])
              (finish "" true)))
