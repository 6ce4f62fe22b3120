-- ===== src/Linux/Examples/Objects.antt =====
-- A kernel that does what it is asked, but for the calls that it is made to refuse, and objects to
-- set up on it.
use opi_evpn_bridge.Prelude.{
  String, ◌≡◌, refl, arith, Bool, true, false, [], ◌∷◌, Option, none, some, ◌==◌, string_eq,
  if◌then◌else◌,
}
use opi_evpn_bridge.Component.{success, pending}
use opi_evpn_bridge.Infradb.Components.{down}
use opi_evpn_bridge.Infradb.LogicalBridge.{LogicalBridge, IpNet}
use opi_evpn_bridge.Infradb.Vrf.{Vrf}
use opi_evpn_bridge.Infradb.Examples.Objects.{bridge_of, vrf_of, comp}
use opi_evpn_bridge.Linux.Kernel.{
  Kernel, Request, Links, Link, NewLink, IsDocumented, effect, created, bridge, other, link_add,
  link_set_master, addr_add,
}
use opi_evpn_bridge.Linux.Report.{Fmt}
use opi_evpn_bridge.Linux.Vrfs.{tables_of}

abbrev taken : Option Link → Option String
taken none = none
taken (some l) = some "file exists"

abbrev missing_link : Option Link → Option String
missing_link none = some "Link not found"
missing_link (some l) = none

abbrev refusal : (Request → Bool) → Request → Links → Option String
refusal refuses (link_add l) links =
    if refuses (link_add l) then some "operation not permitted" else taken (links l.name)
refusal refuses r links = if refuses r then some "operation not permitted" else none

abbrev answered : Option String → Request → Links → Option String × Links
answered none r links = (none, effect r links)
answered (some e) r links = (some e, links)

abbrev pub kernel : (Request → Bool) → Kernel
kernel refuses = record {
  State = Links;
  perform = λ s r. answered (refusal refuses r s) r s;
  find_error = λ s n. missing_link (s n);
  busy_error = λ s t. none;
  routes = λ s t. 0;
  in_ip_table = λ s ip. true;
}

answered-refused :
    (o : Option String) (r : Request) (s : Links) (e : String)
    → (answered o r s).0 ≡ some e
    → (answered o r s).1 ≡ s
answered-refused none r s e h = absurd (ground arith)
answered-refused (some x) r s e h = refl

answered-accepted :
    (o : Option String) (r : Request) (s : Links)
    → (answered o r s).0 ≡ none
    → (answered o r s).1 ≡ effect r s
answered-accepted none r s h = refl
answered-accepted (some x) r s h = absurd (ground arith)

free_name :
    (refuses : Request → Bool) (s : Links) (l : NewLink)
    → (answered (refusal refuses (link_add l) s) (link_add l) s).0 ≡ none
    → s l.name ≡ none
free_name refuses s l h = ground arith

pub kernel-IsDocumented : (refuses : Request → Bool) → IsDocumented (kernel refuses) (λ s. s)
kernel-IsDocumented refuses = record {
  refused = λ s r e h. answered-refused (refusal refuses r s) r s e h;
  accepted = λ s r h. answered-accepted (refusal refuses r s) r s h;
  free = λ s l h. free_name refuses s l h;
  present = λ s n h. ground arith;
}

abbrev pub never : Request → Bool
never r = false

-- Every attempt to put a link into another is refused.
abbrev pub no_master : Request → Bool
no_master (link_set_master n m) = true
no_master _ = false

abbrev pub no_address : Request → Bool
no_address (addr_add n a) = true
no_address _ = false

-- The links of a host on which the tenants' bridge is up, and an interface.
abbrev pub host_links : Links
host_links n =
    if n == "br-tenant"
    then some (record { kind = bridge true; master = none; is_up = true })
    else if n == "port1"
    then some (created other)
    else none

abbrev pub text : Fmt
text = record {
  error = λ e. "error";
  link = λ l. l.name;
  ip = λ ip. "ip";
  ip_net = λ ip. "ip/len";
  hardware_addr = λ a. "00:01:02:03:04:05";
}

abbrev pub vtep : IpNet
vtep = record { ip = 167772161; len = 24 }

-- A bridge that misses the success of the general module only.
abbrev pub lb : LogicalBridge
lb = record (bridge_of "b1" (some 100) down (comp "frr" success ∷ comp "lgm" pending ∷ [])) {
  spec = record { vlan_id = 10; vni = some 100; vtep_ip = some vtep };
}

abbrev pub red : Vrf
red =
    record (vrf_of "//network.opiproject.org/vrfs/red" (some 100) down
      (comp "frr" success ∷ comp "lgm" pending ∷ [])) {
        spec = record { vni = some 100; loopback_ip = some vtep; vtep_ip = some vtep };
        meta = tables_of (1000 ∷ []);
      }
