-- ===== src/Linux/Kernel.antt =====
-- The calls of pkg/utils/netlink.go that the Linux modules make. What answers them, the library
-- vishvananda/netlink and the kernel below it, is no part of the repository and a parameter.
pub mod Laws
use opi_evpn_bridge.Prelude.{
  ℕ, String, ◌≡◌, ◌≢◌, Bool, true, false, Option, none, some, ◌==◌, string_eq, if◌then◌else◌,
}
use opi_evpn_bridge.Infradb.LogicalBridge.{IpNet}

-- `netlink.Vxlan`, `Bridge`, `Vrf` and `Vlan`, and the devices of other kinds, which are taken to have
-- no peer that goes with them; the parent of a VLAN link, an index in the source, is
-- the name that was looked up for it.
pub data Kind : Type 0 where
  vxlan : (vxlan_id port : ℕ) → (src_addr : Option ℕ) → (learning proxy : Bool) → Kind
  bridge : (vlan_filtering : Bool) → Kind
  vrf : (table : ℕ) → Kind
  vlan : (parent : String) → (vlan_id : ℕ) → Kind
  other : Kind

-- A link to create; an MTU of 0 is the kernel's choice.
pub record NewLink : Type 0 where
  pub name : String
  pub mtu : ℕ
  pub kind : Kind

-- The flags of BridgeVlanAdd and BridgeVlanDel.
pub record VlanFlags : Type 0 where
  pub pvid : Bool
  pub untagged : Bool
  pub self : Bool
  pub master : Bool

-- The route that setUpVrf adds.
pub record ThrowRoute : Type 0 where
  pub table : ℕ
  pub protocol : ℕ
  pub priority : ℕ
  pub src : ℕ

-- A call that changes something; links are named, since netlink finds a link by its name.
pub data Request : Type 0 where
  link_add : NewLink → Request
  link_del : String → Request
  link_set_master : (name master : String) → Request
  link_set_mtu : String → ℕ → Request
  link_set_up : String → Request
  link_set_down : String → Request
  link_set_hardware_addr : String → String → Request
  bridge_vlan_add : String → ℕ → VlanFlags → Request
  bridge_vlan_del : String → ℕ → VlanFlags → Request
  link_set_br_neigh_suppress : String → Bool → Request
  addr_add : String → Option IpNet → Request
  route_add : ThrowRoute → Request
  route_flush_table : String → Request
  sysctl : String → Request

-- `perform` and the queries fail by a message; `busy` is the number of a table's routes.
pub record Kernel : Type 1 where
  pub State : Type 0
  pub perform : State → Request → Option String × State
  pub find_error : State → String → Option String
  pub busy_error : State → ℕ → Option String
  pub routes : State → ℕ → ℕ
  pub in_ip_table : State → String → Bool

-- What is seen of a link.
pub record Link : Type 0 where
  pub kind : Kind
  pub master : Option String
  pub is_up : Bool

abbrev pub Links : Type 0
Links = String → Option Link

abbrev pub created : Kind → Link
created kind = record { kind = kind; master = none; is_up = false }

abbrev is_named : Option String → String → Bool
is_named none name = false
is_named (some m) name = m == name

-- A link is released by the deletion of its master, and goes with its parent.
abbrev pub released : String → Option Link → Option Link
released name none = none
released name (some l) = elim l.kind [
  | vlan parent _ ↦
      if parent == name
      then none
      else if is_named l.master name
      then some (record l { master = none })
      else some l
  | _ ↦ if is_named l.master name then some (record l { master = none }) else some l
]

abbrev mapped : (Link → Link) → Option Link → Option Link
mapped f none = none
mapped f (some l) = some (f l)

abbrev pub at : String → (Option Link → Option Link) → Links → Links
at name f links n = if name == n then f (links n) else links n

-- What an accepted call does to the links.
unfoldable pub effect : Request → Links → Links
effect (link_add l) links = at l.name (λ _. some (created l.kind)) links
effect (link_del name) links = λ n. if name == n then none else released name (links n)
effect (link_set_master name master) links =
    at name (mapped (λ l. record l { master = some master })) links
effect (link_set_up name) links = at name (mapped (λ l. record l { is_up = true })) links
effect (link_set_down name) links = at name (mapped (λ l. record l { is_up = false })) links
effect _ links = links

-- What netlink documents: a refused call changes no link, an accepted one has its effect; a link's
-- name must be free when the link is added; and a link is found by its name if it is there.
pub record IsDocumented (K : Kernel) (links : K.State → Links) : Type 0 where
  pub refused :
      (s : K.State) (r : Request) (e : String)
      → (K.perform s r).0 ≡ some e
      → links (K.perform s r).1 ≡ links s
  pub accepted :
      (s : K.State) (r : Request)
      → (K.perform s r).0 ≡ none
      → links (K.perform s r).1 ≡ effect r (links s)
  pub free :
      (s : K.State) (l : NewLink) → (K.perform s (link_add l)).0 ≡ none → links s l.name ≡ none
  pub present : (s : K.State) (n : String) → K.find_error s n ≡ none → links s n ≢ none
