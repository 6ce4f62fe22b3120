-- ===== src/Linux/Plan/Performed.antt =====
-- What is left of a plan's run on the links: the effects of the calls that the kernel accepted.
use opi_evpn_bridge.Prelude.{
  String, ◌≡◌, refl, ap, subst, ◌∙◌, true, false, List, [], ◌∷◌, ◌++◌, Option, none, some, ltb,
  arith, inl, inr, Option-cases, Bool-cases,
}
use opi_evpn_bridge.Linux.Kernel.{
  Request, Kernel, Links, IsDocumented, effect, link_add, link_del, link_set_master, link_set_mtu,
  link_set_up, link_set_down, link_set_hardware_addr, bridge_vlan_add, bridge_vlan_del,
  link_set_br_neigh_suppress, addr_add, route_add, route_flush_table, sysctl,
}
use opi_evpn_bridge.Linux.Plan.{
  Plan, panic, finish, request, attempt, find, if_busy, if_local, run_plan,
}

unfoldable pub effects : List Request → Links → Links
effects [] links = links
effects (r ∷ rs) links = effects rs (effect r links)

pub effects-append :
    (rs qs : List Request) (links : Links)
    → effects (rs ++ qs) links ≡ effects qs (effects rs links)
unfolding effects
effects-append [] qs links = refl
effects-append (r ∷ rs) qs links = effects-append rs qs (effect r links)

-- The name of a link to add is free.
abbrev IsFree : Request → Links → Type 0
IsFree (link_add l) links = links l.name ≡ none
IsFree _ links = Unit

-- So it is for each of the calls, after those before it.
abbrev pub AllFree : List Request → Links → Type 0
AllFree [] links = Unit
AllFree (r ∷ rs) links = IsFree r links × AllFree rs (effect r links)

module _ (K : Kernel) where
  when_accepted : Option String → Request → List Request → List Request
  when_accepted none r rs = r ∷ rs
  when_accepted (some _) r rs = rs

  -- The calls that the kernel accepted, in order.
  unfoldable pub performed : Plan → K.State → List Request
  unfolding when_accepted
  performed panic s = []
  performed (finish details status) s = []
  performed (request r message p) s = elim (K.perform s r).0 [
    | none ↦ r ∷ performed p (K.perform s r).1
    | some e ↦ []
  ]
  performed (attempt r p) s = when_accepted (K.perform s r).0 r (performed p (K.perform s r).1)
  performed (find n message status p) s =
      let rest = performed p s in elim (K.find_error s n) [ none ↦ rest | some e ↦ [] ]
  performed (if_busy table message busy free) s =
      let on_busy = performed busy s in
      let on_free = performed free s in
      elim (K.busy_error s table) [
        | some e ↦ []
        | none ↦ elim (ltb 0 (K.routes s table)) [ true ↦ on_busy | false ↦ on_free ]
      ]
  performed (if_local ip here elsewhere) s =
      let on_here = performed here s in
      let on_elsewhere = performed elsewhere s in
      elim (K.in_ip_table s ip) [ true ↦ on_here | false ↦ on_elsewhere ]

  module _ (links : K.State → Links) (documented : IsDocumented K links) where
    pub links-run_plan :
        (p : Plan) (s : K.State) → links (run_plan K p s).1 ≡ effects (performed p s) (links s)
    unfolding run_plan performed effects when_accepted
    links-run_plan panic s = refl
    links-run_plan (finish details status) s = refl
    links-run_plan (request r message p) s = elim (Option-cases (K.perform s r).0) [
      | inl e ↦
          rw (e, run_plan, performed)
            (links-run_plan p (K.perform s r).1
              ∙ ap (effects (performed p (K.perform s r).1)) (documented.accepted s r e))
      | inr (m, e) ↦ rw (e, run_plan, performed) (documented.refused s r m e)
    ]
    links-run_plan (attempt r p) s = elim (Option-cases (K.perform s r).0) [
      | inl e ↦
          rw (e, run_plan, performed)
            (links-run_plan p (K.perform s r).1
              ∙ ap (effects (performed p (K.perform s r).1)) (documented.accepted s r e))
      | inr (m, e) ↦
          rw (e, run_plan, performed)
            (links-run_plan p (K.perform s r).1
              ∙ ap (effects (performed p (K.perform s r).1)) (documented.refused s r m e))
    ]
    links-run_plan (find n message status p) s = ground (arith, links-run_plan p s)
    links-run_plan (if_busy table message busy free) s =
        ground (arith, links-run_plan busy s, links-run_plan free s)
    links-run_plan (if_local ip here elsewhere) s =
        ground (arith, links-run_plan here s, links-run_plan elsewhere s)

    IsFree-when_accepted :
        (s : K.State) (r : Request) → (K.perform s r).0 ≡ none → IsFree r (links s)
    IsFree-when_accepted s (link_add l) h = documented.free s l h
    IsFree-when_accepted s (link_del n) h = tt
    IsFree-when_accepted s (link_set_master n m) h = tt
    IsFree-when_accepted s (link_set_mtu n m) h = tt
    IsFree-when_accepted s (link_set_up n) h = tt
    IsFree-when_accepted s (link_set_down n) h = tt
    IsFree-when_accepted s (link_set_hardware_addr n a) h = tt
    IsFree-when_accepted s (bridge_vlan_add n v f) h = tt
    IsFree-when_accepted s (bridge_vlan_del n v f) h = tt
    IsFree-when_accepted s (link_set_br_neigh_suppress n b) h = tt
    IsFree-when_accepted s (addr_add n a) h = tt
    IsFree-when_accepted s (route_add r) h = tt
    IsFree-when_accepted s (route_flush_table t) h = tt
    IsFree-when_accepted s (sysctl t) h = tt

    first_free :
        (s : K.State) (r : Request) (rs : List Request)
        → (K.perform s r).0 ≡ none
        → AllFree rs (links (K.perform s r).1)
        → AllFree (r ∷ rs) (links s)
    first_free s r rs h rest =
        (IsFree-when_accepted s r h, subst (AllFree rs) (documented.accepted s r h) rest)

    pub performed-AllFree : (p : Plan) (s : K.State) → AllFree (performed p s) (links s)
    unfolding performed when_accepted
    performed-AllFree panic s = tt
    performed-AllFree (finish details status) s = tt
    performed-AllFree (request r message p) s = elim (Option-cases (K.perform s r).0) [
      | inl e ↦
          rw (e, performed)
            (first_free s r (performed p (K.perform s r).1) e
              (performed-AllFree p (K.perform s r).1))
      | inr (m, e) ↦ rw (e, performed) tt
    ]
    performed-AllFree (attempt r p) s = elim (Option-cases (K.perform s r).0) [
      | inl e ↦
          rw (e, performed)
            (first_free s r (performed p (K.perform s r).1) e
              (performed-AllFree p (K.perform s r).1))
      | inr (m, e) ↦
          rw (e, performed)
            (subst (AllFree (performed p (K.perform s r).1)) (documented.refused s r m e)
              (performed-AllFree p (K.perform s r).1))
    ]
    performed-AllFree (find n message status p) s = elim (Option-cases (K.find_error s n)) [
      | inl e ↦ rw (e, performed) (performed-AllFree p s)
      | inr (m, e) ↦ rw (e, performed) tt
    ]
    performed-AllFree (if_busy table message busy free) s =
        elim (Option-cases (K.busy_error s table)) [
          | inr (m, e) ↦ rw (e, performed) tt
          | inl e ↦ elim (Bool-cases (ltb 0 (K.routes s table))) [
            | inl b ↦ rw (e, b, performed) (performed-AllFree busy s)
            | inr b ↦ rw (e, b, performed) (performed-AllFree free s)
          ]
        ]
    performed-AllFree (if_local ip here elsewhere) s = elim (Bool-cases (K.in_ip_table s ip)) [
      | inl b ↦ rw (b, performed) (performed-AllFree here s)
      | inr b ↦ rw (b, performed) (performed-AllFree elsewhere s)
    ]
