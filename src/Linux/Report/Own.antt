-- ===== src/Linux/Report/Own.antt =====
-- The component of a module in an object's list, after a report is stored there.
use opi_evpn_bridge.Prelude.{
  ℕ, ◌+◌, String, ◌≡◌, refl, List, [], ◌∷◌, arith, ◌==◌, string_eq, if◌then◌else◌,
}
use text.Mathlib.TextEquality.{eq_iff}
use opi_evpn_bridge.Component.{Component}
use opi_evpn_bridge.Infradb.Components.{set_component}
use opi_evpn_bridge.Linux.Report.{latest, own_component}

-- How many of the components have this name.
abbrev pub count_name : String → List Component → ℕ
count_name name [] = 0
count_name name (x ∷ xs) = (if x.name == name then 1 else 0) + count_name name xs

latest-absent :
    (name : String) (cs : List Component) (c : Component)
    → count_name name cs ≡ 0
    → latest name cs c ≡ c
unfolding latest
latest-absent name [] c h = refl
latest-absent name (x ∷ xs) c h = ground (arith, latest-absent name xs c)

latest-set_component :
    (name : String) (c old : Component) (cs : List Component)
    → c.name ≡ name
    → count_name name cs ≡ 1
    → (latest name (set_component c cs) old ≡ c) × (count_name name (set_component c cs) ≡ 1)
unfolding latest set_component
latest-set_component name c old [] n h = ground arith
latest-set_component name c old (x ∷ xs) n h = ground (
  arith,
  eq_iff x.name name,
  eq_iff c.name name,
  eq_iff x.name c.name,
  latest-absent name xs c,
  latest-set_component name c old xs n,
)

-- A report that is stored is what the module reads next, where the object has one such component.
pub own_component-set_component :
    (name : String) (c : Component) (cs : List Component)
    → c.name ≡ name
    → count_name name cs ≡ 1
    → (own_component name (set_component c cs) ≡ c) × (count_name name (set_component c cs) ≡ 1)
unfolding own_component
own_component-set_component name c cs n h = latest-set_component name c _ cs n h
