-- ===== src/Linux/Kernel/Laws.antt =====
-- Links that are there, and links that have gone.
use opi_evpn_bridge.Prelude.{
  String, ◌≡◌, ap, ◌∙◌, none, some, arith, string_eq, ◌⊎◌, inl, inr, Option-cases,
}
use text.Mathlib.TextEquality.{eq_iff}
use opi_evpn_bridge.Linux.Kernel.{Kernel, Links, Request, IsDocumented, effect, link_del}

module _ (K : Kernel) (links : K.State → Links) (documented : IsDocumented K links) where
  pub missing :
      (s : K.State) (n : String) → links s n ≡ none → (e : String) × (K.find_error s n ≡ some e)
  missing s n h = elim (Option-cases (K.find_error s n)) [
    | inl e ↦ absurd (documented.present s n e h)
    | inr found ↦ found
  ]

  pub accepted_or_same :
      (s : K.State) (r : Request) (n : String)
      → ((K.perform s r).0 ≡ none) ⊎ (links (K.perform s r).1 n ≡ links s n)
  accepted_or_same s r n = elim (Option-cases (K.perform s r).0) [
    | inl e ↦ inl e
    | inr (m, e) ↦ inr (ap (λ f. f n) (documented.refused s r m e))
  ]

  -- A link that the kernel has deleted is not found.
  pub missing_deleted :
      (s : K.State) (n : String)
      → (K.perform s (link_del n)).0 ≡ none
      → (e : String) × (K.find_error (K.perform s (link_del n)).1 n ≡ some e)
  unfolding effect
  missing_deleted s n h =
      missing (K.perform s (link_del n)).1 n
        (ap (λ f. f n) (documented.accepted s (link_del n) h) ∙ ground (arith, eq_iff n n))
