-- ===== src/Linux/Report/Timers.antt =====
-- How long a module asks to wait, one failed report after the other.
use native.Mathlib.Nat.{pow-succ', mul_assoc, one-le-pow, pow-le-pow_right}
use opi_evpn_bridge.Prelude.{
  ℕ, suc, ◌+◌, ◌*◌, ◌^◌, ◌≤◌, ◌<◌, ◌≡◌, refl, ap, subst, ◌∙◌, String, false, List, [], ◌∷◌, arith,
  length,
}
use opi_evpn_bridge.Component.{Component}
use opi_evpn_bridge.Linux.Report.{retry_timer, reported}

-- The component after one failed report for each of the texts.
unfoldable pub after_failures : String → List String → Component → Component
after_failures name [] c = c
after_failures name (d ∷ ds) c = after_failures name ds (reported name d false c)

abbrev two_seconds : ℕ
two_seconds = 2000000000

power_bound : (j : ℕ) → j ≤ 32 → 2 ^ j ≤ 2 ^ 32
power_bound j h = pow-le-pow_right (omega arith) h

-- The timer doubles as long as it fits.
retry_timer_lem : (j : ℕ) → j < 32 → retry_timer (two_seconds * 2 ^ j) ≡ two_seconds * 2 ^ suc j
unfolding retry_timer
retry_timer_lem j h = rw (pow-succ' 2 j) (
    ground (
      arith,
      one-le-pow j 2 (omega arith),
      power_bound j (omega (arith, h)),
      mul_assoc two_seconds 2 (2 ^ j),
    ))

retry_timer_zero : retry_timer 0 ≡ two_seconds * 2 ^ 0
unfolding retry_timer
retry_timer_zero = refl

doubling :
    (name : String) (ds : List String) (c : Component) (j : ℕ)
    → c.timer ≡ two_seconds * 2 ^ j
    → length ds + j ≤ 32
    → (after_failures name ds c).timer ≡ two_seconds * 2 ^ (length ds + j)
unfolding after_failures reported
doubling name [] c j h k = subst (λ n. c.timer ≡ two_seconds * 2 ^ n) (omega arith) h
doubling name (d ∷ ds) c j h k =
    let c' = reported name d false c in
    let same : length ds + suc j ≡ length (d ∷ ds) + j = omega arith in
    subst (λ n. (after_failures name ds c').timer ≡ two_seconds * 2 ^ n) same
      (doubling name ds c' (suc j) (ap retry_timer h ∙ retry_timer_lem j (omega (arith, k)))
        (omega (arith, k)))

-- After a first failed report and at most 32 more, a module waits for two seconds, doubled once for
-- each of the further reports: the duration is below 2 ^ 63, so it has not wrapped around. The
-- first wait starts from no timer, as after a success.
pub after_failures-timer :
    (name d : String) (ds : List String) (c : Component)
    → c.timer ≡ 0
    → length ds ≤ 32
    → ((after_failures name (d ∷ ds) c).timer ≡ two_seconds * 2 ^ length ds)
      × ((after_failures name (d ∷ ds) c).timer < 2 ^ 63)
unfolding after_failures reported
after_failures-timer name d ds c h k =
    let first = ap retry_timer h ∙ retry_timer_zero in
    let e = doubling name ds (reported name d false c) 0 first (omega (arith, k)) in
    let e' : (after_failures name (d ∷ ds) c).timer ≡ two_seconds * 2 ^ length ds =
      subst (λ n. (after_failures name (d ∷ ds) c).timer ≡ two_seconds * 2 ^ n) (omega arith) e in
    (e', omega (arith, e', power_bound (length ds) k))
