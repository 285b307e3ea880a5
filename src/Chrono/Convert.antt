-- ===== src/Chrono/Convert.antt =====
-- The implicit conversions between durations in src/_common/_chrono.hpp, and their guard.
use Prim.Native.Nat.{◌∣◌}
use native.Mathlib.Nat
use weos.Common.{
  ℕ, ◌*◌, ◌/◌, ◌≤◌, ◌<◌, ◌≡◌, ◌∙◌, ◌↔◌, ap, subst, ◌-◌, ◌^◌, arith, true, false, ltb, ℤ,
}
use weos.Chrono.Gcd.{static_gcd, static_gcd-greatest}
use weos.Chrono.Ratio.{Period, IsPeriod, Ratios}
use weos.Chrono.Cast.{exact, Converts, duration_cast_back}
use weos.Chrono.Rep.{DurationType}
use weos.Chrono.{max, overflow, checked_division, convertible, duration_cast}

div_pos : (a g : ℕ) → 0 < a → g ∣ a → 0 < a / g
div_pos a g h d = Nat.pos_of_dvd_of_pos (dvd) h
  where
    dvd : a / g ∣ a
    dvd = subst (λ x. a / g ∣ x) (Nat.div-mul_cancel g d) (Nat.dvd-mul_right (a / g) g)

test-le : (m d n : ℕ) → 0 < d → (ltb (m / d) n ≡ false) ↔ (n * d ≤ m)
test-le m d n h = ground (arith, Nat.le-div_iff_mul-le {k = d} {x = n} {y = m} h)

-- checked_division::overflow is clear if and only if both products of the cancelled ratio fit into a signed
-- 64-bit integer.
pub overflow_iff :
    (p q : Period)
    → IsPeriod p
    → IsPeriod q
    → let gn = static_gcd p.num q.num in
      let gd = static_gcd p.den q.den in
      (overflow p q ≡ false)
      ↔ ((p.num / gn * (q.den / gd) ≤ 2 ^ 63 - 1) × (q.num / gn * (p.den / gd) ≤ 2 ^ 63 - 1))
unfolding overflow
overflow_iff p q (pn, pd) (qn, qd) =
    let gd = static_gcd p.den q.den in
    let gn = static_gcd p.num q.num in
    let (l, r, g) = static_gcd-greatest p.den q.den in
    let first = test-le max (q.den / gd) (p.num / gn) (div_pos q.den gd qd r) in
    let second = test-le max (p.den / gd) (q.num / gn) (div_pos p.den gd pd l) in
    ground (arith, first, second)

whole_ratio :
    (gn gd n1 n2 d1 d2 num pn pd qn qd : ℕ)
    → gn * n1 ≡ pn
    → gn * n2 ≡ qn
    → gd * d1 ≡ pd
    → gd * d2 ≡ qd
    → num * (d1 * n2) ≡ n1 * d2
    → pn * qd ≡ num * (pd * qn)
whole_ratio gn gd n1 n2 d1 d2 num pn pd qn qd a b c d e =
    rw (← a, ← b, ← c, ← d) (grind (arith, ap (λ x. gn * gd * x) e))

module _ (ratios : Ratios) where
  -- The factor of a conversion that is allowed
  convertible-factor :
      (p q : Period)
      → IsPeriod p
      → IsPeriod q
      → convertible ratios p q ≡ true
      → (k : ℕ) × (p.num * q.den ≡ k * (p.den * q.num))
  unfolding convertible checked_division
  convertible-factor p q (pn, pd) (qn, qd) h =
      let gn = static_gcd p.num q.num in
      let gd = static_gcd p.den q.den in
      let (pgn, qgn, tn) = static_gcd-greatest p.num q.num in
      let (pgd, qgd, td) = static_gcd-greatest p.den q.den in
      let a = p.num / gn * (q.den / gd) in
      let b = p.den / gd * (q.num / gn) in
      let one : (ratios.reduce a b).den ≡ 1 = ground (arith, h) in
      let same =
        ratios.reduce_same a b (Nat.mul-pos (div_pos p.num gn pn pgn) (div_pos q.den gd qd qgd))
          (Nat.mul-pos (div_pos p.den gd pd pgd) (div_pos q.num gn qn qgn)) in
      let whole : (ratios.reduce a b).num * b ≡ a = same ∙ ap (λ x. x * a) one ∙ Nat.one-mul a in
      (
        (ratios.reduce a b).num,
        whole_ratio gn gd (p.num / gn) (q.num / gn) (p.den / gd) (q.den / gd)
            (ratios.reduce a b).num p.num p.den q.num q.den (Nat.mul-div_cancel' gn pgn)
            (Nat.mul-div_cancel' gn qgn) (Nat.mul-div_cancel' gd pgd) (Nat.mul-div_cancel' gd qgd)
            whole,
      )

  -- A conversion that needs no cast loses nothing: the duration that it gives, cast back, is the given one, where
  -- neither conversion overflows.
  pub convertible_back :
      (p q : DurationType) (c : ℤ)
      → IsPeriod p.period
      → IsPeriod q.period
      → convertible ratios p.period q.period ≡ true
      → Converts ratios p q c
      → Converts ratios q p (exact p.period q.period c)
      → duration_cast ratios q p (duration_cast ratios p q c) ≡ c
  convertible_back p q c hp hq h there back =
      let (k, e) = convertible-factor p.period q.period hp hq h in
      duration_cast_back ratios p q c k hp hq there back e
