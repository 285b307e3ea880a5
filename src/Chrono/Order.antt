-- ===== src/Chrono/Order.antt =====
-- Comparison and addition of durations of different periods in src/_common/_chrono.hpp.
use native.Mathlib.Nat
use weos.Common.{
  ℕ, ◌*◌, ◌/◌, ◌<◌, ◌≡◌, ◌∙◌, sym, ap, ap₂, arith, Bool, true, Bool-cases, inl, inr, ℤ, ltb_ℤ,
  eqb_ℤ, ◌+ℤ◌, mul_ℤ-+ℤ, mul_ℤ, mul_ℤ_assoc, ltb_ℤ-mul_ℤ, eqb_ℤ-mul_ℤ,
}
use weos.Chrono.Gcd.{
  static_gcd, static_lcm, static_gcd-greatest, static_gcd_pos, static_lcm-multiple,
}
use weos.Chrono.Ratio.{Period, IsPeriod, Ratios}
use weos.Chrono.Cast.{Converts, duration_cast-multiple}
use weos.Chrono.Rep.{DurationType, Fits, narrow_lem}
use weos.Chrono.{duration_cast, ratio_gcd, common_type, equal, less, plus, same_type}

common_factor :
    (g a gd gn l pd b pn : ℕ)
    → pn ≡ g * a
    → l ≡ pd * b
    → gn * l ≡ gd * g
    → pn * gd ≡ a * b * (pd * gn)
common_factor g a gd gn l pd b pn e f h =
    rw e (grind (arith, ap (λ x. a * x) (ap (λ x. gn * x) (sym f) ∙ h)))

cross_factor :
    (g a l pd b pn qd : ℕ) → pn ≡ g * a → l ≡ pd * b → pn * qd * l ≡ a * b * (g * (pd * qd))
cross_factor g a l pd b pn qd e f = rw (e, f) (grind arith)

-- How the common period of `p` and `q` divides `p`: `factor` times, and in what scale.
record Divides (ratios : Ratios) (p q g : Period) (l m : ℕ) : Type 0 where
  factor : ℕ
  even : p.num * g.den ≡ factor * (p.den * g.num)
  scale : p.num * q.den * l ≡ factor * m

module _ (ratios : Ratios) where
  lcm : Period → Period → ℕ
  lcm p q = static_lcm p.den q.den

  scale : Period → Period → ℕ
  scale p q = static_gcd p.num q.num * (p.den * q.den)

  ratio_gcd-IsPeriod : (p q : Period) → IsPeriod p → IsPeriod q → IsPeriod (ratio_gcd ratios p q)
  unfolding ratio_gcd
  ratio_gcd-IsPeriod p q hp hq =
      let (a, b, n) = static_lcm-multiple p.den q.den hp.1 hq.1 in
      ratios.reduce-IsPeriod _ _ (static_gcd_pos p.num q.num hp.0) n

  left :
      (p q : Period)
      → IsPeriod p
      → IsPeriod q
      → Divides ratios p q (ratio_gcd ratios p q) (lcm p q) (scale p q)
  unfolding ratio_gcd lcm scale
  left p q hp hq =
      let g = static_gcd p.num q.num in
      let l = static_lcm p.den q.den in
      let r = ratios.reduce g l in
      let (gp, gq, gt) = static_gcd-greatest p.num q.num in
      let (lp, lq, n) = static_lcm-multiple p.den q.den hp.1 hq.1 in
      let e : p.num ≡ g * (p.num / g) = sym (Nat.mul-div_cancel' g gp) in
      let f : l ≡ p.den * (l / p.den) = sym (Nat.mul-div_cancel' p.den lp) in
      let h = ratios.reduce_same g l (static_gcd_pos p.num q.num hp.0) n in
      record {
        factor = p.num / g * (l / p.den);
        even = common_factor g (p.num / g) r.den r.num l p.den (l / p.den) p.num e f h;
        scale = cross_factor g (p.num / g) l p.den (l / p.den) p.num q.den e f;
      }

  right :
      (p q : Period)
      → IsPeriod p
      → IsPeriod q
      → Divides ratios q p (ratio_gcd ratios p q) (lcm p q) (scale p q)
  unfolding ratio_gcd lcm scale
  right p q hp hq =
      let g = static_gcd p.num q.num in
      let l = static_lcm p.den q.den in
      let r = ratios.reduce g l in
      let (gp, gq, gt) = static_gcd-greatest p.num q.num in
      let (lp, lq, n) = static_lcm-multiple p.den q.den hp.1 hq.1 in
      let e : q.num ≡ g * (q.num / g) = sym (Nat.mul-div_cancel' g gq) in
      let f : l ≡ q.den * (l / q.den) = sym (Nat.mul-div_cancel' q.den lq) in
      let h = ratios.reduce_same g l (static_gcd_pos p.num q.num hp.0) n in
      record {
        factor = q.num / g * (l / q.den);
        even = common_factor g (q.num / g) r.den r.num l q.den (l / q.den) q.num e f h;
        scale =
            cross_factor g (q.num / g) l q.den (l / q.den) q.num p.den e f
            ∙ ap (λ x. q.num / g * (l / q.den) * (g * x)) (Nat.mul_comm q.den p.den);
      }

  -- `count` ticks of the period `p` in the unit 1 / (p.den * q.den) of both periods
  abbrev pub in_unit : Period → Period → ℤ → ℤ
  in_unit p q count = mul_ℤ count (p.num * q.den)

  same-in_unit :
      (p q : DurationType)
      → same_type p q ≡ true
      → p.period.num * q.period.den ≡ q.period.num * p.period.den
  same-in_unit p q h =
      let e : p.period.num ≡ q.period.num = ground (arith, h) in
      let f : q.period.den ≡ p.period.den = ground (arith, h) in
      ap (λ x. x * q.period.den) e ∙ ap (λ x. q.period.num * x) f

  -- Both durations can be converted to the common type.
  abbrev pub Comparable : DurationType → DurationType → ℤ → ℤ → Type 0
  Comparable p q c d =
      Converts ratios p (common_type ratios p q) c × Converts ratios q (common_type ratios p q) d

  -- A test on counts that does not depend on their unit
  abbrev Unitless : (ℤ → ℤ → Bool) → Type 0
  Unitless test = (a b : ℤ) (k : ℕ) → 0 < k → test (mul_ℤ a k) (mul_ℤ b k) ≡ test a b

  common-in_unit :
      (test : ℤ → ℤ → Bool)
      → Unitless test
      → (p q : DurationType) (c d : ℤ) → IsPeriod p.period
      → IsPeriod q.period
      → Comparable p q c d
      → test
          (duration_cast ratios p (common_type ratios p q) c)
          (duration_cast ratios q (common_type ratios p q) d)
        ≡ test (in_unit p.period q.period c) (in_unit q.period p.period d)
  unfolding lcm scale common_type
  common-in_unit test free p q c d hp hq (fits_left, fits_right) =
      let u = left p.period q.period hp hq in
      let v = right p.period q.period hp hq in
      let g = ratio_gcd-IsPeriod p.period q.period hp hq in
      let (lp, lq, n) = static_lcm-multiple p.period.den q.period.den hp.1 hq.1 in
      let m : 0 < scale p.period q.period =
        Nat.mul-pos (static_gcd_pos p.period.num q.period.num hp.0) (Nat.mul-pos hp.1 hq.1) in
      rw
        (
          duration_cast-multiple ratios p _ c u.factor hp g fits_left u.even,
          duration_cast-multiple ratios q _ d v.factor hq g fits_right v.even,
        )
        (sym (free (mul_ℤ c u.factor) (mul_ℤ d v.factor) (scale p.period q.period) m)
          ∙ rw
              (
                mul_ℤ_assoc c u.factor (scale p.period q.period),
                mul_ℤ_assoc d v.factor (scale p.period q.period),
                ← u.scale,
                ← v.scale,
                ← mul_ℤ_assoc c (p.period.num * q.period.den) (lcm p.period q.period),
                ← mul_ℤ_assoc d (q.period.num * p.period.den) (lcm p.period q.period),
              )
              (free (in_unit p.period q.period c) (in_unit q.period p.period d)
                (lcm p.period q.period) n))

  -- Two durations are compared by their lengths: operator== and operator< on any two types are the tests on
  -- the counts in a unit that divides both periods. Both durations can be converted to the common type
  -- without overflow.
  pub compare-in_unit :
      (p q : DurationType) (c d : ℤ)
      → IsPeriod p.period
      → IsPeriod q.period
      → Comparable p q c d
      → (equal ratios p q c d ≡ eqb_ℤ (in_unit p.period q.period c) (in_unit q.period p.period d))
        × (less ratios p q c d ≡ ltb_ℤ (in_unit p.period q.period c) (in_unit q.period p.period d))
  unfolding equal less
  compare-in_unit p q c d hp hq fits = elim (Bool-cases (same_type p q)) [
    | inl e ↦
        let u = same-in_unit p q e in
        let n = q.period.num * p.period.den in
        let k : 0 < n = Nat.mul-pos hq.0 hp.1 in
        (rw (e, u) (sym (eqb_ℤ-mul_ℤ c d n k)), rw (e, u) (sym (ltb_ℤ-mul_ℤ c d n k)))
    | inr e ↦ (
      rw e (common-in_unit eqb_ℤ eqb_ℤ-mul_ℤ p q c d hp hq fits),
      rw e (common-in_unit ltb_ℤ ltb_ℤ-mul_ℤ p q c d hp hq fits),
    )
  ]

  factor_unit :
      (k gn gd pn pd qd : ℕ) → pn * gd ≡ k * (pd * gn) → k * (gn * (pd * qd)) ≡ pn * (gd * qd)
  factor_unit k gn gd pn pd qd e = grind (arith, ap (λ x. x * qd) e)

  -- operator+ of any two types adds the lengths: in the unit 1 / (p.den * q.den * g.den), for the common period
  -- `g`, the length of the sum is the sum of the lengths. The durations can be converted to the common type,
  -- and the sum of the counts is one of its counts.
  pub plus-in_unit :
      (p q : DurationType) (c d : ℤ)
      → IsPeriod p.period
      → IsPeriod q.period
      → Comparable p q c d
      → let t = common_type ratios p q in
        let g = t.period in
        Fits t.rep (duration_cast ratios p t c +ℤ duration_cast ratios q t d)
        → mul_ℤ (plus ratios p q c d) (g.num * (p.period.den * q.period.den))
          ≡ mul_ℤ c (p.period.num * (g.den * q.period.den))
            +ℤ mul_ℤ d (q.period.num * (g.den * p.period.den))
  unfolding plus
  plus-in_unit p q c d hp hq (fits_left, fits_right) fits =
      let t = common_type ratios p q in
      let g = ratio_gcd ratios p.period q.period in
      let u = left p.period q.period hp hq in
      let v = right p.period q.period hp hq in
      let gp = ratio_gcd-IsPeriod p.period q.period hp hq in
      let m = g.num * (p.period.den * q.period.den) in
      ap (λ x. mul_ℤ x m) (narrow_lem t.rep _ fits)
      ∙ ap₂ (λ x y. mul_ℤ (x +ℤ y) m)
          (duration_cast-multiple ratios p t c u.factor hp gp fits_left u.even)
          (duration_cast-multiple ratios q t d v.factor hq gp fits_right v.even)
      ∙ mul_ℤ-+ℤ (mul_ℤ c u.factor) (mul_ℤ d v.factor) m
      ∙ ap₂ (λ x y. x +ℤ y)
          (mul_ℤ_assoc c u.factor m
            ∙ ap (mul_ℤ c)
                (factor_unit u.factor g.num g.den p.period.num p.period.den q.period.den u.even))
          (mul_ℤ_assoc d v.factor m
            ∙ ap (mul_ℤ d) (
                ap (λ x. v.factor * (g.num * x)) (Nat.mul_comm p.period.den q.period.den)
                ∙ factor_unit v.factor g.num g.den q.period.num q.period.den p.period.den v.even))
