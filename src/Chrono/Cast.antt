-- ===== src/Chrono/Cast.antt =====
-- duration_cast of src/_common/_chrono.hpp.
use native.Mathlib.Nat
use weos.Common.{
  ℕ, suc, ◌*◌, ◌<◌, ◌≡◌, ◌∙◌, refl, sym, ap, arith, ◌==◌, ==_iff, Bool-cases, inl, inr, ℤ, pos,
  negsuc, mul_ℤ, quot_ℤ, mul_ℤ_assoc, quot_ℤ-mul_ℤ,
}
use weos.Chrono.Ratio.{Period, IsPeriod, Ratios}
use weos.Chrono.Rep.{DurationType, Fits, narrow, narrow_lem}
use weos.Chrono.{duration_cast, intmax}

pub mul_ℤ-one : (c : ℤ) → mul_ℤ c 1 ≡ c
unfolding mul_ℤ
mul_ℤ-one (pos n) = ap pos (Nat.mul-one n)
mul_ℤ-one (negsuc n) = ground (arith, Nat.mul-one (suc n))

pub quot_ℤ-one : (c : ℤ) → quot_ℤ c 1 ≡ c
unfolding quot_ℤ
quot_ℤ-one (pos n) = ap pos (Nat.div-one n)
quot_ℤ-one (negsuc n) = ground (arith, Nat.div-one (suc n))

-- Two fractions of the same ratio give the same ticks.
quot_ℤ-ratio :
    (c : ℤ) (a b x y : ℕ)
    → 0 < b
    → 0 < y
    → a * y ≡ b * x
    → quot_ℤ (mul_ℤ c a) b ≡ quot_ℤ (mul_ℤ c x) y
quot_ℤ-ratio c a b x y hb hy e =
    sym (quot_ℤ-mul_ℤ (mul_ℤ c a) b y hy)
    ∙ ap (λ d. quot_ℤ d (b * y))
        (mul_ℤ_assoc c a y ∙ ap (mul_ℤ c) (e ∙ Nat.mul_comm b x) ∙ sym (mul_ℤ_assoc c x b))
    ∙ ap (quot_ℤ (mul_ℤ (mul_ℤ c x) b)) (Nat.mul_comm b y)
    ∙ quot_ℤ-mul_ℤ (mul_ℤ c x) y b hb

-- The ticks of the period `q` in `count` ticks of the period `p`, rounded towards zero.
abbrev pub exact : Period → Period → ℤ → ℤ
exact p q count = quot_ℤ (mul_ℤ count (p.num * q.den)) (p.den * q.num)

-- A multiple of the ticks, if the period is divided evenly
pub exact-multiple :
    (p q : Period) (c : ℤ) (k : ℕ)
    → IsPeriod p
    → IsPeriod q
    → p.num * q.den ≡ k * (p.den * q.num)
    → exact p q c ≡ mul_ℤ c k
exact-multiple p q c k hp hq e =
    let b = p.den * q.num in
    let hb : 0 < b = Nat.mul-pos hp.1 hq.0 in
    quot_ℤ-ratio c (p.num * q.den) b k 1 hb (omega arith)
      (Nat.mul-one (p.num * q.den) ∙ e ∙ Nat.mul_comm k b)
    ∙ quot_ℤ-one (mul_ℤ c k)

-- A duration in a period that divides its own evenly, and back, is the same.
exact_back :
    (p q : Period) (c : ℤ) (k : ℕ)
    → IsPeriod p
    → IsPeriod q
    → p.num * q.den ≡ k * (p.den * q.num)
    → exact q p (exact p q c) ≡ c
exact_back p q c k hp hq e =
    ap (exact q p) (exact-multiple p q c k hp hq e)
    ∙ ap (λ d. quot_ℤ d (q.den * p.num)) (mul_ℤ_assoc c k (q.num * p.den))
    ∙ ap (λ x. quot_ℤ (mul_ℤ c x) (q.den * p.num)) whole
    ∙ ap (quot_ℤ (mul_ℤ c (q.den * p.num))) (sym (Nat.one-mul (q.den * p.num)))
    ∙ quot_ℤ-mul_ℤ c 1 (q.den * p.num) (Nat.mul-pos hq.1 hp.0)
    ∙ quot_ℤ-one c
  where
    whole : k * (q.num * p.den) ≡ q.den * p.num
    whole = ap (λ x. k * x) (Nat.mul_comm q.num p.den) ∙ sym e ∙ Nat.mul_comm p.num q.den

module _ (ratios : Ratios) where
  open ratios use {reduce}

  -- The product does not overflow intmax_t, and the ticks are a count of the type `q`.
  abbrev pub Converts : DurationType → DurationType → ℤ → Type 0
  Converts p q c =
      let r = reduce (p.period.num * q.period.den) (p.period.den * q.period.num) in
      Fits intmax (mul_ℤ c r.num) × Fits q.rep (exact p.period q.period c)

  -- The four cases of duration_cast_helper are one formula in the reduced ratio.
  duration_cast-helper :
      (p q : DurationType) (c : ℤ)
      → let r = reduce (p.period.num * q.period.den) (p.period.den * q.period.num) in
        Fits intmax (mul_ℤ c r.num)
        → duration_cast ratios p q c ≡ narrow q.rep (quot_ℤ (mul_ℤ c r.num) r.den)
  unfolding duration_cast
  duration_cast-helper p q c h =
      let r = reduce (p.period.num * q.period.den) (p.period.den * q.period.num) in
      let kept = narrow_lem intmax (mul_ℤ c r.num) h in
      elim (Bool-cases (r.num == 1)) [
        | inl e ↦
            let f : r.num ≡ 1 = (==_iff r.num 1).0 e in
            elim (Bool-cases (r.den == 1)) [
              | inl d ↦
                  let g : r.den ≡ 1 = (==_iff r.den 1).0 d in
                  rw (e, d, f, g, mul_ℤ-one c, quot_ℤ-one c) refl
              | inr d ↦ rw (e, d, f, mul_ℤ-one c) refl
            ]
        | inr e ↦ elim (Bool-cases (r.den == 1)) [
          | inl d ↦
              let g : r.den ≡ 1 = (==_iff r.den 1).0 d in
              rw (e, d, g, kept, quot_ℤ-one (mul_ℤ c r.num)) refl
          | inr d ↦ rw (e, d, kept) refl
        ]
      ]

  -- duration_cast, in whichever of its cases, gives the exact quotient of the two periods, rounded towards
  -- zero. The product with the numerator fits into intmax_t, and the quotient into the representation of the
  -- type that is cast to.
  pub duration_cast-exact :
      (p q : DurationType) (c : ℤ)
      → IsPeriod p.period
      → IsPeriod q.period
      → Converts p q c
      → duration_cast ratios p q c ≡ exact p.period q.period c
  duration_cast-exact p q c (pn, pd) (qn, qd) (product, fits) =
      let a = p.period.num * q.period.den in
      let b = p.period.den * q.period.num in
      let ha : 0 < a = Nat.mul-pos pn qd in
      let hb : 0 < b = Nat.mul-pos pd qn in
      let r = reduce a b in
      duration_cast-helper p q c product
      ∙ ap (narrow q.rep) (
          quot_ℤ-ratio c r.num r.den a b (ratios.reduce-IsPeriod a b ha hb).1 hb
            (ratios.reduce_same a b ha hb))
      ∙ narrow_lem q.rep (exact p.period q.period c) fits

  -- A cast to a period that divides the given one evenly loses nothing.
  pub duration_cast-multiple :
      (p q : DurationType) (c : ℤ) (k : ℕ)
      → IsPeriod p.period
      → IsPeriod q.period
      → Converts p q c
      → p.period.num * q.period.den ≡ k * (p.period.den * q.period.num)
      → duration_cast ratios p q c ≡ mul_ℤ c k
  duration_cast-multiple p q c k hp hq fits e =
      duration_cast-exact p q c hp hq fits ∙ exact-multiple p.period q.period c k hp hq e

  -- A duration that is cast to a period that divides its own evenly, and back, is the same.
  pub duration_cast_back :
      (p q : DurationType) (c : ℤ) (k : ℕ)
      → IsPeriod p.period
      → IsPeriod q.period
      → Converts p q c
      → Converts q p (exact p.period q.period c)
      → p.period.num * q.period.den ≡ k * (p.period.den * q.period.num)
      → duration_cast ratios q p (duration_cast ratios p q c) ≡ c
  duration_cast_back p q c k hp hq there back e =
      ap (duration_cast ratios q p) (duration_cast-exact p q c hp hq there)
      ∙ duration_cast-exact q p (exact p.period q.period c) hq hp back
      ∙ exact_back p.period q.period c k hp hq e
