-- ===== src/Chrono/Ceil.antt =====
-- ceil of src/_common/_chrono.hpp.
use native.Mathlib.Nat
use weos.Common.{
  ℕ, suc, ◌+◌, ◌*◌, ◌/◌, ◌≤◌, ◌<◌, ◌≡◌, refl, sym, ap, subst, arith, if◌then◌else◌, dec_lt, ℤ, pos,
  negsuc, parts-neg_ℕ, neg_ℕ, mul_ℤ-neg_ℕ, ◌+ℤ◌, ◌≤ℤ◌, ltb_ℤ, mul_ℤ, quot_ℤ,
}
use weos.Chrono.Ratio.{IsPeriod, Ratios}
use weos.Chrono.Cast.{exact, Converts, duration_cast-exact}
use weos.Chrono.Rep.{DurationType, Fits, narrow_lem}
use weos.Chrono.Order.{in_unit, Comparable, compare-in_unit}
use weos.Chrono.{duration_cast, ceil}

-- The quotient rounded towards zero, and one more if it is too small.
rounded : ℤ → ℕ → ℤ
rounded x k = if ltb_ℤ (mul_ℤ (quot_ℤ x k) k) x then quot_ℤ x k +ℤ pos 1 else quot_ℤ x k

-- The least multiple of `k` that is not below `x`.
abbrev IsLeast : ℤ → ℕ → ℤ → Type 0
IsLeast x k r = (x ≤ℤ mul_ℤ r k) × ((t : ℤ) → x ≤ℤ mul_ℤ t k → r ≤ℤ t)

below_factor : (u s k n : ℕ) → u * k < n → n ≤ s * k → u < s
below_factor u s k n h e =
    let w : u * k < s * k = omega (arith, h, e) in Nat.lt_of_mul-lt-mul_right k w

rounded_up_least : (n k : ℕ) (t : ℤ) → n / k * k < n → pos n ≤ℤ mul_ℤ t k → pos (n / k + 1) ≤ℤ t
unfolding mul_ℤ
rounded_up_least n k (pos s) l e =
    let w : n / k < s = below_factor (n / k) s k n l (omega (arith, e)) in omega (arith, w)
rounded_up_least n k (negsuc s) l e =
    absurd (omega (arith, l, e, (parts-neg_ℕ (suc s * k)).0, (parts-neg_ℕ (suc s * k)).1))

whole_least : (n k : ℕ) (t : ℤ) → 0 < k → n ≤ n / k * k → pos n ≤ℤ mul_ℤ t k → pos (n / k) ≤ℤ t
unfolding mul_ℤ
whole_least n k (pos s) h l e =
    let w : n / k * k ≤ s * k = omega (arith, l, e, Nat.div-mul-le_self n k) in
    let v : n / k ≤ s = Nat.le_of_mul-le-mul_right w h in omega (arith, v)
whole_least n k (negsuc s) h l e =
    let w : 0 < suc s * k = Nat.mul-pos (omega arith) h in
    absurd (omega (arith, l, e, w, (parts-neg_ℕ (suc s * k)).0, (parts-neg_ℕ (suc s * k)).1))

negative_least : (m k : ℕ) (t : ℤ) → 0 < k → negsuc m ≤ℤ mul_ℤ t k → neg_ℕ (suc m / k) ≤ℤ t
unfolding mul_ℤ
negative_least m k (pos s) h e = omega (arith, (parts-neg_ℕ (suc m / k)).0)
negative_least m k (negsuc s) h e =
    let w : suc s * k ≤ suc m =
      omega (arith, e, (parts-neg_ℕ (suc s * k)).0, (parts-neg_ℕ (suc s * k)).1) in
    let v : suc s ≤ suc m / k = (Nat.le-div_iff_mul-le h).1 w in
    omega (arith, v, (parts-neg_ℕ (suc m / k)).0, (parts-neg_ℕ (suc m / k)).1)

as-IsLeast : (x : ℤ) (k : ℕ) (r q : ℤ) → r ≡ q → IsLeast x k q → IsLeast x k r
as-IsLeast x k r q e h = rw e h

rounded-IsLeast : (x : ℤ) (k : ℕ) → 0 < k → IsLeast x k (rounded x k)
unfolding rounded quot_ℤ mul_ℤ ◌+ℤ◌
rounded-IsLeast (pos n) k h = elim (dec_lt (n / k * k) n) [
  | yes l ↦ as-IsLeast (pos n) k _ (pos (n / k + 1)) (ground (arith, l)) (
    omega (arith, Nat.add-mul (n / k) 1 k, Nat.one-mul k, Nat.lt-div-mul-add {a = n} h),
    λ t. rounded_up_least n k t l,
  )
  | no l ↦
      as-IsLeast (pos n) k _ (pos (n / k)) (ground (arith, l))
        (omega (arith, l), λ t. whole_least n k t h (omega (arith, l)))
]
rounded-IsLeast (negsuc m) k h =
    as-IsLeast (negsuc m) k _ (neg_ℕ (suc m / k)) kept (covers, λ t. negative_least m k t h)
  where
    u : ℕ
    u = suc m / k

    small : u * k ≤ suc m
    small = Nat.div-mul-le_self (suc m) k

    covers : negsuc m ≤ℤ mul_ℤ (neg_ℕ u) k
    covers =
        rw (mul_ℤ-neg_ℕ u k)
          (omega (arith, small, (parts-neg_ℕ (u * k)).0, (parts-neg_ℕ (u * k)).1))

    kept : rounded (negsuc m) k ≡ neg_ℕ u
    kept = ground (arith, covers)

module _ (ratios : Ratios) where
  -- ceil gives the least count of the type `q` that is not shorter than the given duration. The duration can be
  -- cast to `q`, it can be compared with the result of the cast, and one tick more is still a count of `q`.
  pub ceil-IsLeast :
      (p q : DurationType) (c : ℤ)
      → IsPeriod p.period
      → IsPeriod q.period
      → Converts ratios p q c
      → Comparable ratios q p (exact p.period q.period c) c
      → Fits q.rep (exact p.period q.period c +ℤ pos 1)
      → (in_unit ratios p.period q.period c ≤ℤ in_unit ratios q.period p.period (ceil ratios p q c))
        × ((t : ℤ)
            → in_unit ratios p.period q.period c ≤ℤ in_unit ratios q.period p.period t
            → ceil ratios p q c ≤ℤ t)
  unfolding ceil rounded
  ceil-IsLeast p q c hp hq cast compare more =
      subst
        (λ r.
          (in_unit ratios p.period q.period c ≤ℤ in_unit ratios q.period p.period r)
          × ((t : ℤ)
              → in_unit ratios p.period q.period c ≤ℤ in_unit ratios q.period p.period t
              → r ≤ℤ t))
        (sym same) (rounded-IsLeast x k (Nat.mul-pos hq.0 hp.1))
    where
      x : ℤ
      x = mul_ℤ c (p.period.num * q.period.den)

      k : ℕ
      k = q.period.num * p.period.den

      divided : exact p.period q.period c ≡ quot_ℤ x k
      divided = ap (quot_ℤ x) (Nat.mul_comm p.period.den q.period.num)

      casted : duration_cast ratios p q c ≡ exact p.period q.period c
      casted = duration_cast-exact ratios p q c hp hq cast

      same : ceil ratios p q c ≡ rounded x k
      same =
          let (e, l) = compare-in_unit ratios q p (exact p.period q.period c) c hq hp compare in
          rw (casted, l, narrow_lem q.rep _ more, divided) refl
