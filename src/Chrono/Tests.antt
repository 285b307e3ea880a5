-- ===== src/Chrono/Tests.antt =====
-- The reduced ratio of two numbers as a concrete ratio library, and the theorems on durations applied to
-- milliseconds, seconds and a timer of 3 ticks in 2 seconds.
use Prim.Native.Nat.{◌∣◌}
use native.Mathlib.Nat
use weos.Common.{
  ℕ, ◌*◌, ◌/◌, ◌^◌, ◌<◌, ◌≡◌, refl, sym, subst, arith, true, ℤ, pos, negsuc, ◌+ℤ◌, ◌≤ℤ◌, eqb_ℤ,
  ltb_ℤ, mul_ℤ, quot_ℤ,
}
use weos.Chrono.Gcd.{static_gcd, static_lcm, gcd_loop, static_gcd-greatest, static_gcd_pos}
use weos.Chrono.Ratio.{Period, IsPeriod, Ratios}
use weos.Chrono.Rep.{DurationType, Fits, residue, narrow}
use weos.Chrono.{
  duration_cast, common_type, ratio_gcd, equal, less, ceil, overflow, checked_division, convertible,
}
use weos.Chrono.Cast.{exact, Converts, duration_cast-exact}
use weos.Chrono.Order.{in_unit, Comparable, compare-in_unit}
use weos.Chrono.Ceil.{ceil-IsLeast}

abbrev reduced : ℕ → ℕ → Period
reduced a b = record { num = a / static_gcd a b; den = b / static_gcd a b }

module _ (a b : ℕ) (ha : 0 < a) (hb : 0 < b) where
  in_num : static_gcd a b * (a / static_gcd a b) ≡ a
  in_num = let (l, r, t) = static_gcd-greatest a b in Nat.mul-div_cancel' (static_gcd a b) l

  in_den : static_gcd a b * (b / static_gcd a b) ≡ b
  in_den = let (l, r, t) = static_gcd-greatest a b in Nat.mul-div_cancel' (static_gcd a b) r

  factor_pos : (g x n : ℕ) → g * x ≡ n → 0 < n → 0 < x
  factor_pos g x n e h = Nat.pos_of_dvd_of_pos (subst (λ m. x ∣ m) e (Nat.dvd-mul_left x g)) h

  reduced-IsPeriod : IsPeriod (reduced a b)
  reduced-IsPeriod =
      (factor_pos (static_gcd a b) _ a in_num ha, factor_pos (static_gcd a b) _ b in_den hb)

  reduced_same : (reduced a b).num * b ≡ (reduced a b).den * a
  reduced_same =
      crossed (static_gcd a b) (a / static_gcd a b) (b / static_gcd a b) a b in_num in_den
    where
      crossed : (g x y n m : ℕ) → g * x ≡ n → g * y ≡ m → x * m ≡ y * n
      crossed g x y n m e f = rw (← e, ← f) (grind arith)

  reduced_lowest : (k : ℕ) → k ∣ (reduced a b).num → k ∣ (reduced a b).den → k ≡ 1
  reduced_lowest k l r =
      let g = static_gcd a b in
      let (p, q, t) = static_gcd-greatest a b in
      let whole : g * k ∣ g =
        t (g * k) (subst (λ m. g * k ∣ m) in_num (Nat.mul-dvd-mul_left k g l))
          (subst (λ m. g * k ∣ m) in_den (Nat.mul-dvd-mul_left k g r)) in
      Nat.eq-one_of_dvd-one (
        Nat.dvd_of_mul-dvd-mul_left k (static_gcd_pos a b ha)
          (subst (λ m. g * k ∣ m) (sym (Nat.mul-one g)) whole))

abbrev std_ratio : Ratios
std_ratio = record {
  reduce = reduced;
  reduce-IsPeriod = reduced-IsPeriod;
  reduce_same = reduced_same;
  reduce_lowest = λ a b k ha hb. reduced_lowest a b ha hb k;
}

abbrev milli : Period
milli = record { num = 1; den = 1000 }

abbrev second : Period
second = record { num = 1; den = 1 }

-- 2 / 3 of a second
abbrev timer : Period
timer = record { num = 2; den = 3 }

milli-IsPeriod : IsPeriod milli
milli-IsPeriod = (omega arith, omega arith)

timer-IsPeriod : IsPeriod timer
timer-IsPeriod = (omega arith, omega arith)

-- The types of 64-bit counts, and minutes and hours, which have 32 bits
abbrev milliseconds : DurationType
milliseconds = record { rep = 2 ^ 63; period = milli }

abbrev seconds : DurationType
seconds = record { rep = 2 ^ 63; period = second }

abbrev ticks : DurationType
ticks = record { rep = 2 ^ 63; period = timer }

abbrev minutes : DurationType
minutes = record { rep = 2 ^ 31; period = record { num = 60; den = 1 } }

abbrev hours : DurationType
hours = record { rep = 2 ^ 31; period = record { num = 3600; den = 1 } }

-- -1500 ms are -1 s after a cast, and 5 ticks of the timer are 3333 ms.
casts :
    (duration_cast std_ratio milliseconds seconds (negsuc 1499) ≡ negsuc 0)
    × (duration_cast std_ratio ticks milliseconds (pos 5) ≡ pos 3333)
    × (ceil std_ratio ticks milliseconds (pos 5) ≡ pos 3334)
unfolding duration_cast ceil less common_type ratio_gcd static_lcm static_gcd gcd_loop mul_ℤ quot_ℤ
    ◌+ℤ◌ narrow residue
casts = (refl, refl, refl)

-- 2 ^ 26 hours are 4026531840 minutes, which 32 bits cannot represent: the cast gives -268435456, and the hours
-- compare less than no minutes at all.
narrowed :
    (duration_cast std_ratio hours minutes (pos (2 ^ 26)) ≡ negsuc 268435455)
    × (less std_ratio hours minutes (pos (2 ^ 26)) (pos 0) ≡ true)
unfolding duration_cast less common_type ratio_gcd static_lcm static_gcd gcd_loop mul_ℤ quot_ℤ
    narrow residue
narrowed = (refl, refl)

to_milliseconds : Converts std_ratio ticks milliseconds (pos 5)
unfolding mul_ℤ quot_ℤ static_gcd gcd_loop
to_milliseconds = (omega arith, omega arith)

duration_cast-exact_example :
    duration_cast std_ratio ticks milliseconds (pos 5) ≡ exact timer milli (pos 5)
duration_cast-exact_example =
    duration_cast-exact std_ratio ticks milliseconds (pos 5) timer-IsPeriod milli-IsPeriod
      to_milliseconds

comparable : Comparable std_ratio ticks milliseconds (pos 3) (pos 2000)
unfolding common_type ratio_gcd static_lcm mul_ℤ quot_ℤ static_gcd gcd_loop
comparable = ((omega arith, omega arith), (omega arith, omega arith))

compare-in_unit_example :
    (equal std_ratio ticks milliseconds (pos 3) (pos 2000)
      ≡ eqb_ℤ (in_unit std_ratio timer milli (pos 3)) (in_unit std_ratio milli timer (pos 2000)))
    × (less std_ratio ticks milliseconds (pos 3) (pos 2000)
        ≡ ltb_ℤ (in_unit std_ratio timer milli (pos 3)) (in_unit std_ratio milli timer (pos 2000)))
compare-in_unit_example =
    compare-in_unit std_ratio ticks milliseconds (pos 3) (pos 2000) timer-IsPeriod milli-IsPeriod
      comparable

cast-Comparable : Comparable std_ratio milliseconds ticks (exact timer milli (pos 5)) (pos 5)
unfolding common_type ratio_gcd static_lcm mul_ℤ quot_ℤ static_gcd gcd_loop
cast-Comparable = ((omega arith, omega arith), (omega arith, omega arith))

one_more : Fits milliseconds.rep (exact timer milli (pos 5) +ℤ pos 1)
unfolding mul_ℤ quot_ℤ ◌+ℤ◌
one_more = omega arith

ceil-IsLeast_example :
    (in_unit std_ratio timer milli (pos 5)
      ≤ℤ in_unit std_ratio milli timer (ceil std_ratio ticks milliseconds (pos 5)))
    × ((t : ℤ)
        → in_unit std_ratio timer milli (pos 5) ≤ℤ in_unit std_ratio milli timer t
        → ceil std_ratio ticks milliseconds (pos 5) ≤ℤ t)
ceil-IsLeast_example =
    ceil-IsLeast std_ratio ticks milliseconds (pos 5) timer-IsPeriod milli-IsPeriod to_milliseconds
      cast-Comparable one_more

second-convertible : convertible std_ratio second milli ≡ true
unfolding convertible overflow checked_division static_gcd gcd_loop
second-convertible = refl
