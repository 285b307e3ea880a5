-- ===== src/Chrono.antt =====
-- src/_common/_chrono.hpp: durations and time points of any periods and signed representations, and the casts between
-- them. Where the arithmetic of signed counts overflows, which has no defined behaviour, it wraps around here.
pub mod Gcd
pub mod Ratio
pub mod Rep
pub mod Cast
pub mod Order
pub mod Ceil
pub mod Convert
pub mod Tests
use weos.Common.{
  ℕ, ◌+◌, ◌-◌, ◌*◌, ◌/◌, ◌^◌, Bool, true, false, not, ◌||◌, ◌&&◌, ltb, ◌==◌, if◌then◌else◌, ℤ, pos,
  ◌+ℤ◌, ◌-ℤ◌, ltb_ℤ, eqb_ℤ, mul_ℤ, quot_ℤ,
}
use Gcd.{static_gcd, static_lcm}
use Ratio.{Period, Ratios}
use Rep.{DurationType, narrow}

-- Are two duration types the same?
abbrev pub same_type : DurationType → DurationType → Bool
same_type p q = p.rep == q.rep && p.period.num == q.period.num && p.period.den == q.period.den

-- The values of intmax_t are from -2 ^ 63 to 2 ^ 63 - 1.
abbrev pub intmax : ℕ
intmax = 2 ^ 63

-- checked_division: max is -((intmax_t(1) << 63) + 1) in 64 bits.
abbrev pub max : ℕ
max = 2 ^ 64 - (2 ^ 63 + 1)

-- checked_division::overflow
pub overflow : Period → Period → Bool
overflow p q =
    let gcd_num = static_gcd p.num q.num in
    let gcd_den = static_gcd p.den q.den in
    ltb (max / (q.den / gcd_den)) (p.num / gcd_num)
    || ltb (max / (p.den / gcd_den)) (q.num / gcd_num)

module _ (ratios : Ratios) where
  open ratios use {reduce}

  -- ratio_gcd, the period of common_type
  pub ratio_gcd : Period → Period → Period
  ratio_gcd p q = reduce (static_gcd p.num q.num) (static_lcm p.den q.den)

  -- common_type of two duration types: of two signed types, the wider one.
  pub common_type : DurationType → DurationType → DurationType
  unfolding ratio_gcd
  common_type p q = record {
    rep = if ltb p.rep q.rep then q.rep else p.rep;
    period = ratio_gcd p.period q.period;
  }

  -- checked_division::type
  pub checked_division : Period → Period → Period
  checked_division p q =
      let gcd_num = static_gcd p.num q.num in
      let gcd_den = static_gcd p.den q.den in
      reduce (p.num / gcd_num * (q.den / gcd_den)) (p.den / gcd_den * (q.num / gcd_num))

  -- Is a duration of period `p` converted to one of period `q` without a cast?
  pub convertible : Period → Period → Bool
  unfolding overflow checked_division
  convertible p q = not (overflow p q) && (checked_division p q).den == 1

  -- duration_cast of `count` ticks of the type `p` to the type `q`: the four cases of duration_cast_helper, which
  -- compute in intmax_t and convert to the representation of `q`. `r` is ratio_divide of the periods.
  pub duration_cast : DurationType → DurationType → ℤ → ℤ
  unfolding narrow
  duration_cast p q count =
      let r = reduce (p.period.num * q.period.den) (p.period.den * q.period.num) in
      if r.num == 1
      then (if r.den == 1 then narrow q.rep count else narrow q.rep (quot_ℤ count r.den))
      else (if r.den == 1
          then narrow q.rep (narrow intmax (mul_ℤ count r.num))
          else narrow q.rep (quot_ℤ (narrow intmax (mul_ℤ count r.num)) r.den))

  -- duration_equal
  pub equal : DurationType → DurationType → ℤ → ℤ → Bool
  unfolding duration_cast common_type
  equal p q c d =
      if same_type p q
      then eqb_ℤ c d
      else eqb_ℤ (duration_cast p (common_type p q) c) (duration_cast q (common_type p q) d)

  -- duration_less
  pub less : DurationType → DurationType → ℤ → ℤ → Bool
  unfolding duration_cast common_type
  less p q c d =
      if same_type p q
      then ltb_ℤ c d
      else ltb_ℤ (duration_cast p (common_type p q) c) (duration_cast q (common_type p q) d)

  -- operator!=, >, <= and >=
  pub not_equal : DurationType → DurationType → ℤ → ℤ → Bool
  unfolding equal
  not_equal p q c d = not (equal p q c d)

  pub greater : DurationType → DurationType → ℤ → ℤ → Bool
  unfolding less
  greater p q c d = less q p d c

  pub less_equal : DurationType → DurationType → ℤ → ℤ → Bool
  unfolding less
  less_equal p q c d = not (less q p d c)

  pub greater_equal : DurationType → DurationType → ℤ → ℤ → Bool
  unfolding less
  greater_equal p q c d = not (less p q c d)

  -- operator+ and operator-: the ticks of the common type
  pub plus : DurationType → DurationType → ℤ → ℤ → ℤ
  unfolding duration_cast common_type narrow
  plus p q c d =
      let g = common_type p q in narrow g.rep (duration_cast p g c +ℤ duration_cast q g d)

  pub minus : DurationType → DurationType → ℤ → ℤ → ℤ
  unfolding duration_cast common_type narrow
  minus p q c d =
      let g = common_type p q in narrow g.rep (duration_cast p g c -ℤ duration_cast q g d)

  -- ceil<q>
  pub ceil : DurationType → DurationType → ℤ → ℤ
  unfolding duration_cast less narrow
  ceil p q count =
      let casted = duration_cast p q count in
      if less q p casted count then narrow q.rep (casted +ℤ pos 1) else casted

  -- A time point of a clock, as the ticks since its epoch
  pub record TimePoint : Type 0 where
    pub since_epoch : ℤ

  pub time_point_cast : DurationType → DurationType → TimePoint → TimePoint
  unfolding duration_cast
  time_point_cast p q t = record { since_epoch = duration_cast p q t.since_epoch }

  -- operator+ and operator- of a time point and a duration
  pub later : DurationType → DurationType → TimePoint → ℤ → TimePoint
  unfolding plus
  later p q t d = record { since_epoch = plus p q t.since_epoch d }

  pub earlier : DurationType → DurationType → TimePoint → ℤ → TimePoint
  unfolding minus
  earlier p q t d = record { since_epoch = minus p q t.since_epoch d }

  -- operator- of two time points
  pub elapsed : DurationType → DurationType → TimePoint → TimePoint → ℤ
  unfolding minus
  elapsed p q t u = minus p q t.since_epoch u.since_epoch
