-- ===== src/Chrono/Rep.antt =====
-- The types of durations in src/_common/_chrono.hpp, and the conversion of a count to the representation of such a type.
use native.Mathlib.Nat
use weos.Common.{ℕ, ◌-◌, ◌*◌, ◌%◌, ◌<◌, ◌≡◌, arith, ltb, if◌then◌else◌, ℤ, pos, negsuc}
use weos.Chrono.Ratio.{Period}

-- The type duration<RepT, PeriodT>: the counts are the integers from -rep to rep - 1.
pub record DurationType : Type 0 where
  pub rep : ℕ
  pub period : Period

-- An integer modulo 2 * rep
unfoldable pub residue : ℕ → ℤ → ℕ
residue rep (pos n) = n % (2 * rep)
residue rep (negsuc n) = 2 * rep - 1 - n % (2 * rep)

-- The conversion to a signed type, in two's complement
unfoldable pub narrow : ℕ → ℤ → ℤ
unfolding residue
narrow rep count =
    let r = residue rep count in if ltb r rep then pos r else negsuc (2 * rep - 1 - r)

-- The integer is one of the type.
abbrev pub Fits : ℕ → ℤ → Type 0
Fits rep (pos n) = n < rep
Fits rep (negsuc n) = n < rep

-- The conversion keeps the integers of the type.
pub narrow_lem : (rep : ℕ) (count : ℤ) → Fits rep count → narrow rep count ≡ count
unfolding narrow residue
narrow_lem rep (pos n) h =
    let e : n % (2 * rep) ≡ n = Nat.mod-eq_of_lt (omega (arith, h)) in ground (arith, e, h)
narrow_lem rep (negsuc n) h =
    let e : n % (2 * rep) ≡ n = Nat.mod-eq_of_lt (omega (arith, h)) in ground (arith, e, h)
