-- ===== src/Chrono/Gcd.antt =====
-- static_gcd and static_lcm of src/_common/_chrono.hpp, for numbers that are not negative.
use Prim.Native.Nat.{◌∣◌}
use native.Mathlib.Nat
use weos.Common.{
  ℕ, zero, suc, ◌*◌, ◌/◌, ◌%◌, ◌<◌, ◌≡◌, ◌≢◌, subst, sym, ap, ◌∙◌, arith, ◌==◌, ◌&&◌, if◌then◌else◌,
  ℕ_discrete,
}

-- The recursion of static_gcd_impl, on fuel.
unfoldable pub gcd_loop : ℕ → ℕ → ℕ → ℕ
gcd_loop zero a b = a
gcd_loop (suc fuel) a b = let rest = gcd_loop fuel b (a % b) in if b == 0 then a else rest

unfoldable pub static_gcd : ℕ → ℕ → ℕ
unfolding gcd_loop
static_gcd a b = gcd_loop (suc b) a b

unfoldable pub static_lcm : ℕ → ℕ → ℕ
unfolding static_gcd
static_lcm a b = if a == 0 && b == 0 then 0 else a / static_gcd a b * b

-- With enough fuel the result divides both numbers, and every common divisor divides it.
gcd_loop-dvd : (fuel a b : ℕ) → b < fuel → (gcd_loop fuel a b ∣ a) × (gcd_loop fuel a b ∣ b)
unfolding gcd_loop
gcd_loop-dvd zero a b h = absurd (omega (arith, h))
gcd_loop-dvd (suc fuel) a b h = elim (ℕ_discrete b 0) [
  | yes e ↦ rw (e) (Nat.dvd_refl a, Nat.dvd-zero a)
  | no n ↦
      let (left, right) = gcd_loop-dvd fuel b (a % b) (omega (arith, h, n)) in
      let r : (gcd_loop fuel b (a % b) ∣ a) × (gcd_loop fuel b (a % b) ∣ b) =
        ((Nat.dvd-mod_iff _ left).0 right, left) in
      rw (← step n) at r
]
  where
    step : b ≢ 0 → gcd_loop (suc fuel) a b ≡ gcd_loop fuel b (a % b)
    step n = ground (arith, n)

dvd-gcd_loop : (fuel k a b : ℕ) → k ∣ a → k ∣ b → k ∣ gcd_loop fuel a b
unfolding gcd_loop
dvd-gcd_loop zero k a b ha hb = ha
dvd-gcd_loop (suc fuel) k a b ha hb = elim (ℕ_discrete b 0) [
  | yes e ↦ subst (λ g. k ∣ g) (sym (stop e)) ha
  | no n ↦
      subst (λ g. k ∣ g) (sym (step n))
        (dvd-gcd_loop fuel k b (a % b) hb ((Nat.dvd-mod_iff k hb).1 ha))
]
  where
    stop : b ≡ 0 → gcd_loop (suc fuel) a b ≡ a
    stop e = ground (arith, e)

    step : b ≢ 0 → gcd_loop (suc fuel) a b ≡ gcd_loop fuel b (a % b)
    step n = ground (arith, n)

-- static_gcd divides both numbers, and every number that does divides it.
pub static_gcd-greatest :
    (a b : ℕ)
    → (static_gcd a b ∣ a) × (static_gcd a b ∣ b) × ((k : ℕ) → k ∣ a → k ∣ b → k ∣ static_gcd a b)
unfolding static_gcd
static_gcd-greatest a b =
    let (l, r) = gcd_loop-dvd (suc b) a b (omega arith) in (l, r, λ k. dvd-gcd_loop (suc b) k a b)

pub static_gcd_pos : (a b : ℕ) → 0 < a → 0 < static_gcd a b
static_gcd_pos a b h = let (l, r, g) = static_gcd-greatest a b in Nat.pos_of_dvd_of_pos l h

-- static_lcm is a multiple of both numbers, and not zero.
pub static_lcm-multiple :
    (a b : ℕ) → 0 < a → 0 < b → (a ∣ static_lcm a b) × (b ∣ static_lcm a b) × (0 < static_lcm a b)
unfolding static_lcm
static_lcm-multiple a b ha hb = (
  subst (λ m. a ∣ m) (sym shape) left,
  subst (λ m. b ∣ m) (sym shape) right,
  subst (λ m. 0 < m) (sym shape) positive,
)
  where
    g : ℕ
    g = static_gcd a b

    in_a : a / g * g ≡ a
    in_a = let (l, r, t) = static_gcd-greatest a b in Nat.div-mul_cancel g l

    in_b : g * (b / g) ≡ b
    in_b = let (l, r, t) = static_gcd-greatest a b in Nat.mul-div_cancel' g r

    shape : static_lcm a b ≡ a / g * b
    shape = ground (arith, ha)

    right : b ∣ a / g * b
    right = Nat.dvd-mul_left b (a / g)

    other : a * (b / g) ≡ a / g * b
    other =
        ap (λ x. x * (b / g)) (sym in_a)
        ∙ Nat.mul_assoc (a / g) g (b / g)
        ∙ ap (λ x. a / g * x) in_b

    left : a ∣ a / g * b
    left = subst (λ m. a ∣ m) other (Nat.dvd-mul_right a (b / g))

    quotient_pos : 0 < a / g
    quotient_pos = elim (ℕ_discrete (a / g) 0) [
      | yes e ↦ absurd (omega (arith, ha, sym in_a ∙ ap (λ x. x * g) e ∙ Nat.zero-mul g))
      | no n ↦ omega (arith, n)
    ]

    positive : 0 < a / g * b
    positive = Nat.mul-pos quotient_pos hb
