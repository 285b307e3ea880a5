-- ===== src/Common/Int.antt =====
-- Signed integers over the native numbers. Sums and orders go through the two parts of an integer,
-- which are numbers that `omega` reads.
use Prim.Native.Nat.{ℕ, zero, suc, ◌+◌, ◌-◌, ◌*◌, ◌/◌, ◌≤◌, ◌<◌}
use mathlib.Core.Path.{◌≡◌, refl, sym, ap, ◌∙◌}
use native.Mathlib.Nat.{
  zero-mul, zero-div, add-mul, mul-lt-mul_of_pos_right, mul-le-mul_right, mul_assoc,
  mul-div-mul_right,
}
use mathlib.Core.Bool.{Bool, false}
use mathlib.Core.Logic.{◌↔◌}
use native.Mathlib.Omega.{arith}
use native.Mathlib.Decide.{dec_lt}
use weos.Common.Tests.{ltb, leb, ◌==◌, if◌then◌else◌}

-- `negsuc n` is -(n + 1).
pub data ℤ : Type 0 where
  pos : ℕ → ℤ
  negsuc : ℕ → ℤ

abbrev pub pos_part : ℤ → ℕ
pos_part (pos n) = n
pos_part (negsuc n) = 0

abbrev pub neg_part : ℤ → ℕ
neg_part (pos n) = 0
neg_part (negsuc n) = suc n

-- a - b, as an integer.
abbrev pub sub_ℕ : ℕ → ℕ → ℤ
sub_ℕ a b = if leb b a then pos (a - b) else negsuc (b - a - 1)

infixl 65 ◌+ℤ◌ ◌-ℤ◌
infix 50 ◌≤ℤ◌
unfoldable pub ◌+ℤ◌ : ℤ → ℤ → ℤ
a +ℤ b = sub_ℕ (pos_part a + pos_part b) (neg_part a + neg_part b)

unfoldable pub ◌-ℤ◌ : ℤ → ℤ → ℤ
a -ℤ b = sub_ℕ (pos_part a + neg_part b) (neg_part a + pos_part b)

abbrev pub ◌≤ℤ◌ : ℤ → ℤ → Type 0
a ≤ℤ b = pos_part a + neg_part b ≤ pos_part b + neg_part a

abbrev pub ltb_ℤ : ℤ → ℤ → Bool
ltb_ℤ a b = ltb (pos_part a + neg_part b) (pos_part b + neg_part a)

pub +ℤ_parts :
    (a b : ℤ)
    → pos_part (a +ℤ b) + neg_part a + neg_part b ≡ neg_part (a +ℤ b) + pos_part a + pos_part b
unfolding ◌+ℤ◌
+ℤ_parts a b = ground arith

pub -ℤ_parts :
    (a b : ℤ)
    → pos_part (a -ℤ b) + neg_part a + pos_part b ≡ neg_part (a -ℤ b) + pos_part a + neg_part b
unfolding ◌-ℤ◌
-ℤ_parts a b = ground arith

pub eq_of_parts : (a b : ℤ) → pos_part a + neg_part b ≡ pos_part b + neg_part a → a ≡ b
eq_of_parts a b h = ground arith

pub ruleset int_laws = (arith, +ℤ_parts, -ℤ_parts, eq_of_parts)

abbrev pub eqb_ℤ : ℤ → ℤ → Bool
eqb_ℤ a b = pos_part a + neg_part b == pos_part b + neg_part a

-- -n
abbrev pub neg_ℕ : ℕ → ℤ
neg_ℕ zero = pos 0
neg_ℕ (suc n) = negsuc n

-- a * k and a / k, which rounds towards zero, for a natural number `k`
unfoldable pub mul_ℤ : ℤ → ℕ → ℤ
mul_ℤ (pos n) k = pos (n * k)
mul_ℤ (negsuc n) k = neg_ℕ (suc n * k)

unfoldable pub quot_ℤ : ℤ → ℕ → ℤ
quot_ℤ (pos n) k = pos (n / k)
quot_ℤ (negsuc n) k = neg_ℕ (suc n / k)

pub parts-neg_ℕ : (n : ℕ) → (pos_part (neg_ℕ n) ≡ 0) × (neg_part (neg_ℕ n) ≡ n)
parts-neg_ℕ zero = (refl, refl)
parts-neg_ℕ (suc n) = (refl, refl)

pub pos_part-mul_ℤ : (a : ℤ) (k : ℕ) → pos_part (mul_ℤ a k) ≡ pos_part a * k
unfolding mul_ℤ
pos_part-mul_ℤ (pos n) k = refl
pos_part-mul_ℤ (negsuc n) k = (parts-neg_ℕ (suc n * k)).0 ∙ sym (zero-mul k)

pub neg_part-mul_ℤ : (a : ℤ) (k : ℕ) → neg_part (mul_ℤ a k) ≡ neg_part a * k
unfolding mul_ℤ
neg_part-mul_ℤ (pos n) k = sym (zero-mul k)
neg_part-mul_ℤ (negsuc n) k = (parts-neg_ℕ (suc n * k)).1

pub mul_ℤ_assoc : (a : ℤ) (j k : ℕ) → mul_ℤ (mul_ℤ a j) k ≡ mul_ℤ a (j * k)
mul_ℤ_assoc a j k =
    eq_of_parts (mul_ℤ (mul_ℤ a j) k) (mul_ℤ a (j * k))
      (simp (pos_part-mul_ℤ, neg_part-mul_ℤ, mul_assoc))

pub mul_ℤ-neg_ℕ : (n k : ℕ) → mul_ℤ (neg_ℕ n) k ≡ neg_ℕ (n * k)
unfolding mul_ℤ
mul_ℤ-neg_ℕ zero k = rw (zero-mul k) refl
mul_ℤ-neg_ℕ (suc n) k = refl

pub quot_ℤ-neg_ℕ : (n k : ℕ) → quot_ℤ (neg_ℕ n) k ≡ neg_ℕ (n / k)
unfolding quot_ℤ
quot_ℤ-neg_ℕ zero k = rw (zero-div k) refl
quot_ℤ-neg_ℕ (suc n) k = refl

-- A common factor can be cancelled in a division, and drops out of a comparison.
pub quot_ℤ-mul_ℤ : (a : ℤ) (j k : ℕ) → 0 < k → quot_ℤ (mul_ℤ a k) (j * k) ≡ quot_ℤ a j
unfolding mul_ℤ quot_ℤ
quot_ℤ-mul_ℤ (pos n) j k h = ap pos (mul-div-mul_right n j h)
quot_ℤ-mul_ℤ (negsuc n) j k h =
    quot_ℤ-neg_ℕ (suc n * k) (j * k) ∙ ap neg_ℕ (mul-div-mul_right (suc n) j h)

cross-mul : (a b c d k : ℕ) → 0 < k → ltb (a * k + b * k) (c * k + d * k) ≡ ltb (a + b) (c + d)
cross-mul a b c d k h = elim (dec_lt (a + b) (c + d)) [
  | yes l ↦ ground (arith, l, scaled l)
  | no l ↦ ground (arith, l, scaled_back l)
]
  where
    scaled : a + b < c + d → a * k + b * k < c * k + d * k
    scaled l = rw (add-mul a b k, add-mul c d k) at (mul-lt-mul_of_pos_right l h)

    scaled_back : ¬ (a + b < c + d) → c * k + d * k ≤ a * k + b * k
    scaled_back l =
        let u : c + d ≤ a + b = omega (arith, l) in
        rw (add-mul a b k, add-mul c d k) at (mul-le-mul_right k u)

pub ltb_ℤ-mul_ℤ : (a b : ℤ) (k : ℕ) → 0 < k → ltb_ℤ (mul_ℤ a k) (mul_ℤ b k) ≡ ltb_ℤ a b
ltb_ℤ-mul_ℤ a b k h =
    rw (pos_part-mul_ℤ a k, neg_part-mul_ℤ b k, pos_part-mul_ℤ b k, neg_part-mul_ℤ a k)
      (cross-mul (pos_part a) (neg_part b) (pos_part b) (neg_part a) k h)

pub ltb_ℤ-cases : (a b : ℤ) → (ltb_ℤ a b ≡ false) ↔ (b ≤ℤ a)
ltb_ℤ-cases a b = ground arith

pub eqb_ℤ-mul_ℤ : (a b : ℤ) (k : ℕ) → 0 < k → eqb_ℤ (mul_ℤ a k) (mul_ℤ b k) ≡ eqb_ℤ a b
eqb_ℤ-mul_ℤ a b k h = ground (arith, ltb_ℤ-mul_ℤ a b k h, ltb_ℤ-mul_ℤ b a k h)

pub mul_ℤ-+ℤ : (a b : ℤ) (k : ℕ) → mul_ℤ (a +ℤ b) k ≡ mul_ℤ a k +ℤ mul_ℤ b k
mul_ℤ-+ℤ a b k = eq_of_parts (mul_ℤ (a +ℤ b) k) (mul_ℤ a k +ℤ mul_ℤ b k) (
    omega (
      arith,
      scaled,
      +ℤ_parts (mul_ℤ a k) (mul_ℤ b k),
      pos_part-mul_ℤ a k,
      pos_part-mul_ℤ b k,
      neg_part-mul_ℤ a k,
      neg_part-mul_ℤ b k,
      pos_part-mul_ℤ (a +ℤ b) k,
      neg_part-mul_ℤ (a +ℤ b) k,
    ))
  where
    spread : (x y z : ℕ) → (x + y + z) * k ≡ x * k + y * k + z * k
    spread x y z = add-mul (x + y) z k ∙ ap (λ u. u + z * k) (add-mul x y k)

    scaled :
        pos_part (a +ℤ b) * k + neg_part a * k + neg_part b * k
        ≡ neg_part (a +ℤ b) * k + pos_part a * k + pos_part b * k
    scaled =
        sym (spread (pos_part (a +ℤ b)) (neg_part a) (neg_part b))
        ∙ ap (λ u. u * k) (+ℤ_parts a b)
        ∙ spread (neg_part (a +ℤ b)) (pos_part a) (pos_part b)
