-- ===== src/Chrono/Ratio.antt =====
-- The periods of durations, and what src/_common/_chrono.hpp uses of std::ratio, which is the compiler's.
use Prim.Native.Nat.{◌∣◌}
use weos.Common.{ℕ, ◌*◌, ◌<◌, ◌≡◌}

-- A ratio of positive numbers, in seconds.
pub record Period : Type 0 where
  pub num : ℕ
  pub den : ℕ

abbrev pub IsPeriod : Period → Type 0
IsPeriod p = (0 < p.num) × (0 < p.den)

-- `reduce a b` is ratio<a, b>::type, the same ratio in lowest terms.
pub record Ratios : Type 0 where
  pub reduce : ℕ → ℕ → Period
  pub reduce-IsPeriod : (a b : ℕ) → 0 < a → 0 < b → IsPeriod (reduce a b)
  pub reduce_same : (a b : ℕ) → 0 < a → 0 < b → (reduce a b).num * b ≡ (reduce a b).den * a
  pub reduce_lowest :
      (a b k : ℕ) → 0 < a → 0 < b → k ∣ (reduce a b).num → k ∣ (reduce a b).den → k ≡ 1
