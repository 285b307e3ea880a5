-- ===== src/Atomic/Monitor.antt =====
-- The exclusive monitors behind __ldrex, __strex and __clrex, which src/_armcc/_atomic.hpp uses. They are the
-- processor's; a relation stands for what each instruction of thread `t` may do to them.
use weos.Common.{ℕ, ◌≢◌}

pub record Monitors : Type 1 where
  pub M : Type 0
  -- May the next exclusive store of the thread succeed?
  pub Valid : M → ℕ → Type 0
  pub Loads : M → ℕ → M → Type 0
  -- An exclusive store that writes
  pub Stores : M → ℕ → M → Type 0
  -- An exclusive store that does not write, and __clrex
  pub Clears : M → ℕ → M → Type 0
  pub loads_others : {m m' : M} {t : ℕ} → Loads m t m' → (u : ℕ) → t ≢ u → Valid m' u → Valid m u
  pub stores_valid : {m m' : M} {t : ℕ} → Stores m t m' → Valid m t
  pub stores_clear : {m m' : M} {t : ℕ} → Stores m t m' → (u : ℕ) → Valid m' u → ⊥
  pub clears_valid : {m m' : M} {t : ℕ} → Clears m t m' → (u : ℕ) → Valid m' u → Valid m u
