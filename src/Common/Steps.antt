-- ===== src/Common/Steps.antt =====
-- Any number of threads in a step relation: where each of them stands, and what it relies on there.
use Prim.Native.Nat.{ℕ}
use mathlib.Core.Path.{◌≡◌, subst}
use mathlib.Core.Logic.{◌≢◌, inl, inr}
use native.Mathlib.Omega.{arith}
use weos.Common.Tests.{◌==◌, if◌then◌else◌, Bool-cases}

module _ {Pc : Type 0} where
  -- Thread `t` moves on.
  abbrev pub moved : (ℕ → Pc) → ℕ → Pc → ℕ → Pc
  moved pc t new u = if t == u then new else pc u

  -- All threads rely on `P'` after a step of thread `t` if the others keep what they have.
  pub moved-relies :
      (P P' : ℕ → Pc → Type 0) (pc : ℕ → Pc) (t : ℕ) (new : Pc)
      → ((u : ℕ) → P u (pc u))
      → ((u : ℕ) → t ≢ u → (p : Pc) → P u p → P' u p)
      → P' t new
      → (u : ℕ) → P' u (moved pc t new u)
  moved-relies P P' pc t new h k r u = elim (Bool-cases (t == u)) [
    | inl e ↦ let same : t ≡ u = ground (arith, e) in rw e (subst (λ z. P' z new) same r)
    | inr e ↦ rw e (k u (ground (arith, e)) (pc u) (h u))
  ]
