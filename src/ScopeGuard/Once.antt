-- ===== src/ScopeGuard/Once.antt =====
-- How often the callable of a guard of src/scopeguard.hpp runs.
use weos.Common.{
  ℕ, zero, suc, ◌+◌, ◌≤◌, ◌≡◌, refl, arith, Bool, true, false, List, [], ◌∷◌, if◌then◌else◌,
}
use weos.ScopeGuard.{
  Guard, Event, move, dismiss, disarm, is_dismissed, step, run, calls, ExceptionGuard,
  move_exception_guard, fires, exception_moves, exception_calls,
}

disarm-calls :
    (n : ℕ) (gs : List Guard)
    → calls (disarm n gs) + (if is_dismissed n gs then 0 else 1) ≡ calls gs
unfolding disarm is_dismissed calls
disarm-calls n [] = refl
disarm-calls zero (g ∷ gs) = ground arith
disarm-calls (suc n) (g ∷ gs) = omega (arith, disarm-calls n gs)

-- Only moves
abbrev pub moves_only : List Event → Bool
moves_only [] = true
moves_only (move n ∷ es) = moves_only es
moves_only (dismiss n ∷ es) = false

-- A guard and all that are moved from it run the callable exactly once if there are only moves, and
-- never twice.
pub run-calls :
    (gs : List Guard) (es : List Event)
    → (calls (run gs es) ≤ calls gs) × (moves_only es ≡ true → calls (run gs es) ≡ calls gs)
unfolding run step calls
run-calls gs [] = (omega arith, λ h. refl)
run-calls gs (move n ∷ es) = ground (
  arith,
  disarm-calls n gs,
  run-calls (record { dismissed = is_dismissed n gs } ∷ disarm n gs) es,
)
run-calls gs (dismiss n ∷ es) = ground (arith, disarm-calls n gs, run-calls (disarm n gs) es)

exception_moves-calls :
    (on_exception : Bool) (uncaught n : ℕ) (g : ExceptionGuard) (gs : List ExceptionGuard)
    → exception_calls on_exception uncaught (exception_moves n g gs)
      ≡ (if fires on_exception g uncaught then suc n else 0)
        + exception_calls on_exception uncaught gs
unfolding exception_moves exception_calls fires move_exception_guard
exception_moves-calls on_exception uncaught zero g gs = refl
exception_moves-calls on_exception uncaught (suc n) g gs =
    ground (arith, exception_moves-calls on_exception uncaught n g (g ∷ gs))

-- An ExceptionScopeGuard that is moved from is not disarmed: after `n` moves the callable runs `n` + 1
-- times when it should run once.
pub exception_guard_repeats :
    (on_exception : Bool) (uncaught n : ℕ) (g : ExceptionGuard)
    → fires on_exception g uncaught ≡ true
    → exception_calls on_exception uncaught (exception_moves n g []) ≡ suc n
unfolding exception_calls
exception_guard_repeats on_exception uncaught n g h =
    ground (arith, h, exception_moves-calls on_exception uncaught n g [])
