-- ===== src/ScopeGuard.antt =====
-- src/scopeguard.hpp: the guards that stem from one scope guard by moves. The callable of a guard runs in
-- the destructor.
pub mod Once
pub mod Tests
use weos.Common.{ℕ, zero, suc, ◌+◌, ltb, Bool, true, false, not, List, [], ◌∷◌, if◌then◌else◌}

-- ScopeGuard: m_dismissed
pub record Guard : Type 0 where
  pub dismissed : Bool

-- What happens to one of the guards, which are numbered from the newest one.
pub data Event : Type 0 where
  move : ℕ → Event
  dismiss : ℕ → Event

-- ScopeGuard::ScopeGuard
abbrev pub armed : Guard
armed = record { dismissed = false }

-- `other.m_dismissed = true`, or dismiss(), on the guard with the given number
pub disarm : ℕ → List Guard → List Guard
disarm n [] = []
disarm zero (g ∷ gs) = record { dismissed = true } ∷ gs
disarm (suc n) (g ∷ gs) = g ∷ disarm n gs

-- m_dismissed of the guard with the given number; there is no such guard without one.
pub is_dismissed : ℕ → List Guard → Bool
is_dismissed n [] = true
is_dismissed zero (g ∷ gs) = g.dismissed
is_dismissed (suc n) (g ∷ gs) = is_dismissed n gs

-- A move constructs the newest guard.
pub step : List Guard → Event → List Guard
unfolding disarm is_dismissed
step gs (move n) = record { dismissed = is_dismissed n gs } ∷ disarm n gs
step gs (dismiss n) = disarm n gs

pub run : List Guard → List Event → List Guard
unfolding step
run gs [] = gs
run gs (e ∷ es) = run (step gs e) es

-- ~ScopeGuard of all guards: how often the callable runs
pub calls : List Guard → ℕ
calls [] = 0
calls (g ∷ gs) = (if g.dismissed then 0 else 1) + calls gs

-- ExceptionScopeGuard: m_numExceptions
pub record ExceptionGuard : Type 0 where
  pub num_exceptions : ℕ

-- ExceptionScopeGuard::ExceptionScopeGuard(ExceptionScopeGuard&&): the new guard, and the one moved from
pub move_exception_guard : ExceptionGuard → ExceptionGuard × ExceptionGuard
move_exception_guard g = (record { num_exceptions = g.num_exceptions }, g)

-- ~ExceptionScopeGuard, with the number of uncaught exceptions at that time: does the callable run?
pub fires : Bool → ExceptionGuard → ℕ → Bool
fires on_exception g uncaught =
    if on_exception then ltb g.num_exceptions uncaught else not (ltb g.num_exceptions uncaught)

-- The guards after `n` moves, each from the newest one
pub exception_moves : ℕ → ExceptionGuard → List ExceptionGuard → List ExceptionGuard
unfolding move_exception_guard
exception_moves zero g gs = g ∷ gs
exception_moves (suc n) g gs =
    let (newest, old) = move_exception_guard g in exception_moves n newest (old ∷ gs)

-- ~ExceptionScopeGuard of all guards: how often the callable runs
pub exception_calls : Bool → ℕ → List ExceptionGuard → ℕ
unfolding fires
exception_calls on_exception uncaught [] = 0
exception_calls on_exception uncaught (g ∷ gs) =
    (if fires on_exception g uncaught then 1 else 0) + exception_calls on_exception uncaught gs
