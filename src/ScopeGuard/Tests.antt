-- ===== src/ScopeGuard/Tests.antt =====
-- The theorems on scope guards, applied to concrete guards.
use weos.Common.{◌≤◌, ◌≡◌, true, List, [], ◌∷◌}
use weos.ScopeGuard.{Event, move, armed, run, calls}
use weos.ScopeGuard.Once.{moves_only, run-calls}

abbrev two_moves : List Event
two_moves = move 0 ∷ move 0 ∷ []

run-calls_example :
    (calls (run (armed ∷ []) two_moves) ≤ calls (armed ∷ []))
    × (moves_only two_moves ≡ true → calls (run (armed ∷ []) two_moves) ≡ calls (armed ∷ []))
run-calls_example = run-calls (armed ∷ []) two_moves
