-- ===== src/UniquePtr/Tests.antt =====
-- Two unique_ptrs, one of which deletes its pointer when the other moves to it.
use weos.Common.{◌+◌, ◌≡◌, arith, List, [], ◌∷◌}
use weos.UniquePtr.{
  call, reset, release, move_assign, release_other, swap, Call, give, take, move, exchange, run,
  destroy, given, IsFresh, nothing,
}
use weos.UniquePtr.Once.{run-destroyed}

abbrev calls : List Call
calls = give 8 ∷ exchange ∷ give 16 ∷ move ∷ take ∷ give 16 ∷ []

calls-IsFresh : IsFresh calls nothing
unfolding call reset release move_assign release_other swap
calls-IsFresh =
    (ground arith, ground arith, (ground arith, ground arith, (ground arith, ground arith, tt)))

run-destroyed_example :
    (destroy (run calls nothing)).deleted 16 + (destroy (run calls nothing)).handed 16
    ≡ given calls 16
run-destroyed_example = run-destroyed calls 16 (omega arith) calls-IsFresh
