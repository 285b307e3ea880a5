-- ===== src/Pool/Tests.antt =====
-- The theorems on the pools, applied to a pool of three chunks of 8 bytes at the address 100.
use weos.Common.{◌≡◌, refl, arith, [], ◌∷◌}
use weos.Pool.{FreeList, build, build_loop, try_allocate}
use weos.Pool.Layout.{chunks}
use weos.Pool.Allocation.{PoolStep, PoolRun, Served, try_allocate-Served}

abbrev pool : FreeList
pool = build (λ a. 0) 100 8 3

first_chunk : (try_allocate pool).0 ≡ 100
unfolding build build_loop try_allocate
first_chunk = refl

-- One chunk is handed out.
one_out : PoolRun pool [] (try_allocate pool).1 ((try_allocate pool).0 ∷ [])
one_out = PoolRun.next (PoolStep.allocates pool [] (ground (arith, first_chunk))) (PoolRun.nil _ _)

try_allocate-Served_example :
    Served (chunks 8 100 3) ((try_allocate pool).0 ∷ []) (try_allocate (try_allocate pool).1).0
try_allocate-Served_example =
    try_allocate-Served (λ a. 0) 100 8 3 (omega arith) (omega arith) (omega arith) one_out
