-- ===== src/Pool.antt =====
-- src/memorypool.hpp: the free list, memory_pool on top of it, and object_pool of src/objectpool.hpp. An
-- address is a number, 0 the null pointer, and the memory maps a chunk to the pointer that it stores.
pub mod Layout
pub mod Allocation
pub mod Tests
use weos.Common.{
  ℕ, zero, suc, ◌*◌, ◌+◌, ◌-◌, Bool, true, false, ltb, ◌==◌, if◌then◌else◌, Result, ok, throws,
}

abbrev pub Memory : Type 0
Memory = ℕ → ℕ

-- `next(p) = q`
abbrev pub set_next : Memory → ℕ → ℕ → Memory
set_next mem p q = λ a. if a == p then q else mem a

-- FreeList, with the memory that it is threaded through
pub record FreeList : Type 0 where
  pub first : ℕ
  pub memory : Memory

-- The loop of the constructor; `iter` and `prev` are its variables.
unfoldable pub build_loop : ℕ → ℕ → ℕ → ℕ → ℕ → Memory → Memory
build_loop zero chunk_size first iter prev mem = mem
build_loop (suc fuel) chunk_size first iter prev mem =
    let here = iter - chunk_size in
    let rest = build_loop fuel chunk_size first here here (set_next mem here prev) in
    if ltb first iter then rest else mem

-- FreeList::FreeList
pub build : Memory → ℕ → ℕ → ℕ → FreeList
unfolding build_loop
build mem memory chunk_size num_elements = record {
  first = memory;
  memory =
      build_loop (suc num_elements) chunk_size memory (memory + chunk_size * num_elements) 0 mem;
}

pub empty : FreeList → Bool
empty l = l.first == 0

-- FreeList::try_allocate: the chunk or a null pointer
pub try_allocate : FreeList → ℕ × FreeList
try_allocate l = if l.first == 0 then (0, l) else (l.first, record l { first = l.memory l.first })

-- FreeList::free
pub free : FreeList → ℕ → FreeList
free l chunk = record { first = chunk; memory = set_next l.memory chunk l.first }

-- object_pool::try_construct, for an element's constructor that returns or throws. The unique_ptr gives
-- the chunk back if it throws.
pub try_construct : FreeList → Result (Unit {0}) → Result ℕ × FreeList
unfolding try_allocate free
try_construct l constructor =
    let (mem, l') = try_allocate l in
    if mem == 0
    then (ok 0, l')
    else (elim constructor [ ok _ ↦ (ok mem, l') | throws e ↦ (throws e, free l' mem) ])
