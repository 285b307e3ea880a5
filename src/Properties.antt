-- ===== src/Properties.antt =====
-- ThreadProperties and thread::do_create of src/_cmsis_rtos/_thread.cpp: how a thread gets its stack. Sizes
-- and addresses are words of 32 bits, and the strictest alignment is 8, that of long double.
pub mod Stack
pub mod Creation
pub mod Tests
use weos.Common.{
  ℕ, ◌+◌, ◌-◌, ◌*◌, ◌/◌, ◌%◌, ◌^◌, ◌≡◌, ◌≢◌, Bool, true, false, not, ◌||◌, ltb, leb, ◌==◌,
  if◌then◌else◌, Result, ok, throws, system, not_enough_memory, invalid_argument, no_child_process,
  bad_alloc,
}

-- `priority` is counted from osPriorityIdle. The name is passed on only.
pub record ThreadProperties : Type 0 where
  pub priority : ℕ
  pub initial_stack_base : ℕ
  pub stack_begin : ℕ
  pub stack_size : ℕ

-- The heap behind std::malloc, with the size of the block at an address.
pub record OsHeap : Type 1 where
  pub Heap : Type 0
  pub malloc : Heap → ℕ → ℕ × Heap
  pub block : Heap → ℕ → ℕ
  pub malloc_block :
      (h : Heap) (size : ℕ)
      → (malloc h size).0 ≢ 0
      → block (malloc h size).1 (malloc h size).0 ≡ size

-- allocate, with g_default_stack_size and g_stack_allocation_enabled: the stack that the deleter owns.
pub allocate :
    (os : OsHeap) → Bool → ℕ → os.Heap → ThreadProperties → Result ℕ × (os.Heap × ThreadProperties)
allocate os enabled default_size h p =
    let size = if p.stack_size == 0 then default_size else p.stack_size in
    let (memory, h') = os.malloc h p.stack_size in
    if not (p.stack_begin == 0)
    then (ok 0, (h, p))
    else if not enabled || size == 0
    then (throws (system not_enough_memory), (h, p))
    else if memory == 0
    then (throws bad_alloc, (h', p))
    else (
      ok memory,
      (h', record p { stack_begin = memory; stack_size = size; initial_stack_base = memory }),
    )

-- (address + 7) & -8
pub aligned_address : ℕ → ℕ
aligned_address address = (address + 7) % 2 ^ 32 / 8 * 8

-- max_align: the new start of the stack, or a null pointer.
pub max_align : ThreadProperties → ℕ × ThreadProperties
unfolding aligned_address
max_align p =
    let aligned = aligned_address p.stack_begin in
    let diff = (aligned + 2 ^ 32 - p.stack_begin) % 2 ^ 32 in
    if leb diff p.stack_size
    then (aligned, record p { stack_begin = aligned; stack_size = p.stack_size - diff })
    else (0, p)

-- offset_by
pub offset_by : ThreadProperties → ℕ → ThreadProperties
offset_by p size = record p {
  stack_begin = (p.stack_begin + size) % 2 ^ 32;
  stack_size = (p.stack_size + 2 ^ 32 - size) % 2 ^ 32;
}

-- The fields of SharedThreadStateBase that do_create sets.
pub record ThreadState : Type 0 where
  pub stack_begin : ℕ
  pub stack_size : ℕ
  pub thread_id : ℕ
  pub reference_count : ℕ

-- uint32_t(priority - osPriorityIdle + 1) | (stack_size << 8), for a priority below 255.
pub packed : ℕ → ℕ → ℕ
packed priority stack_size = priority + 1 + stack_size * 2 ^ 8 % 2 ^ 32

-- thread::do_create, with minimum_custom_stack_size; `create` is the kernel's creation of a task from a
-- stack and the packed word, which gives the task or a null pointer.
pub do_create :
    ℕ
    → (ℕ → ℕ → ℕ)
    → ThreadProperties
    → ThreadState
    → Result (Unit {0}) × (ThreadProperties × ThreadState)
unfolding max_align packed
do_create minimum create p s =
    let (begin, p') = max_align p in
    let placed : ThreadState = record s {
      stack_begin = p'.stack_begin;
      stack_size = p'.stack_size;
    } in
    let task = create p'.stack_begin (packed p'.priority p'.stack_size) in
    if begin == 0
    then (throws (system not_enough_memory), (p', s))
    else if ltb p'.stack_size minimum || leb (2 ^ 24) p'.stack_size
    then (throws (system invalid_argument), (p', s))
    else if not (task == 0)
    then (ok tt, (p', record placed { thread_id = task; reference_count = s.reference_count + 1 }))
    else (throws (system no_child_process), (p', placed))
