-- ===== src/Properties/Stack.antt =====
-- The stacks of ThreadProperties in src/_cmsis_rtos/_thread.cpp.
use weos.Common.{
  ℕ, ◌+◌, ◌-◌, ◌%◌, ◌^◌, ◌≡◌, ◌≢◌, ◌≤◌, ◌<◌, ◌⊎◌, inl, inr, arith, Bool, true, false, leb,
  Bool-cases, leb→le, leb→lt, ℕ_discrete, Result, ok, throws, system, not_enough_memory, bad_alloc,
}
use weos.Properties.{ThreadProperties, OsHeap, allocate, aligned_address, max_align}

-- The stack has been moved up to the next multiple of 8 and still ends where it ended.
abbrev pub Aligned : ThreadProperties → ThreadProperties → Type 0
Aligned p p' =
    (p'.stack_begin % 8 ≡ 0)
    × (p.stack_begin ≤ p'.stack_begin)
    × (p'.stack_begin < p.stack_begin + 8)
    × (p'.stack_begin + p'.stack_size ≡ p.stack_begin + p.stack_size)

abbrev offset : ℕ → ℕ
offset begin = (aligned_address begin + 2 ^ 32 - begin) % 2 ^ 32

offset-fits :
    (begin size : ℕ)
    → 0 < begin
    → begin + size < 2 ^ 32
    → offset begin ≤ size
    → (aligned_address begin ≡ begin + offset begin)
      × (aligned_address begin % 8 ≡ 0)
      × (offset begin < 8)
unfolding aligned_address
offset-fits begin size h b f = (omega (arith, h, b, f), omega arith, omega (arith, h, b, f))

offset-misses :
    (begin size a : ℕ)
    → 0 < begin
    → begin + size < 2 ^ 32
    → size < offset begin
    → begin ≤ a
    → a ≤ begin + size
    → a % 8 ≢ 0
unfolding aligned_address
offset-misses begin size a h b f l u e = omega (arith, h, b, f, l, u, e)

-- max_align of a stack that ends inside the address space aligns its start and keeps its end, or returns
-- a null pointer and changes nothing, for a stack in which no address is aligned.
pub max_align-Aligned :
    (p : ThreadProperties)
    → 0 < p.stack_begin
    → p.stack_begin + p.stack_size < 2 ^ 32
    → let r = max_align p in
      ((r.0 ≡ r.1.stack_begin) × (0 < r.0) × Aligned p r.1)
      ⊎ ((r.0 ≡ 0)
          × (r.1 ≡ p)
          × ((a : ℕ) → p.stack_begin ≤ a → a ≤ p.stack_begin + p.stack_size → a % 8 ≢ 0))
unfolding max_align
max_align-Aligned p h b = elim (Bool-cases (leb (offset p.stack_begin) p.stack_size)) [
  | inl e ↦
      let f = leb→le (offset p.stack_begin) p.stack_size e in
      let (q, m, n) = offset-fits p.stack_begin p.stack_size h b f in
      inl (
        ground (arith, e),
        ground (arith, e, q, h),
        (
          ground (arith, e, m),
          ground (arith, e, q),
          ground (arith, e, q, n),
          ground (arith, e, q, f),
        ),
      )
  | inr e ↦ inr (
    ground (arith, e),
    ground (arith, e),
    λ a l u.
        offset-misses p.stack_begin p.stack_size a h b
          (leb→lt (offset p.stack_begin) p.stack_size e) l u,
  )
]

-- What allocate may do.
pub data Allocates (os : OsHeap) (enabled : Bool) (default_size : ℕ) (h : os.Heap)
    (p : ThreadProperties) (r : Result ℕ) (h' : os.Heap) (p' : ThreadProperties) : Type 0 where
  given :
      p.stack_begin ≢ 0 → r ≡ ok 0 → p' ≡ p → h' ≡ h → Allocates os enabled default_size h p r h' p'
  refused :
      (enabled ≡ false) ⊎ ((p.stack_size ≡ 0) × (default_size ≡ 0))
      → r ≡ throws (system not_enough_memory)
      → p' ≡ p
      → h' ≡ h
      → Allocates os enabled default_size h p r h' p'
  exhausted : r ≡ throws bad_alloc → p' ≡ p → Allocates os enabled default_size h p r h' p'
  sized :
      p.stack_size ≢ 0
      → r ≡ ok p'.stack_begin
      → p'.stack_size ≡ p.stack_size
      → os.block h' p'.stack_begin ≡ p'.stack_size
      → Allocates os enabled default_size h p r h' p'
  unsized :
      p.stack_size ≡ 0
      → r ≡ ok p'.stack_begin
      → p'.stack_size ≡ default_size
      → default_size ≢ 0
      → os.block h' p'.stack_begin ≡ 0
      → Allocates os enabled default_size h p r h' p'

-- No stack is given, and allocation is enabled.
allocate-enabled :
    (os : OsHeap) (default_size : ℕ) (h : os.Heap) (p : ThreadProperties)
    → p.stack_begin ≡ 0
    → let r = allocate os true default_size h p in
      Allocates os true default_size h p r.0 r.1.0 r.1.1
unfolding allocate
allocate-enabled os default_size h p e = elim (ℕ_discrete (os.malloc h p.stack_size).0 0) [
  | yes m ↦ elim (ℕ_discrete p.stack_size 0) [
    | yes s ↦ elim (ℕ_discrete default_size 0) [
      | yes d ↦ Allocates.refused (inr (s, d)) (ground arith) (ground arith) (ground arith)
      | no d ↦ Allocates.exhausted (ground arith) (ground arith)
    ]
    | no s ↦ Allocates.exhausted (ground arith) (ground arith)
  ]
  | no m ↦
      let b = os.malloc_block h p.stack_size m in
      elim (ℕ_discrete p.stack_size 0) [
        | yes s ↦ elim (ℕ_discrete default_size 0) [
          | yes d ↦ Allocates.refused (inr (s, d)) (ground arith) (ground arith) (ground arith)
          | no d ↦ Allocates.unsized s (ground arith) (ground arith) d (ground (arith, b))
        ]
        | no s ↦ Allocates.sized s (ground arith) (ground arith) (ground (arith, b))
      ]
]

-- allocate keeps a stack that is given. Otherwise it throws, and changes nothing, if allocation is disabled
-- or no size is known, or if the heap is exhausted; or it takes a block of the requested size. If no size
-- was requested, it takes a block of no bytes, and records it as a stack of the default size.
pub allocate-Allocates :
    (os : OsHeap) (enabled : Bool) (default_size : ℕ) (h : os.Heap) (p : ThreadProperties)
    → let r = allocate os enabled default_size h p in
      Allocates os enabled default_size h p r.0 r.1.0 r.1.1
unfolding allocate
allocate-Allocates os enabled default_size h p = elim (ℕ_discrete p.stack_begin 0) [
  | no e ↦ Allocates.given e (ground arith) (ground arith) (ground arith)
  | yes e ↦ elim (Bool-cases enabled) [
    | inl b ↦ rw b (allocate-enabled os default_size h p e)
    | inr b ↦ Allocates.refused (inl b) (ground arith) (ground arith) (ground arith)
  ]
]
