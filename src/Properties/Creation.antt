-- ===== src/Properties/Creation.antt =====
-- What thread::do_create of src/_cmsis_rtos/_thread.cpp asks the kernel for.
use weos.Common.{
  ℕ, ◌+◌, ◌/◌, ◌%◌, ◌^◌, ◌≡◌, ◌≢◌, ◌≤◌, ◌<◌, ◌⊎◌, Result, ok, throws, system, not_enough_memory,
  invalid_argument, no_child_process,
}
use weos.Properties.{ThreadProperties, ThreadState}

-- What the kernel reads from the word.
pub unpacked_priority : ℕ → ℕ
unpacked_priority w = w % 2 ^ 8

pub unpacked_size : ℕ → ℕ
unpacked_size w = w / 2 ^ 8

-- The stack that starts at the next multiple of 8, and ends where the given one ends
abbrev pub AlignedTo : ThreadProperties → ℕ → ℕ → Type 0
AlignedTo p begin size =
    (begin % 8 ≡ 0)
    × (p.stack_begin ≤ begin)
    × (begin < p.stack_begin + 8)
    × (begin + size ≡ p.stack_begin + p.stack_size)

pub data Creates (minimum : ℕ) (create : ℕ → ℕ → ℕ) (p : ThreadProperties) (s : ThreadState)
    (r : Result (Unit {0})) (s' : ThreadState) : Type 0 where
  too_small :
      ((a : ℕ) → p.stack_begin ≤ a → a ≤ p.stack_begin + p.stack_size → a % 8 ≢ 0)
      → r ≡ throws (system not_enough_memory)
      → s' ≡ s
      → Creates minimum create p s r s'
  invalid_size :
      (begin size : ℕ)
      → AlignedTo p begin size
      → (size < minimum) ⊎ (2 ^ 24 ≤ size)
      → r ≡ throws (system invalid_argument)
      → s' ≡ s
      → Creates minimum create p s r s'
  -- The word `w` tells the kernel the priority and the size of the aligned stack.
  asked :
      (w : ℕ)
      → unpacked_priority w ≡ p.priority + 1
      → unpacked_size w ≡ s'.stack_size
      → AlignedTo p s'.stack_begin s'.stack_size
      → minimum ≤ s'.stack_size
      → s'.stack_size < 2 ^ 24
      → ((create s'.stack_begin w ≡ 0)
          × (r ≡ throws (system no_child_process))
          × (s'.reference_count ≡ s.reference_count))
        ⊎ ((create s'.stack_begin w ≡ s'.thread_id)
            × (r ≡ ok tt)
            × (s'.reference_count ≡ s.reference_count + 1))
      → Creates minimum create p s r s'
