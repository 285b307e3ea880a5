-- ===== src/Threads/Watermark.antt =====
-- How much of its stack a thread has used: the loop of thread::do_create that marks the stack, and
-- thread_info::get_used_stack, in src/_cmsis_rtos/_thread.cpp. The memory is a function from the addresses of words.
pub mod Used
use weos.Common.{
  ℕ, zero, suc, ◌+◌, ◌-◌, ◌/◌, ◌==◌, ltb, Bool, true, false, ◌&&◌, if◌then◌else◌, Option, none,
  some, moved,
}

-- STACK_WATERMARK
abbrev pub stack_watermark : ℕ
stack_watermark = 3797560997

-- m_initialStackBase, m_stackBegin and m_stackSize of the shared state
pub record Stack : Type 0 where
  pub base : ℕ
  pub begin : ℕ
  pub size : ℕ

abbrev pub end_address : Stack → ℕ
end_address s = s.begin + s.size

-- The loop of thread::do_create, for a number of words from an address on
pub fill : ℕ → ℕ → (ℕ → ℕ) → ℕ → ℕ
fill zero a memory = memory
fill (suc n) a memory = fill n (a + 4) (moved memory a stack_watermark)

-- thread::do_create: the whole stack
pub mark_stack : Stack → (ℕ → ℕ) → ℕ → ℕ
unfolding fill
mark_stack s memory = fill (s.size / 4) s.begin memory

-- thread_info::get_stack_size
pub get_stack_size : Stack → ℕ
get_stack_size s = s.begin + s.size - s.base

-- The loop of thread_info::get_used_stack
pub scan : ℕ → (ℕ → ℕ) → ℕ → ℕ → Option ℕ
scan zero memory last a = none
scan (suc fuel) memory last a =
    let rest = scan fuel memory last (a + 4) in
    if (memory a == stack_watermark) && ltb a last then rest else some a

-- thread_info::get_used_stack, which keeps its result in m_usedStack: the result, if the loop ends
pub get_used_stack : ℕ → Stack → (ℕ → ℕ) → Option ℕ → Option ℕ
unfolding scan
get_used_stack fuel s memory (some used) = some used
get_used_stack fuel s memory none = elim (scan fuel memory (end_address s) s.begin) [
  | none ↦ none
  | some a ↦ some (s.begin - s.base + (if ltb a (end_address s) then end_address s - a else 0))
]
