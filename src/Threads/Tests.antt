-- ===== src/Threads/Tests.antt =====
-- A stack of four words in src/_cmsis_rtos/_thread.cpp.
use weos.Common.{ℕ, ◌<◌, ◌≡◌, arith, ltb, if◌then◌else◌, inr, none, some}
use weos.Threads.Watermark.{Stack, mark_stack, get_used_stack}
use weos.Threads.Watermark.Used.{get_used_stack-mark_stack}

-- A word in front of the stack belongs to the thread's data.
abbrev four_words : Stack
four_words = record { base = 100; begin = 104; size = 16 }

-- The thread has written the last two words.
abbrev written : ℕ → ℕ
written a = if ltb a 112 then mark_stack four_words (λ b. 0) a else 7

written_below : (a : ℕ) → a < 112 → written a ≡ mark_stack four_words (λ b. 0) a
written_below a h = ground (arith, h)

get_used_stack-mark_stack_example : get_used_stack 3 four_words written none ≡ some 12
get_used_stack-mark_stack_example =
    get_used_stack-mark_stack four_words (λ b. 0) written 2 3 (omega arith) (omega arith)
      written_below (inr (λ e. ground (arith, e)))
