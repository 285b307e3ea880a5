-- ===== src/Threads.antt =====
-- The list of the shared states of all threads in src/_cmsis_rtos/_thread.cpp, linked through m_next. The functions
-- run behind supervisor calls, one at a time.
pub mod Chain
pub mod Observe
pub mod Handles
pub mod Watermark
mod Tests
use weos.Common.{ℕ, zero, suc, ◌==◌, if◌then◌else◌, Option, none, some}

-- g_sharedThreadStates, and m_next by the address of a state; the address 0 is the null pointer.
pub record States : Type 0 where
  pub head : ℕ
  pub next : ℕ → ℕ

abbrev pub put : States → ℕ → ℕ → States
put q s n = record q { next = λ u. if s == u then n else q.next u }

-- The end of weos_createTask: the new state becomes the first one.
pub link : States → ℕ → States
link q s = record (put q s q.head) { head = s }

-- The loop of weos_unlinkSharedState
pub unlink_loop : ℕ → States → ℕ → ℕ → Option States
unlink_loop zero q s i = none
unlink_loop (suc fuel) q s i =
    let go_on = unlink_loop fuel q s (q.next i) in
    if i == 0 then some q else if q.next i == s then some (put q i (q.next s)) else go_on

-- weos_unlinkSharedState
pub unlink : ℕ → States → ℕ → Option States
unfolding unlink_loop
unlink fuel q s =
    let loop = unlink_loop fuel q s q.head in
    if q.head == s then some (record q { head = q.next s }) else loop
