-- ===== src/Latch.antt =====
-- src/_cmsis_rtos/_latch.hpp: a counter, and the queue of the threads that wait for it to reach zero.
-- A call that blocks is modelled up to its wait; the thread's node then stays in the queue.
pub mod Release
pub mod Tests
use weos.Common.{
  ℕ, Bool, true, false, Option, some, none, ℤ, pos, ◌-ℤ◌, ltb_ℤ, if◌then◌else◌, eqb_ℤ,
}
use weos.Tq.{Queue, enqueue, unlink, notify_all}

pub record Latch : Type 0 where
  pub count : ℤ
  pub queue : Queue

infixl 5 ◌>>=◌
abbrev ◌>>=◌ : {A B : Type 0} → Option A → (A → Option B) → Option B
none >>= f = none
some a >>= f = f a

-- count_down_and_wait by the thread whose node is `t`, of priority `p`: whether it blocks, and the
-- latch. A thread that does not block destroys its node.
pub count_down_and_wait : ℕ → Latch → ℕ → ℕ → Option (Bool × Latch)
count_down_and_wait fuel l t p = do
  (_, q) ← enqueue fuel l.queue t p
  let count = l.count -ℤ pos 1
  (_, left) ← unlink fuel q t
  if ltb_ℤ (pos 0) count
      then some (true, record { count = count; queue = q })
      else some (false, record { count = count; queue = left })

-- count_down, whose compare-exchange succeeds.
pub count_down : ℕ → Latch → ℤ → Option Latch
count_down fuel l n = do
  let d = l.count -ℤ n
  woken ← notify_all fuel l.queue
  if eqb_ℤ d (pos 0)
      then some (record { count = d; queue = woken })
      else some (record l { count = d })

-- is_ready
pub is_ready : Latch → Bool
is_ready l = eqb_ℤ l.count (pos 0)

-- wait by the thread whose node is `t`.
pub wait : ℕ → Latch → ℕ → ℕ → Option (Bool × Latch)
wait fuel l t p = do
  (_, q) ← enqueue fuel l.queue t p
  (_, left) ← unlink fuel q t
  if ltb_ℤ (pos 0) l.count
      then some (true, record l { queue = q })
      else some (false, record l { queue = left })
