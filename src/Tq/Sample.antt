-- ===== src/Tq/Sample.antt =====
-- Sample data of the queue of src/_cmsis_rtos/_tq.cpp: the node at 8 enters the empty queue with priority 3
-- and is notified.
use weos.Common.{suc, length, ℕ, ◌≡◌, refl, [], List, arith, some}
use weos.Tq.{Queue, notify_all}
use weos.Tq.Chain.{IsQueue}
use weos.Tq.Link.{Enqueued, enqueue-Enqueued, insert}
use weos.Tq.Notify.{woken, notify_all_lem}

abbrev pub empty_queue : Queue
empty_queue = record { head = 0; node = λ a. record { v = 0; tokens = 0; priority = 0 } }

abbrev pub enqueued : Enqueued empty_queue [] 8 3
enqueued =
    enqueue-Enqueued empty_queue [] 8 3 (record { chain = refl; distinct = tt }) tt (omega arith)
      refl (omega arith)

abbrev pub queued : List ℕ
queued = insert empty_queue.node 3 8 []

abbrev pub told :
    (q : Queue) × (notify_all (suc (length queued)) enqueued.after ≡ some q)
    × IsQueue q []
    × ((y : ℕ) → q.node y ≡ woken queued enqueued.after.node y)
told = notify_all_lem enqueued.after queued enqueued.queue
