-- ===== src/Tq/Tests.antt =====
-- A queue of two threads, runs of the operations on it, and instances of the theorems.
use weos.Common.{ℕ, ◌≡◌, refl, [], ◌∷◌, arith, ◌==◌, if◌then◌else◌, some}
use weos.Tq.{Node, Queue, notify_all, link, link_loop, enqueue}
use weos.Tq.Chain.{IsQueue}
use weos.Tq.Notify.{notify_all_lem, woken}
use weos.Tq.Link.{Enqueued, enqueue-Enqueued}
use weos.Tq.Unlink.{Left, unlink-Left}

abbrev at_four : Node
at_four = record { v = 8; tokens = 0; priority = 3 }

abbrev at_eight : Node
at_eight = record { v = 0; tokens = 0; priority = 5 }

abbrev elsewhere : Node
elsewhere = record { v = 0; tokens = 0; priority = 0 }

-- The thread at 4 has come first, then the one at 8, of a higher priority.
abbrev pub two_waiters : Queue
two_waiters = record {
  head = 4;
  node = λ a. if a == 4 then at_four else if a == 8 then at_eight else elsewhere;
}

pub two_waiters-IsQueue : IsQueue two_waiters (4 ∷ 8 ∷ [])
two_waiters-IsQueue = record { chain = omega arith; distinct = omega arith }

-- A third thread of the highest priority is put behind the one at 4.
enqueue_run :
    (q : Queue) × (enqueue 9 two_waiters 12 7 ≡ some (0, q))
    × (q.head ≡ 4)
    × ((q.node 4).v ≡ 12)
    × ((q.node 12).v ≡ 8)
unfolding enqueue link link_loop
enqueue_run = (_, refl, refl, refl, refl)

notify_all_lem_example :
    (q : Queue) × (notify_all 3 two_waiters ≡ some q)
    × IsQueue q []
    × ((y : ℕ) → q.node y ≡ woken (4 ∷ 8 ∷ []) two_waiters.node y)
notify_all_lem_example = notify_all_lem two_waiters (4 ∷ 8 ∷ []) two_waiters-IsQueue

enqueue-Enqueued_example : Enqueued two_waiters (4 ∷ 8 ∷ []) 12 4
enqueue-Enqueued_example =
    enqueue-Enqueued two_waiters (4 ∷ 8 ∷ []) 12 4 two_waiters-IsQueue (omega arith) (omega arith)
      (omega arith) (omega arith)

unlink-Left_example : Left two_waiters (4 ∷ 8 ∷ []) 8
unlink-Left_example = unlink-Left two_waiters (4 ∷ 8 ∷ []) 8 two_waiters-IsQueue (omega arith) refl
