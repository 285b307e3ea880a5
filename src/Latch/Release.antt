-- ===== src/Latch/Release.antt =====
-- Which calls of src/_cmsis_rtos/_latch.hpp release the threads that wait.
use weos.Common.{
  ℕ, suc, ◌%◌, ◌<◌, ◌≡◌, ◌≢◌, refl, ap, ◌∙◌, subst, List, [], ◌∷◌, Absent, length, arith, true,
  false, some, pos, ◌-ℤ◌,
}
use weos.Tq.{Node, priority_error, link_of, is_unlinked, is_notified, unlink}
use weos.Tq.Chain.{IsQueue, Chain, contains}
use weos.Tq.Link.{insert, insert_rest, enqueue-Enqueued}
use weos.Tq.Unlink.{erase, unlink-Left}
use weos.Tq.Notify.{woken, notify_all_lem}
use weos.Latch.{Latch, count_down_and_wait, count_down}

erase-insert_rest :
    (node : ℕ → Node) (p t : ℕ) (xs : List ℕ) → Absent t xs → erase t (insert_rest node p t xs) ≡ xs
unfolding erase insert_rest
erase-insert_rest node p t [] a = ground arith
erase-insert_rest node p t (x ∷ xs) (a, as') = ground (arith, erase-insert_rest node p t xs as')

erase-insert :
    (node : ℕ → Node) (p t : ℕ) (xs : List ℕ) → Absent t xs → erase t (insert node p t xs) ≡ xs
unfolding erase insert
erase-insert node p t [] a = ground arith
erase-insert node p t (x ∷ xs) (a, as') = ground (arith, erase-insert_rest node p t xs as')

length-insert_rest :
    (node : ℕ → Node) (p t : ℕ) (xs : List ℕ) → length (insert_rest node p t xs) ≡ suc (length xs)
unfolding insert_rest
length-insert_rest node p t [] = refl
length-insert_rest node p t (x ∷ xs) = ground (arith, length-insert_rest node p t xs)

length-insert :
    (node : ℕ → Node) (p t : ℕ) (xs : List ℕ) → length (insert node p t xs) ≡ suc (length xs)
unfolding insert
length-insert node p t [] = refl
length-insert node p t (x ∷ xs) = ap suc (length-insert_rest node p t xs)

contains-insert_rest :
    (node : ℕ → Node) (p t : ℕ) (xs : List ℕ) → contains t (insert_rest node p t xs) ≡ true
unfolding insert_rest
contains-insert_rest node p t [] = ground arith
contains-insert_rest node p t (x ∷ xs) = ground (arith, contains-insert_rest node p t xs)

contains-insert : (node : ℕ → Node) (p t : ℕ) (xs : List ℕ) → contains t (insert node p t xs) ≡ true
unfolding insert
contains-insert node p t [] = ground arith
contains-insert node p t (x ∷ xs) = ground (arith, contains-insert_rest node p t xs)

waiting-is_unlinked :
    (node : ℕ → Node) (a t : ℕ) (xs : List ℕ)
    → Chain node a xs
    → contains t xs ≡ true
    → is_unlinked (node t).v ≡ false
waiting-is_unlinked node a t [] c h = cc
waiting-is_unlinked node a t (x ∷ xs) (e, w, c) h =
    ground (arith, waiting-is_unlinked node (link_of (node x).v) t xs c)

-- A call of count_down that takes the counter to zero empties the queue and wakes every thread in it.
pub count_down-releases :
    (l : Latch) (xs : List ℕ) (n : ℕ)
    → IsQueue l.queue xs
    → l.count ≡ pos n
    → (l' : Latch) × (count_down (suc (length xs)) l (pos n) ≡ some l')
      × (l'.count ≡ pos 0)
      × IsQueue l'.queue []
      × ((y : ℕ) → l'.queue.node y ≡ woken xs l.queue.node y)
unfolding count_down ◌-ℤ◌
count_down-releases l xs n h e =
    let w = notify_all_lem l.queue xs h in
    (record { count = pos 0; queue = w.0 }, ground (arith, w.1), refl, w.2, w.3)

-- A call of count_down_and_wait that takes the counter to zero does not block, and wakes no thread:
-- all that waited for the counter still wait. The caller's node and priority satisfy the conditions of
-- enqueue-Enqueued.
pub count_down_and_wait-strands :
    (l : Latch) (xs : List ℕ) (t p : ℕ)
    → IsQueue l.queue xs
    → l.count ≡ pos 1
    → Absent t xs
    → 0 < t
    → t % 4 ≡ 0
    → p ≢ priority_error
    → (l' : Latch) × (count_down_and_wait (suc (suc (length xs))) l t p ≡ some (false, l'))
      × (l'.count ≡ pos 0)
      × IsQueue l'.queue xs
      × ((z : ℕ) → z ≢ t → (l'.queue.node z).tokens ≡ (l.queue.node z).tokens)
unfolding count_down_and_wait ◌-ℤ◌
count_down_and_wait-strands l xs t p h e a pos' aligned fine =
    let q = enqueue-Enqueued l.queue xs t p h a pos' aligned fine in
    let linked =
      waiting-is_unlinked q.after.node q.after.head t (insert l.queue.node p t xs) q.queue.chain
        (contains-insert l.queue.node p t xs) in
    let u = unlink-Left q.after (insert l.queue.node p t xs) t q.queue pos' linked in
    let fuel = ap suc (length-insert l.queue.node p t xs) in
    let runs =
      subst (λ f. unlink f q.after t ≡ some (is_notified (q.after.node t).v, u.after)) fuel
        u.runs in
    (
      record { count = pos 0; queue = u.after },
      ground (arith, q.runs, runs),
      refl,
      subst (IsQueue u.after) (erase-insert l.queue.node p t xs a) u.queue,
      λ z ne. (u.kept z).1 ∙ (q.others z ne).1,
    )
