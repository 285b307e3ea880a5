-- ===== src/Tq/Order.antt =====
-- The order in which weos_tq_link of src/_cmsis_rtos/_tq.cpp keeps the waiting threads.
use weos.Common.{
  ℕ, suc, ◌+◌, ◌%◌, ◌<◌, ◌≤◌, ◌≡◌, ◌≢◌, sym, subst, List, [], ◌∷◌, Absent, All, length, arith, some,
  Bool-cases, inl, inr, leb, leb→le, leb→lt,
}
use weos.Tq.{Node, Queue, enqueue, priority_error, notify_one}
use weos.Tq.Chain.{IsQueue}
use weos.Tq.Link.{insert, insert_rest, enqueue-Enqueued}
use weos.Tq.Notify.{notify_one_first}

-- Priorities fall along the list, or stay.
abbrev pub IsSorted : (ℕ → Node) → List ℕ → Type 0
IsSorted node [] = Unit
IsSorted node (x ∷ xs) = All (λ y. (node y).priority ≤ (node x).priority) xs × IsSorted node xs

-- All of a list is below what a bound of it is below.
All-below :
    (node : ℕ → Node) (m x : ℕ) (xs : List ℕ)
    → All (λ y. (node y).priority ≤ x) xs
    → x ≤ m
    → All (λ y. (node y).priority ≤ m) xs
All-below node m x [] s h = tt
All-below node m x (y ∷ ys) (s, ss) h = (omega arith, All-below node m x ys ss h)

module _ (t : ℕ) (node node' : ℕ → Node)
    (same : (z : ℕ) → z ≢ t → (node' z).priority ≡ (node z).priority) where
  All-transfer :
      (m : ℕ) (xs : List ℕ)
      → Absent t xs
      → All (λ y. (node y).priority ≤ m) xs
      → All (λ y. (node' y).priority ≤ m) xs
  All-transfer m [] a s = tt
  All-transfer m (x ∷ xs) (a, as') (s, ss) = (omega (arith, same x a), All-transfer m xs as' ss)

  IsSorted-transfer : (xs : List ℕ) → Absent t xs → IsSorted node xs → IsSorted node' xs
  IsSorted-transfer [] a s = tt
  IsSorted-transfer (x ∷ xs) (a, as') (s, ss) = (
    subst (λ m. All (λ y. (node' y).priority ≤ m) xs) (sym (same x a)) (All-transfer _ xs as' s),
    IsSorted-transfer xs as' ss,
  )

  All-insert_rest :
      (p m : ℕ) (xs : List ℕ)
      → Absent t xs
      → (node' t).priority ≤ m
      → All (λ y. (node y).priority ≤ m) xs
      → All (λ y. (node' y).priority ≤ m) (insert_rest node p t xs)
  unfolding insert_rest
  All-insert_rest p m [] a h s = (h, tt)
  All-insert_rest p m (y ∷ ys) (a, as') h (s, ss) =
      ground (arith, same y a, All-insert_rest p m ys as' h ss, All-transfer m ys as' ss)

  IsSorted-insert_rest :
      (p : ℕ) (xs : List ℕ)
      → Absent t xs
      → (node' t).priority ≡ p
      → IsSorted node xs
      → IsSorted node' (insert_rest node p t xs)
  unfolding insert_rest
  IsSorted-insert_rest p [] a e s = (tt, tt)
  IsSorted-insert_rest p (y ∷ ys) (a, as') e (s, ss) = elim (Bool-cases (leb p (node y).priority)) [
    | inl later ↦
        rw (later, insert_rest)
          (
            All-insert_rest p _ ys as' (omega (arith, same y a, leb→le p (node y).priority later))
                (subst (λ m. All (λ z. (node z).priority ≤ m) ys) (sym (same y a)) s),
            IsSorted-insert_rest p ys as' e ss,
          )
    | inr now ↦
        let below : (node y).priority ≤ (node' t).priority =
          omega (arith, leb→lt p (node y).priority now) in
        rw (now, insert_rest)
          (
            (omega (arith, same y a), All-transfer _ ys as' (All-below node _ _ ys s below)),
            IsSorted-transfer (y ∷ ys) (a, as') (s, ss),
          )
  ]

-- Behind the first thread, whose priority is never compared, the waiting threads stay sorted by
-- priority when a thread is put into the queue, under the conditions of enqueue-Enqueued.
pub enqueue-IsSorted :
    (q : Queue) (x : ℕ) (xs : List ℕ) (t p : ℕ)
    → IsQueue q (x ∷ xs)
    → Absent t (x ∷ xs)
    → 0 < t
    → t % 4 ≡ 0
    → p ≢ priority_error
    → IsSorted q.node xs
    → (q' : Queue) × (enqueue (suc (suc (suc (length xs)))) q t p ≡ some (0, q'))
      × IsQueue q' (x ∷ insert_rest q.node p t xs)
      × IsSorted q'.node (insert_rest q.node p t xs)
unfolding insert
enqueue-IsSorted q x xs t p h a pos aligned fine s =
    let e = enqueue-Enqueued q (x ∷ xs) t p h a pos aligned fine in
    (
      e.after,
      e.runs,
      e.queue,
      IsSorted-insert_rest t q.node e.after.node (λ z ne. (e.others z ne).0) p xs a.1 e.priority s,
    )

-- A thread of a higher priority than all that wait is put behind the first one, and the next
-- notification goes to that one, under the conditions of enqueue-Enqueued.
pub first_waiter_overtakes :
    (q : Queue) (x : ℕ) (xs : List ℕ) (t p : ℕ)
    → IsQueue q (x ∷ xs)
    → Absent t (x ∷ xs)
    → 0 < t
    → t % 4 ≡ 0
    → p ≢ priority_error
    → All (λ y. (q.node y).priority < p) (x ∷ xs)
    → (q' : Queue) × (enqueue (suc (suc (suc (length xs)))) q t p ≡ some (0, q'))
      × (((notify_one q').node x).tokens ≡ (q.node x).tokens + 1)
      × (((notify_one q').node t).tokens ≡ 0)
      × IsQueue (notify_one q') (insert_rest q.node p t xs)
unfolding insert
first_waiter_overtakes q x xs t p h a pos aligned fine high =
    let e = enqueue-Enqueued q (x ∷ xs) t p h a pos aligned fine in
    let n = notify_one_first e.after x (insert_rest q.node p t xs) e.queue in
    (
      e.after,
      e.runs,
      ground (arith, n.1, (e.others x a.0).1),
      ground (arith, n.2 t (λ k. a.0 (sym k)), e.tokens),
      n.0,
    )
