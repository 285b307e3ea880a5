-- ===== src/Tq/Notify.antt =====
-- weos_tq_notify of src/_cmsis_rtos/_tq.cpp on the list of waiting threads.
use weos.Common.{
  ℕ, zero, suc, ◌<◌, ◌≡◌, ◌≢◌, refl, ◌∙◌, List, [], ◌∷◌, Absent, Distinct, length, arith,
  if◌then◌else◌, false, some,
}
use weos.Tq.{Node, Queue, update, put, link_of, notified, notify_one, notify_all, notify_loop}
use weos.Tq.Chain.{IsQueue, Chain, Chain-update, contains}

-- notify_one takes the first thread out of the queue, and marks and wakes that one alone.
pub notify_one_first :
    (q : Queue) (x : ℕ) (xs : List ℕ)
    → IsQueue q (x ∷ xs)
    → IsQueue (notify_one q) xs
      × ((notify_one q).node x ≡ notified (q.node x))
      × ((y : ℕ) → y ≢ x → (notify_one q).node y ≡ q.node y)
unfolding notify_one
notify_one_first q x xs h = (
  record {
    chain = ground (
      arith,
      Chain-update q.node x (notified (q.node x)) (link_of (q.node x).v) xs h.distinct.0 h.chain.2,
    );
    distinct = h.distinct.1;
  },
  ground arith,
  λ y d. ground arith,
)

-- In an empty queue it changes nothing.
pub notify_one_empty : (q : Queue) → IsQueue q [] → notify_one q ≡ q
unfolding notify_one
notify_one_empty q h = ground arith

pub contains-Absent : (y : ℕ) (xs : List ℕ) → Absent y xs → contains y xs ≡ false
contains-Absent y [] h = refl
contains-Absent y (x ∷ xs) h = ground (arith, contains-Absent y xs h.1)

-- What becomes of the nodes when the threads of a list are notified.
abbrev pub woken : List ℕ → (ℕ → Node) → ℕ → Node
woken xs node y = if contains y xs then notified (node y) else node y

record Woken (fuel : ℕ) (q : Queue) (i : ℕ) (xs : List ℕ) : Type 0 where
  after : Queue
  runs : notify_loop fuel q i ≡ some after
  head : after.head ≡ q.head
  node : (y : ℕ) → after.node y ≡ woken xs q.node y

woken-cons :
    (x : ℕ) (xs : List ℕ) (node : ℕ → Node) (y : ℕ)
    → Absent x xs
    → woken xs (update node x (notified (node x))) y ≡ woken (x ∷ xs) node y
woken-cons x xs node y d = ground (arith, contains-Absent x xs d)

notify_loop-Woken :
    (fuel : ℕ) (q : Queue) (i : ℕ) (xs : List ℕ)
    → Chain q.node i xs
    → Distinct xs
    → length xs < fuel
    → Woken fuel q i xs
unfolding notify_loop
notify_loop-Woken zero q i xs c d h = absurd (omega arith)
notify_loop-Woken (suc fuel) q i [] c d h = record {
  after = q;
  runs = ground arith;
  head = refl;
  node = λ y. refl;
}
notify_loop-Woken (suc fuel) q i (x ∷ xs) (e, w, c) (d, ds) h =
    let n = notified (q.node x) in
    let next = link_of (q.node x).v in
    let rest =
      notify_loop-Woken fuel (put q x n) next xs (Chain-update q.node x n next xs d c) ds
        (omega arith) in
    record {
      after = rest.after;
      runs = ground (arith, rest.runs);
      head = rest.head;
      node = λ y. rest.node y ∙ woken-cons x xs q.node y d;
    }

-- notify_all empties the queue, and marks and wakes each waiting thread once and no other.
pub notify_all_lem :
    (q : Queue) (xs : List ℕ)
    → IsQueue q xs
    → (q' : Queue) × (notify_all (suc (length xs)) q ≡ some q')
      × IsQueue q' []
      × ((y : ℕ) → q'.node y ≡ woken xs q.node y)
unfolding notify_all
notify_all_lem q [] h = (q, ground arith, record { chain = h.chain; distinct = tt }, λ y. refl)
notify_all_lem q (x ∷ xs) h =
    let w =
      notify_loop-Woken (suc (suc (length xs))) (record q { head = 0 }) q.head (x ∷ xs) h.chain
        h.distinct (omega arith) in
    (
      w.after,
      ground (arith, w.runs, h.chain.0, h.chain.1.0),
      record { chain = w.head; distinct = tt },
      w.node,
    )
