-- ===== src/Tq/Contract.antt =====
-- The queue of src/_cmsis_rtos/_tq.cpp keeps the contract with its clients.
use weos.Common.{
  ℕ, suc, ◌%◌, ◌<◌, ◌≤◌, ◌≡◌, ◌≢◌, inl, inr, refl, sym, ◌∙◌, subst, List, [], ◌∷◌, Absent, length,
  arith, ◌==◌, Bool, true, ◌||◌, some, Bool-cases,
}
use weos.WaitQueue.{WaitQueue}
use weos.Tq.{Node, Queue, link_of, enqueue, unlink, notify_all, priority_error, is_unlinked, put}
use weos.Tq.Chain.{IsQueue, Chain, contains}
use weos.Tq.Link.{insert, insert_rest, enqueue-Enqueued}
use weos.Tq.Unlink.{erase, unlink_again, unlink-Left}
use weos.Tq.Notify.{notify_all_lem}

-- The links of a queue tell which threads wait in it.
pub Chain-unique :
    (node : ℕ → Node) (a : ℕ) (xs ys : List ℕ) → Chain node a xs → Chain node a ys → xs ≡ ys
Chain-unique node a [] [] c d = refl
Chain-unique node a [] (y ∷ ys) c d = ground arith
Chain-unique node a (x ∷ xs) [] c d = ground arith
Chain-unique node a (x ∷ xs) (y ∷ ys) (e, w, c) (e', w', d) =
    let same : x ≡ y = sym e ∙ e' in
    let rest =
      Chain-unique node (link_of (node x).v) xs ys c
        (subst (λ z. Chain node (link_of (node z).v) ys) (sym same) d) in
    ground (arith, rest)

contains-insert_rest :
    (node : ℕ → Node) (p t u : ℕ) (xs : List ℕ)
    → contains u (insert_rest node p t xs) ≡ ((t == u) || contains u xs)
unfolding insert_rest
contains-insert_rest node p t u [] = refl
contains-insert_rest node p t u (x ∷ xs) = ground (arith, contains-insert_rest node p t u xs)

-- Exactly the new thread and those that waited before wait in the queue.
contains-insert :
    (node : ℕ → Node) (p t u : ℕ) (xs : List ℕ)
    → contains u (insert node p t xs) ≡ ((t == u) || contains u xs)
unfolding insert
contains-insert node p t u [] = refl
contains-insert node p t u (x ∷ xs) = ground (arith, contains-insert_rest node p t u xs)

contains-erase : (t u : ℕ) (xs : List ℕ) → t ≢ u → contains u (erase t xs) ≡ contains u xs
unfolding erase
contains-erase t u [] d = refl
contains-erase t u (x ∷ xs) d = ground (arith, contains-erase t u xs d)

Chain-same :
    (node node' : ℕ → Node) (a : ℕ) (xs : List ℕ)
    → ((z : ℕ) → (node' z).v ≡ (node z).v)
    → Chain node a xs
    → Chain node' a xs
Chain-same node node' a [] h c = c
Chain-same node node' a (x ∷ xs) h (e, (pos, aligned, clear), c) =
    let rest = Chain-same node node' (link_of (node x).v) xs h c in
    (e, (pos, aligned, rw (h x) clear), rw (h x) rest)

-- The thread with the node `t` waits for a notification.
abbrev pub Waits : Queue → ℕ → Type 0
Waits q t = (xs : List ℕ) × IsQueue q xs × (contains t xs ≡ true)

-- _t::wait has taken a token of the semaphore of the node.
abbrev pub taken : Queue → ℕ → ℕ → Queue
taken q t n = put q t (record (q.node t) { tokens = n })

-- The operations as relations: the constructor at an aligned address that is not in the queue, the
-- destructor, a wait that gets through, and notify_all.
abbrev pub Enqueues : Queue → ℕ → Queue → Type 0
Enqueues q t q' =
    (xs : List ℕ) × (p : ℕ) × IsQueue q xs
    × Absent t xs
    × (0 < t)
    × (t % 4 ≡ 0)
    × (p ≢ priority_error)
    × (enqueue (suc (suc (length xs))) q t p ≡ some (0, q'))

abbrev pub Leaves : Queue → ℕ → Queue → Type 0
Leaves q t q' =
    (xs : List ℕ) × (b : Bool) × IsQueue q xs
    × (0 < t)
    × (unlink (suc (length xs)) q t ≡ some (b, q'))

abbrev pub Takes : Queue → ℕ → Queue → Type 0
Takes q t q' = (n : ℕ) × ((q.node t).tokens ≡ suc n) × (q' ≡ taken q t n)

abbrev pub Notifies : Queue → Queue → Type 0
Notifies q q' = (xs : List ℕ) × IsQueue q xs × (notify_all (suc (length xs)) q ≡ some q')

abbrev pub tokens : Queue → ℕ → ℕ
tokens q t = (q.node t).tokens

abbrev pub Elsewhere : Queue → Queue → ℕ → Type 0
Elsewhere q q' u = (Waits q u → Waits q' u) × (tokens q' u ≡ tokens q u)

same_list : {q : Queue} {xs ys : List ℕ} → IsQueue q xs → IsQueue q ys → xs ≡ ys
same_list {q} {xs} {ys} h k = Chain-unique q.node q.head xs ys h.chain k.chain

pub Enqueues-Waits : {q q' : Queue} {t : ℕ} → Enqueues q t q' → Waits q' t
Enqueues-Waits {q} {q'} {t} (xs, p, h, a, pos, aligned, ok, runs) =
    let w = enqueue-Enqueued q xs t p h a pos aligned ok in
    let e : w.after ≡ q' = ground (arith, w.runs, runs) in
    (
      insert q.node p t xs,
      subst (λ z. IsQueue z (insert q.node p t xs)) e w.queue,
      ground (arith, contains-insert q.node p t t xs),
    )

pub Enqueues-others : {q q' : Queue} {t : ℕ} → Enqueues q t q' → (u : ℕ) → t ≢ u → Elsewhere q q' u
Enqueues-others {q} {q'} {t} (xs, p, h, a, pos, aligned, ok, runs) u d =
    let w = enqueue-Enqueued q xs t p h a pos aligned ok in
    let e : w.after ≡ q' = ground (arith, w.runs, runs) in
    subst (λ z. Elsewhere q z u) e
      (
        (λ (ys, k, c).
            let same : ys ≡ xs = same_list k h in
            let c' : contains u xs ≡ true = subst (λ zs. contains u zs ≡ true) same c in
            (insert q.node p t xs, w.queue, ground (arith, contains-insert q.node p t u xs, c'))),
        (w.others u (λ s. d (sym s))).1,
      )

pub Leaves-others : {q q' : Queue} {t : ℕ} → Leaves q t q' → (u : ℕ) → t ≢ u → Elsewhere q q' u
Leaves-others {q} {q'} {t} (xs, b, h, pos, runs) u d =
    elim (Bool-cases (is_unlinked (q.node t).v)) [
      | inl out ↦
          let same : q ≡ q' = ground (arith, unlink_again (suc (length xs)) q t out, runs) in
          subst (λ z. Elsewhere q z u) same ((λ w. w), refl)
      | inr linked ↦
          let w = unlink-Left q xs t h pos linked in
          let e : w.after ≡ q' = ground (arith, w.runs, runs) in
          subst (λ z. Elsewhere q z u) e
            (
              (λ (ys, k, c).
                  let same : ys ≡ xs = same_list k h in
                  let c' : contains u xs ≡ true = subst (λ zs. contains u zs ≡ true) same c in
                  (erase t xs, w.queue, contains-erase t u xs d ∙ c')),
              (w.kept u).1,
            )
    ]

pub Takes-others : {q q' : Queue} {t : ℕ} → Takes q t q' → (u : ℕ) → t ≢ u → Elsewhere q q' u
Takes-others {q} {q'} {t} (n, e, e') u d =
    subst (λ z. Elsewhere q z u) (sym e')
      (
        (λ (ys, k, c). (
          ys,
          record {
            chain = Chain-same q.node (taken q t n).node q.head ys (λ z. ground arith) k.chain;
            distinct = k.distinct;
          },
          c,
        )),
        ground arith,
      )

pub Notifies-positive : {q q' : Queue} → Notifies q q' → (u : ℕ) → Waits q u → 0 < tokens q' u
Notifies-positive {q} {q'} (xs, h, runs) u (ys, k, c) =
    let (after, ran, empty, each) = notify_all_lem q xs h in
    let e : after ≡ q' = ground (arith, ran, runs) in
    let same : ys ≡ xs = same_list k h in
    let c' : contains u xs ≡ true = subst (λ zs. contains u zs ≡ true) same c in
    subst (λ z. 0 < tokens z u) e (ground (arith, each u, c'))

pub Notifies-tokens : {q q' : Queue} → Notifies q q' → (u : ℕ) → tokens q u ≤ tokens q' u
Notifies-tokens {q} {q'} (xs, h, runs) u =
    let (after, ran, empty, each) = notify_all_lem q xs h in
    let e : after ≡ q' = ground (arith, ran, runs) in
    subst (λ z. tokens q u ≤ tokens z u) e (ground (arith, each u))

-- The waiting queue
abbrev pub waiting_queue : WaitQueue
waiting_queue = record {
  Q = Queue;
  Waits = Waits;
  tokens = tokens;
  Enqueues = Enqueues;
  Leaves = Leaves;
  Takes = Takes;
  Notifies = Notifies;
  enqueues_waits = Enqueues-Waits;
  enqueues_others = Enqueues-others;
  leaves_others = Leaves-others;
  takes_others = Takes-others;
  notifies_waiting = Notifies-positive;
  notifies_tokens = Notifies-tokens;
}
