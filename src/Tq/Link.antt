-- ===== src/Tq/Link.antt =====
-- weos_tq_link of src/_cmsis_rtos/_tq.cpp on the list of waiting threads.
use weos.Common.{
  ℕ, zero, suc, ◌%◌, ◌<◌, ◌≡◌, ◌≢◌, refl, sym, ◌∙◌, subst, List, [], ◌∷◌, Absent, Distinct, length,
  arith, if◌then◌else◌, some, leb, Bool-cases, inl, inr,
}
use weos.Tq.{Node, Queue, update, put, link_of, redirect, link, link_loop, priority_error, enqueue}
use weos.Tq.Chain.{IsQueue, Chain, Chain-update}

-- Behind the threads of priority `p` or higher.
unfoldable pub insert_rest : (ℕ → Node) → ℕ → ℕ → List ℕ → List ℕ
insert_rest node p t [] = t ∷ []
insert_rest node p t (y ∷ ys) =
    if leb p (node y).priority then y ∷ insert_rest node p t ys else t ∷ y ∷ ys

-- The first thread stays the first, whatever its priority.
unfoldable pub insert : (ℕ → Node) → ℕ → ℕ → List ℕ → List ℕ
unfolding insert_rest
insert node p t [] = t ∷ []
insert node p t (x ∷ xs) = x ∷ insert_rest node p t xs

Absent-insert_rest :
    (node : ℕ → Node) (p t x : ℕ) (xs : List ℕ)
    → t ≢ x
    → Absent x xs
    → Absent x (insert_rest node p t xs)
unfolding insert_rest
Absent-insert_rest node p t x [] d a = (d, tt)
Absent-insert_rest node p t x (y ∷ ys) d (e, es) =
    ground (arith, Absent-insert_rest node p t x ys d es)

Distinct-insert_rest :
    (node : ℕ → Node) (p t : ℕ) (xs : List ℕ)
    → Absent t xs
    → Distinct xs
    → Distinct (insert_rest node p t xs)
unfolding insert_rest
Distinct-insert_rest node p t [] a d = (tt, tt)
Distinct-insert_rest node p t (y ∷ ys) (e, es) (d, ds) =
    elim (Bool-cases (leb p (node y).priority)) [
      | inl h ↦
          rw (h, insert_rest)
            (
              Absent-insert_rest node p t y ys (λ q. e (sym q)) d,
              Distinct-insert_rest node p t ys es ds,
            )
      | inr h ↦ rw (h, insert_rest) ((e, es), (d, ds))
    ]

-- The loop at the thread `i` of the queue, before the threads `xs`.
record Linked (fuel : ℕ) (q : Queue) (t p i : ℕ) (xs : List ℕ) : Type 0 where
  after : Queue
  runs : link_loop fuel q t p i ≡ some after
  head : after.head ≡ q.head
  chain : Chain after.node i (i ∷ insert_rest q.node p t xs)
  frame : (z : ℕ) → Absent z (i ∷ xs) → z ≢ t → after.node z ≡ q.node z
  kept :
      (z : ℕ)
      → ((after.node z).priority ≡ (q.node z).priority)
        × ((after.node z).tokens ≡ (q.node z).tokens)

-- The write of `t` behind `i`.
abbrev spliced : Queue → ℕ → ℕ → Queue
spliced q t i =
    let linked = put q t (record (q.node t) { v = link_of (q.node i).v }) in
    put linked i (record (linked.node i) { v = redirect (q.node i).v t })

spliced-Chain :
    (q : Queue) (t i : ℕ) (xs : List ℕ)
    → Chain q.node i (i ∷ xs)
    → Distinct (i ∷ xs)
    → Absent t (i ∷ xs)
    → 0 < t
    → t % 4 ≡ 0
    → Chain (spliced q t i).node i (i ∷ t ∷ xs)
spliced-Chain q t i xs (e, w, c) (d, ds) (a, as') pos aligned =
    let next = link_of (q.node i).v in
    let n : Node = record (q.node t) { v = next } in
    let linked = put q t n in
    let m : Node = record (linked.node i) { v = redirect (q.node i).v t } in
    let kept = Chain-update linked.node i m next xs d (Chain-update q.node t n next xs as' c) in
    ground (arith, kept)

spliced-Linked :
    (fuel : ℕ) (q : Queue) (t p i : ℕ) (xs : List ℕ)
    → link_loop (suc fuel) q t p i ≡ some (spliced q t i)
    → insert_rest q.node p t xs ≡ t ∷ xs
    → Chain q.node i (i ∷ xs)
    → Distinct (i ∷ xs)
    → Absent t (i ∷ xs)
    → 0 < t
    → t % 4 ≡ 0
    → Linked (suc fuel) q t p i xs
spliced-Linked fuel q t p i xs runs e c d a pos aligned = record {
  after = spliced q t i;
  runs = runs;
  head = refl;
  chain = rw e (spliced-Chain q t i xs c d a pos aligned);
  frame = λ z b ne. ground arith;
  kept = λ z. ground arith;
}

link_loop-Linked :
    (fuel : ℕ) (q : Queue) (t p i : ℕ) (xs : List ℕ)
    → length xs < fuel
    → Chain q.node i (i ∷ xs)
    → Distinct (i ∷ xs)
    → Absent t (i ∷ xs)
    → 0 < t
    → t % 4 ≡ 0
    → Linked fuel q t p i xs
unfolding link_loop insert_rest
link_loop-Linked zero q t p i xs h c d a pos aligned = absurd (omega arith)
link_loop-Linked (suc fuel) q t p i [] h c d a pos aligned =
    spliced-Linked fuel q t p i [] (ground arith) refl c d a pos aligned
link_loop-Linked (suc fuel) q t p i (y ∷ ys) h (e, w, c) (d, ds) (a, as') pos aligned =
    elim (Bool-cases (leb p (q.node y).priority)) [
      | inl later ↦
          let rest =
            link_loop-Linked fuel q t p y ys (omega arith) (refl, c.1, c.2) ds as' pos aligned in
          record {
            after = rest.after;
            runs = ground (arith, rest.runs);
            head = rest.head;
            chain = rw (later, insert_rest) (ground (arith, rest.frame i d (λ q. a q), rest.chain));
            frame = λ z b ne. rest.frame z b.1 ne;
            kept = rest.kept;
          }
      | inr here ↦
          spliced-Linked fuel q t p i (y ∷ ys) (ground arith) (rw (here, insert_rest) refl)
            (e, w, c) (d, ds) (a, as') pos aligned
    ]

link_loop-null :
    (fuel : ℕ) (q : Queue) (t p : ℕ)
    → 0 < q.head
    → link_loop (suc fuel) q t p 0 ≡ link_loop (suc fuel) q t p q.head
unfolding link_loop
link_loop-null fuel q t p h = ground arith

link_loop-empty :
    (fuel : ℕ) (q : Queue) (t p : ℕ)
    → q.head ≡ 0
    → link_loop (suc fuel) q t p 0 ≡ some (record q { head = t })
unfolding link_loop
link_loop-empty fuel q t p h = ground arith

insert_rest-update :
    (node : ℕ → Node) (p t s : ℕ) (n : Node) (xs : List ℕ)
    → Absent s xs
    → insert_rest (update node s n) p t xs ≡ insert_rest node p t xs
unfolding insert_rest
insert_rest-update node p t s n [] a = refl
insert_rest-update node p t s n (x ∷ xs) (a, as') =
    ground (arith, insert_rest-update node p t s n xs as')

-- The new node, before it is linked.
abbrev fresh : ℕ → Node
fresh p = record { v = 0; tokens = 0; priority = p }

abbrev prioritised : Queue → ℕ → ℕ → Queue
prioritised q t p = put (put q t (fresh 0)) t (fresh p)

-- What the constructor of a node has done.
pub record Enqueued (q : Queue) (xs : List ℕ) (t p : ℕ) : Type 0 where
  pub after : Queue
  pub runs : enqueue (suc (suc (length xs))) q t p ≡ some (0, after)
  pub queue : IsQueue after (insert q.node p t xs)
  pub priority : (after.node t).priority ≡ p
  pub tokens : (after.node t).tokens ≡ 0
  pub others :
      (z : ℕ)
      → z ≢ t
      → ((after.node z).priority ≡ (q.node z).priority)
        × ((after.node z).tokens ≡ (q.node z).tokens)

-- The constructor of a node puts the thread into the queue with no notification: into an empty queue,
-- or behind the first thread and all threads after that of its own or a higher priority. All other
-- threads keep their places, priorities and tokens. The address of the node is a multiple of 4, not
-- null and not in the queue, and the priority is not that of an error.
pub enqueue-Enqueued :
    (q : Queue) (xs : List ℕ) (t p : ℕ)
    → IsQueue q xs
    → Absent t xs
    → 0 < t
    → t % 4 ≡ 0
    → p ≢ priority_error
    → Enqueued q xs t p
unfolding enqueue link insert
enqueue-Enqueued q [] t p h a pos aligned ok = record {
  after = record (prioritised q t p) { head = t };
  runs = ground (arith, link_loop-empty 1 (prioritised q t p) t p h.chain);
  queue = record { chain = ground arith; distinct = (tt, tt) };
  priority = ground arith;
  tokens = ground arith;
  others = λ z ne. ground arith;
}
enqueue-Enqueued q (x ∷ xs) t p h (a, as') pos aligned ok =
    let q1 = prioritised q t p in
    let c =
      Chain-update (put q t (fresh 0)).node t (fresh p) q.head (x ∷ xs) (a, as')
        (Chain-update q.node t (fresh 0) q.head (x ∷ xs) (a, as') h.chain) in
    let w =
      link_loop-Linked (suc (suc (suc (length xs)))) q1 t p x xs (omega arith) (refl, c.1, c.2)
        h.distinct (a, as') pos aligned in
    let same =
      insert_rest-update (put q t (fresh 0)).node p t t (fresh p) xs as'
      ∙ insert_rest-update q.node p t t (fresh 0) xs as' in
    record {
      after = w.after;
      runs = ground (
        arith,
        link_loop-null (suc (suc (length xs))) q1 t p (omega (arith, h.chain.0, h.chain.1.0)),
        w.runs,
        h.chain.0,
      );
      queue = record {
        chain = (
          w.head ∙ h.chain.0,
          w.chain.1,
          subst (Chain w.after.node (link_of (w.after.node x).v)) same w.chain.2,
        );
        distinct = (
          Absent-insert_rest q.node p t x xs (λ e. a (sym e)) h.distinct.0,
          Distinct-insert_rest q.node p t xs as' h.distinct.1,
        );
      };
      priority = ground (arith, w.kept t);
      tokens = ground (arith, w.kept t);
      others = λ z ne. ground (arith, w.kept z);
    }
