-- ===== src/Tq/Unlink.antt =====
-- weos_tq_unlink and _t::unlink of src/_cmsis_rtos/_tq.cpp on the list of waiting threads.
use weos.Common.{
  ℕ, zero, suc, ◌<◌, ◌≡◌, ◌≢◌, refl, sym, ◌∙◌, subst, List, [], ◌∷◌, Absent, Distinct, length,
  arith, ◌==◌, true, if◌then◌else◌, false, some, Bool-cases, inl, inr,
}
use weos.Tq.{
  Node, Queue, put, link_of, redirect, set_unlinked, mark_unlinked, is_unlinked, is_notified,
  unlink_loop, svc_unlink, unlink,
}
use weos.Tq.Chain.{IsQueue, Chain, Chain-update}

unfoldable pub erase : ℕ → List ℕ → List ℕ
erase t [] = []
erase t (x ∷ xs) = if x == t then xs else x ∷ erase t xs

Absent-erase : (t z : ℕ) (xs : List ℕ) → Absent z xs → Absent z (erase t xs)
unfolding erase
Absent-erase t z [] a = tt
Absent-erase t z (x ∷ xs) (a, as') = ground (arith, Absent-erase t z xs as')

Distinct-erase : (t : ℕ) (xs : List ℕ) → Distinct xs → Distinct (erase t xs)
unfolding erase
Distinct-erase t [] d = tt
Distinct-erase t (x ∷ xs) (d, ds) = ground (arith, Distinct-erase t xs ds, Absent-erase t x xs d)

-- The loop at the thread `i` of the queue, which is not `t`, before the threads `xs`.
record Unlinked (fuel : ℕ) (q : Queue) (t i : ℕ) (xs : List ℕ) : Type 0 where
  after : Queue
  runs : unlink_loop fuel q t (link_of (q.node t).v) i ≡ some after
  head : after.head ≡ q.head
  chain : Chain after.node i (i ∷ erase t xs)
  frame : (z : ℕ) → Absent z (i ∷ xs) → z ≢ t → after.node z ≡ q.node z
  kept :
      (z : ℕ)
      → ((after.node z).priority ≡ (q.node z).priority)
        × ((after.node z).tokens ≡ (q.node z).tokens)
  marked : (after.node t).v ≡ mark_unlinked (q.node t).v

unlink_loop-Unlinked :
    (fuel : ℕ) (q : Queue) (t i : ℕ) (xs : List ℕ)
    → length xs < fuel
    → Chain q.node i (i ∷ xs)
    → Distinct (i ∷ xs)
    → i ≢ t
    → Unlinked fuel q t i xs
unfolding unlink_loop erase
unlink_loop-Unlinked zero q t i xs h c d ne = absurd (omega arith)
unlink_loop-Unlinked (suc fuel) q t i [] h c d ne = record {
  after = set_unlinked q t;
  runs = ground arith;
  head = refl;
  chain = ground arith;
  frame = λ z b e. ground arith;
  kept = λ z. ground arith;
  marked = ground arith;
}
unlink_loop-Unlinked (suc fuel) q t i (y ∷ ys) h (e, w, c) (d, ds) ne = elim (Bool-cases (y == t)) [
  | inl hit ↦
      let m : Node = record (q.node i) { v = redirect (q.node i).v (link_of (q.node t).v) } in
      let cut = put q i m in
      let y_is_t : y ≡ t = ground arith in
      let kept =
        Chain-update cut.node t (record (cut.node t) { v = mark_unlinked (cut.node t).v })
          (link_of (q.node y).v) ys (subst (λ z. Absent z ys) y_is_t ds.0)
          (Chain-update q.node i m (link_of (q.node y).v) ys d.1 c.2) in
      let here : link_of ((set_unlinked cut t).node i).v ≡ link_of (q.node y).v = ground arith in
      record {
        after = set_unlinked cut t;
        runs = ground arith;
        head = refl;
        chain =
            rw (hit, erase)
              (
                refl,
                ground arith,
                subst (λ a. Chain (set_unlinked cut t).node a ys) (sym here) kept,
              );
        frame = λ z b k. ground arith;
        kept = λ z. ground arith;
        marked = ground arith;
      }
  | inr miss ↦
      let rest =
        unlink_loop-Unlinked fuel q t y ys (omega arith) (refl, c.1, c.2) ds (ground arith) in
      record {
        after = rest.after;
        runs = ground (arith, rest.runs);
        head = rest.head;
        chain = rw (miss, erase) (ground (arith, rest.frame i d ne, rest.chain));
        frame = λ z b k. rest.frame z b.1 k;
        kept = rest.kept;
        marked = rest.marked;
      }
]

-- What unlink has done.
pub record Left (q : Queue) (xs : List ℕ) (t : ℕ) : Type 0 where
  pub after : Queue
  pub runs : unlink (suc (length xs)) q t ≡ some (is_notified (q.node t).v, after)
  pub queue : IsQueue after (erase t xs)
  pub marked : (after.node t).v ≡ mark_unlinked (q.node t).v
  pub kept :
      (z : ℕ)
      → ((after.node z).priority ≡ (q.node z).priority)
        × ((after.node z).tokens ≡ (q.node z).tokens)

unlink-runs :
    (fuel : ℕ) (q after : Queue) (t : ℕ)
    → svc_unlink fuel q t ≡ some after
    → is_unlinked (q.node t).v ≡ false
    → (after.node t).v ≡ mark_unlinked (q.node t).v
    → unlink fuel q t ≡ some (is_notified (q.node t).v, after)
unfolding unlink
unlink-runs fuel q after t e u m = ground arith

-- A node that is marked as unlinked is left alone.
pub unlink_again :
    (fuel : ℕ) (q : Queue) (t : ℕ)
    → is_unlinked (q.node t).v ≡ true
    → unlink fuel q t ≡ some (is_notified (q.node t).v, q)
unfolding unlink
unlink_again fuel q t u = ground arith

-- A thread whose node is not null and not marked as unlinked leaves the queue: it is taken out of its
-- place if it has one, its node is marked, and the other threads keep theirs.
pub unlink-Left :
    (q : Queue) (xs : List ℕ) (t : ℕ)
    → IsQueue q xs
    → 0 < t
    → is_unlinked (q.node t).v ≡ false
    → Left q xs t
unfolding svc_unlink erase
unlink-Left q [] t h pos u = record {
  after = set_unlinked q t;
  runs = unlink-runs 1 q (set_unlinked q t) t (ground (arith, h.chain)) u (ground arith);
  queue = record { chain = h.chain; distinct = tt };
  marked = ground arith;
  kept = λ z. ground arith;
}
unlink-Left q (x ∷ xs) t h pos u = elim (Bool-cases (x == t)) [
  | inl hit ↦
      let first : x ≡ t = ground arith in
      let popped : Queue = record q { head = link_of (q.node t).v } in
      let rest = subst (λ z. Chain q.node (link_of (q.node z).v) xs) first h.chain.2 in
      let kept =
        Chain-update q.node t (record (q.node t) { v = mark_unlinked (q.node t).v })
          (link_of (q.node t).v) xs (subst (λ z. Absent z xs) first h.distinct.0) rest in
      record {
        after = set_unlinked popped t;
        runs =
            unlink-runs (suc (suc (length xs))) q (set_unlinked popped t) t
              (ground (arith, h.chain.0)) u (ground arith);
        queue = record {
          chain = rw (hit, erase) kept;
          distinct = Distinct-erase t (x ∷ xs) h.distinct;
        };
        marked = ground arith;
        kept = λ z. ground arith;
      }
  | inr miss ↦
      let w =
        unlink_loop-Unlinked (suc (suc (length xs))) q t x xs (omega arith)
          (refl, h.chain.1, h.chain.2) h.distinct (ground arith) in
      record {
        after = w.after;
        runs =
            unlink-runs (suc (suc (length xs))) q w.after t (ground (arith, w.runs, h.chain)) u
              w.marked;
        queue = record {
          chain = rw (miss, erase) (w.head ∙ h.chain.0, w.chain.1, w.chain.2);
          distinct = Distinct-erase t (x ∷ xs) h.distinct;
        };
        marked = w.marked;
        kept = w.kept;
      }
]
