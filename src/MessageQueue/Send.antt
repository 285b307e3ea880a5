-- ===== src/MessageQueue/Send.antt =====
-- Sending through LargeMessageQueue of src/_cmsis_rtos/messagequeue.hpp.
use weos.Common.{
  ℕ, zero, suc, ◌+◌, ◌-◌, ◌^◌, ◌%◌, ◌<◌, ◌≡◌, ◌≢◌, ◌∙◌, refl, sym, ap, subst, ◌⊎◌, inl, inr, arith,
  Bool, true, false, ==_refl, some, List, [], ◌∷◌, ◌++◌, length, length-append, Result, ok, throws,
  Error,
}
use weos.Cmsis.{os_ok}
use weos.MessageQueue.Kernel.{OsMessages, OsPool}
use weos.MessageQueue.Fifo.{Holds, Holds-length, Holds-append, IsFifo}
use weos.MessageQueue.{Large, store, try_send, small_try_send, copied}

module _ (os : OsMessages) (pools : OsPool) (A : Type 0) where
  -- The state after an element has been enqueued in the chunk that the pool gives.
  abbrev sent_state : Large os pools A → A → ℕ → Large os pools A
  sent_state l a n = record {
    num_available = n;
    pool = (pools.alloc l.pool).1;
    pointers = (os.put l.pointers (pools.alloc l.pool).0 0).1;
    objects = store l.objects (pools.alloc l.pool).0 (some a);
  }

  try_send-runs :
      (l : Large os pools A) (a : A) (n : ℕ)
      → l.num_available ≡ suc n
      → (pools.alloc l.pool).0 ≢ 0
      → (pools.alloc l.pool).0 < 2 ^ 32
      → (os.put l.pointers (pools.alloc l.pool).0 0).0 ≡ os_ok
      → try_send os pools A l a (ok tt) ≡ (ok true, sent_state l a n)
  unfolding try_send small_try_send copied
  try_send-runs l a n e z s p =
      let same : (pools.alloc l.pool).0 % 256 ^ 4 ≡ (pools.alloc l.pool).0 = omega (arith, s) in
      rw (e, same) (ground (arith, z, p))

  sent_state-IsFifo :
      (l : Large os pools A) (xs : List A) (a : A) (n : ℕ)
      → IsFifo os pools A l xs
      → l.num_available ≡ suc n
      → IsFifo os pools A (sent_state l a n) (xs ++ a ∷ [])
  sent_state-IsFifo l xs a n h e =
      let (z, s, f, r, t) = pools.alloc_room l.pool n (h.room ∙ e) in
      let filled = Holds-length os pools A l.pool l.objects (os.contents l.pointers) xs h.held in
      let (p, c) =
        os.put_room l.pointers (pools.alloc l.pool).0 0 (omega (arith, filled, h.slots, e)) in
      record {
        held =
            subst
              (λ cs.
                Holds os pools A (pools.alloc l.pool).1 (sent_state l a n).objects cs
                  (xs ++ a ∷ []))
              (sym c)
              (Holds-append os pools A l.pool (pools.alloc l.pool).1 l.objects
                (pools.alloc l.pool).0 a (os.contents l.pointers) xs f z s t h.held);
        slots = omega (arith, length-append xs (a ∷ []), h.slots, e);
        room = r;
      }

  -- What try_send does if the copy of the element does not throw.
  abbrev pub Sends : Large os pools A → List A → A → Result Bool → Large os pools A → Type 0
  Sends l xs a r l' =
      ((length xs < os.capacity) × (r ≡ ok true) × IsFifo os pools A l' (xs ++ a ∷ []))
      ⊎ ((length xs ≡ os.capacity) × (r ≡ ok false) × (l' ≡ l))

  try_send-at :
      (l : Large os pools A) (xs : List A) (a : A) (n : ℕ)
      → IsFifo os pools A l xs
      → l.num_available ≡ n
      → let r = try_send os pools A l a (ok tt) in Sends l xs a r.0 r.1
  unfolding try_send
  try_send-at l xs a zero h e =
      inr (omega (arith, h.slots, e), ground (arith, e), ground (arith, e))
  try_send-at l xs a (suc n) h e =
      let (z, s, f, r, t) = pools.alloc_room l.pool n (h.room ∙ e) in
      let filled = Holds-length os pools A l.pool l.objects (os.contents l.pointers) xs h.held in
      let (p, c) =
        os.put_room l.pointers (pools.alloc l.pool).0 0 (omega (arith, filled, h.slots, e)) in
      let runs = try_send-runs l a n e z s p in
      inl (
        omega (arith, h.slots, e),
        ap (λ q. q.0) runs,
        subst (λ q. IsFifo os pools A q (xs ++ a ∷ [])) (sym (ap (λ q. q.1) runs))
            (sent_state-IsFifo l xs a n h e),
      )

  -- try_send on a queue with elements `xs`, if the copy does not throw: it appends the element and returns
  -- true if they are fewer than the capacity, and else returns false and changes nothing.
  pub try_send-Sends :
      (l : Large os pools A) (xs : List A) (a : A)
      → IsFifo os pools A l xs
      → let r = try_send os pools A l a (ok tt) in Sends l xs a r.0 r.1
  try_send-Sends l xs a h = try_send-at l xs a l.num_available h refl

  -- If the copy of the element throws, try_send on a queue that is not full passes the exception on and
  -- gives the chunk back, but not the slot: from then on one slot fewer can be used than is free.
  pub try_send-loses :
      (l : Large os pools A) (xs : List A) (a : A) (e : Error)
      → IsFifo os pools A l xs
      → length xs < os.capacity
      → let r = try_send os pools A l a (throws e) in
        (r.0 ≡ throws e)
        × (r.1.pointers ≡ l.pointers)
        × (pools.room r.1.pool + length xs ≡ os.capacity)
        × (r.1.num_available + 1 + length xs ≡ os.capacity)
  unfolding try_send
  try_send-loses l xs a e h n =
      let k = l.num_available - 1 in
      let w : l.num_available ≡ suc k = omega (arith, h.slots, n) in
      let (z, s, f, r, t) = pools.alloc_room l.pool k (h.room ∙ w) in
      let (b, c) =
        pools.free_taken (pools.alloc l.pool).1 (pools.alloc l.pool).0
          (ground (arith, t (pools.alloc l.pool).0, ==_refl (pools.alloc l.pool).0)) in
      (
        ground (arith, w, z),
        ground (arith, w, z),
        ground (arith, w, z, b, r, h.slots),
        ground (arith, w, z, h.slots),
      )
