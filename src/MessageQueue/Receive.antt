-- ===== src/MessageQueue/Receive.antt =====
-- Receiving from LargeMessageQueue of src/_cmsis_rtos/messagequeue.hpp.
use weos.Common.{
  ℕ, suc, ◌^◌, ◌%◌, ◌<◌, ◌≡◌, ◌≢◌, refl, sym, ap, subst, arith, Option, none, some, List, [], ◌∷◌,
  Result, ok,
}
use weos.Cmsis.{os_ok, os_event_message}
use weos.MessageQueue.Kernel.{OsMessages, OsPool}
use weos.MessageQueue.Fifo.{Holds, Holds-free, Holds-none, IsFifo}
use weos.MessageQueue.{Large, store, try_receive, fetch, small_try_receive, copied}

module _ (os : OsMessages) (pools : OsPool) (A : Type 0) where
  abbrev fetched : Large os pools A → ℕ → Large os pools A
  fetched l c = record {
    num_available = suc l.num_available;
    pool = pools.free l.pool c;
    pointers = (os.get l.pointers 0).1;
    objects = store l.objects c none;
  }

  try_receive-runs :
      (l : Large os pools A) (x : A) (c : ℕ)
      → (os.get l.pointers 0).0.0 ≡ os_event_message
      → (os.get l.pointers 0).0.1 ≡ c
      → l.objects c ≡ some x
      → c ≢ 0
      → c < 2 ^ 32
      → try_receive os pools A l ≡ (ok (some (some x)), fetched l c)
  unfolding try_receive small_try_receive copied fetch
  try_receive-runs l x c e f o z s =
      let same : c % 256 ^ 4 ≡ c = omega (arith, s) in ground (arith, e, f, same, z, o)

  -- What try_receive does.
  abbrev pub Receives : List A → Result (Option (Option A)) → Large os pools A → Type 0
  Receives [] r l' = (r ≡ ok none) × IsFifo os pools A l' []
  Receives (x ∷ xs) r l' = (r ≡ ok (some (some x))) × IsFifo os pools A l' xs

  try_receive-empty :
      (l : Large os pools A)
      → (os.get l.pointers 0).0.0 ≡ os_ok
      → try_receive os pools A l ≡ (ok none, record l { pointers = (os.get l.pointers 0).1 })
  unfolding try_receive small_try_receive
  try_receive-empty l e = ground (arith, e)

  fetched-IsFifo :
      (l : Large os pools A) (x : A) (xs : List A) (c : ℕ) (cs : List ℕ)
      → IsFifo os pools A l (x ∷ xs)
      → os.contents l.pointers ≡ c ∷ cs
      → Holds os pools A l.pool l.objects (c ∷ cs) (x ∷ xs)
      → IsFifo os pools A (fetched l c) xs
  fetched-IsFifo l x xs c cs h e (t, o, z, s, b, k) =
      let (r, f) = pools.free_taken l.pool c t in
      let (m, d, q) = os.get_datum l.pointers 0 c cs e in
      record {
        held =
            subst (λ ds. Holds os pools A (pools.free l.pool c) (fetched l c).objects ds xs) (sym q)
              (Holds-free os pools A l.pool (pools.free l.pool c) l.objects c cs xs f b k);
        slots = omega (arith, h.slots);
        room = omega (arith, r, h.room);
      }

  try_receive-element :
      (l : Large os pools A) (x : A) (xs : List A) (cs : List ℕ)
      → IsFifo os pools A l (x ∷ xs)
      → os.contents l.pointers ≡ cs
      → Holds os pools A l.pool l.objects cs (x ∷ xs)
      → let r = try_receive os pools A l in Receives (x ∷ xs) r.0 r.1
  try_receive-element l x xs [] h e k = elim k [ ]
  try_receive-element l x xs (c ∷ cs) h e k =
      let (t, o, z, s, b, k') = k in
      let (m, d, q) = os.get_datum l.pointers 0 c cs e in
      let runs = try_receive-runs l x c m d o z s in
      (
        ap (λ r. r.0) runs,
        subst (λ r. IsFifo os pools A r xs) (sym (ap (λ r. r.1) runs))
            (fetched-IsFifo l x xs c cs h e k),
      )

  -- try_receive returns the element that was sent first and takes it out of the queue, or, if the queue is
  -- empty, returns false and leaves it empty.
  pub try_receive-Receives :
      (l : Large os pools A) (xs : List A)
      → IsFifo os pools A l xs
      → let r = try_receive os pools A l in Receives xs r.0 r.1
  try_receive-Receives l [] h =
      let e = Holds-none os pools A l.pool l.objects (os.contents l.pointers) h.held in
      let (m, q) = os.get_empty l.pointers e in
      let runs = try_receive-empty l m in
      (
        ap (λ r. r.0) runs,
        subst (λ r. IsFifo os pools A r []) (sym (ap (λ r. r.1) runs))
            (record {
              held = subst (λ cs. Holds os pools A l.pool l.objects cs []) (sym q) tt;
              slots = h.slots;
              room = h.room;
            }),
      )
  try_receive-Receives l (x ∷ xs) h =
      try_receive-element l x xs (os.contents l.pointers) h refl h.held
