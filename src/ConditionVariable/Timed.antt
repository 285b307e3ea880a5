-- ===== src/ConditionVariable/Timed.antt =====
-- wait_for and wait_until of src/_cmsis_rtos/_condition_variable.hpp, after the thread has entered the queue: others
-- notify, and the wait for a token ends, with one or by its timeout.
use weos.Common.{
  ℕ, suc, ◌%◌, ◌<◌, ◌≡◌, ◌↔◌, ◌⊎◌, inl, inr, refl, sym, subst, List, [], ◌∷◌, Absent, length, arith,
  ◌==◌, Bool, true, false, if◌then◌else◌, Bool-cases, Option, none, some,
}
use weos.Tq.{link_of, Queue, Node, is_notified, is_unlinked, notify_one, notify_all, unlink}
use weos.Tq.Contract.{Chain-unique}
use weos.Tq.Chain.{IsQueue, Chain, contains}
use weos.Tq.Notify.{notify_one_first, notify_one_empty, notify_all_lem, contains-Absent}
use weos.Tq.Unlink.{erase, unlink_again, unlink-Left}

pub data CvStatus : Type 0 where
  no_timeout timeout : CvStatus

-- `waited` is the result of t.wait_for or t.wait_until.
pub timed_wait : ℕ → Queue → ℕ → Bool → Option (CvStatus × Queue)
timed_wait fuel q t waited =
    let called = unlink fuel q t in
    if waited then some (CvStatus.no_timeout, q) else elim called [
      | none ↦ none
      | some (b, q') ↦ some (if b then CvStatus.no_timeout else CvStatus.timeout, q')
    ]

-- Notifications of the queue, one after the other
pub data Notifying : Queue → Queue → Type 0 where
  stop : {q : Queue} → Notifying q q
  one : {q r : Queue} → Notifying (notify_one q) r → Notifying q r
  all :
      {q s r : Queue} (xs : List ℕ)
      → IsQueue q xs
      → notify_all (suc (length xs)) q ≡ some s
      → Notifying s r
      → Notifying q r

-- The thread waits, or has been notified and has a token.
abbrev pub IsPending : Queue → List ℕ → ℕ → Type 0
IsPending q xs t =
    ((contains t xs ≡ true) × ((q.node t).tokens ≡ 0) × (is_notified (q.node t).v ≡ false))
    ⊎ ((contains t xs ≡ false)
        × (is_unlinked (q.node t).v ≡ true)
        × (is_notified (q.node t).v ≡ true))

record Pending (q : Queue) (t : ℕ) : Type 0 where
  threads : List ℕ
  queue : IsQueue q threads
  pending : IsPending q threads t

first-Pending :
    (q : Queue) (t x : ℕ) (xs : List ℕ)
    → IsQueue q (x ∷ xs)
    → IsPending q (x ∷ xs) t
    → Pending (notify_one q) t
first-Pending q t x xs h p =
    let (rest, here, others) = notify_one_first q x xs h in
    elim (Bool-cases (x == t)) [
      | inl e ↦
          let same : x ≡ t = ground (arith, e) in
          record {
            threads = xs;
            queue = rest;
            pending = inr (
              contains-Absent t xs (subst (λ z. Absent z xs) same h.distinct.0),
              ground (arith, here, same),
              ground (arith, here, same),
            );
          }
      | inr e ↦
          let kept = others t (λ k. ground (arith, k, e)) in
          record { threads = xs; queue = rest; pending = rw kept (rw e at p) }
    ]

one-Pending : (q : Queue) (t : ℕ) → Pending q t → Pending (notify_one q) t
one-Pending q t w = cases w.threads w.queue w.pending
  where
    cases : (xs : List ℕ) → IsQueue q xs → IsPending q xs t → Pending (notify_one q) t
    cases [] h p =
        subst (λ z. Pending z t) (sym (notify_one_empty q h))
          (record { threads = []; queue = h; pending = p })
    cases (x ∷ xs) h p = first-Pending q t x xs h p

all-Pending :
    (q s : Queue) (t : ℕ) (xs : List ℕ)
    → IsQueue q xs
    → notify_all (suc (length xs)) q ≡ some s
    → Pending q t
    → Pending s t
all-Pending q s t xs h runs w =
    let (after, ran, empty, each) = notify_all_lem q xs h in
    let e : after ≡ s = ground (arith, ran, runs) in
    let same : w.threads ≡ xs = Chain-unique q.node q.head w.threads xs w.queue.chain h.chain in
    let p : IsPending q xs t = subst (λ zs. IsPending q zs t) same w.pending in
    let new : IsPending after [] t = elim p [
      | inl (c, n, f) ↦ inr (refl, ground (arith, each t, c), ground (arith, each t, c))
      | inr (c, u, n) ↦ inr (refl, ground (arith, each t, c, u), ground (arith, each t, c, n))
    ] in
    subst (λ z. Pending z t) e (record { threads = []; queue = empty; pending = new })

Notifying-Pending : {q r : Queue} (t : ℕ) → Notifying q r → Pending q t → Pending r t
Notifying-Pending t Notifying.stop w = w
Notifying-Pending t (Notifying.one n) w = Notifying-Pending t n (one-Pending _ t w)
Notifying-Pending t (Notifying.all xs h runs n) w =
    Notifying-Pending t n (all-Pending _ _ t xs h runs w)

-- What a timed wait has done, at whose end the threads `xs` wait.
pub record TimedOut (r : Queue) (xs : List ℕ) (t : ℕ) (waited : Bool) : Type 0 where
  pub status : CvStatus
  pub after : Queue
  pub runs : timed_wait (suc (length xs)) r t waited ≡ some (status, after)
  pub notified : (status ≡ CvStatus.no_timeout) ↔ (is_notified (r.node t).v ≡ true)
  pub left : status ≡ CvStatus.timeout → IsQueue after (erase t xs)

-- The flags of a waiting node are clear.
waiting-clear :
    (node : ℕ → Node) (a : ℕ) (xs : List ℕ) (t : ℕ)
    → Chain node a xs
    → contains t xs ≡ true
    → (node t).v % 4 ≡ 0
waiting-clear node a [] t c e = absurd (ground (arith, e))
waiting-clear node a (x ∷ xs) t (h, w, c) e = elim (Bool-cases (x == t)) [
  | inl k ↦ let same : x ≡ t = ground (arith, k) in subst (λ z. (node z).v % 4 ≡ 0) same w.2
  | inr k ↦ waiting-clear node (link_of (node x).v) xs t c (rw k at e)
]

ended :
    (r : Queue) (xs : List ℕ) (t : ℕ) (waited : Bool)
    → IsQueue r xs
    → IsPending r xs t
    → 0 < t
    → (waited ≡ true → 0 < (r.node t).tokens)
    → TimedOut r xs t waited
unfolding timed_wait
ended r xs t true h (inl (c, n, f)) pos k = let some_token = k refl in absurd (omega arith)
ended r xs t false h (inl (c, n, f)) pos k =
    let clear = waiting-clear r.node r.head xs t h.chain c in
    let w = unlink-Left r xs t h pos (ground (arith, clear)) in
    record {
      status = CvStatus.timeout;
      after = w.after;
      runs = rw (w.runs, f) refl;
      notified = ((λ e. ground arith), λ e. ground (arith, e, f));
      left = λ e. w.queue;
    }
ended r xs t true h (inr (c, u, f)) pos k = record {
  status = CvStatus.no_timeout;
  after = r;
  runs = refl;
  notified = ((λ e. f), λ e. refl);
  left = λ e. absurd (ground arith);
}
ended r xs t false h (inr (c, u, f)) pos k = record {
  status = CvStatus.no_timeout;
  after = r;
  runs = rw (unlink_again (suc (length xs)) r t u, f) refl;
  notified = ((λ e. f), λ e. refl);
  left = λ e. absurd (ground arith);
}

-- A timed wait of a thread that is in the queue without a token, and then any notifications of the queue
-- before its end: it ends, with a timeout if and only if none of them has reached the thread, and after
-- a timeout the queue is that of the threads `xs` that wait at its end, less this one. A wait for a token
-- succeeds only if there is one.
pub timed_wait-TimedOut :
    (q r : Queue) (zs : List ℕ) (t : ℕ) (waited : Bool)
    → IsQueue q zs
    → contains t zs ≡ true
    → (q.node t).tokens ≡ 0
    → 0 < t
    → Notifying q r
    → (waited ≡ true → 0 < (r.node t).tokens)
    → (xs : List ℕ) × IsQueue r xs × TimedOut r xs t waited
timed_wait-TimedOut q r zs t waited h c n pos steps k =
    let clear = waiting-clear q.node q.head zs t h.chain c in
    let w =
      Notifying-Pending t steps
        (record { threads = zs; queue = h; pending = inl (c, n, ground (arith, clear)) }) in
    (w.threads, w.queue, ended r w.threads t waited w.queue w.pending pos k)
