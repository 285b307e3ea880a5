-- ===== src/ConditionVariable/Wakeup.antt =====
-- Every step of src/_cmsis_rtos/_condition_variable.cpp keeps what the threads rely on, so that no wakeup
-- is lost.
use weos.Common.{ℕ, ◌<◌, ◌≡◌, ◌≢◌, inl, refl, subst, arith, Bool, true}
use weos.WaitQueue.{WaitQueue, Elsewhere}
use weos.ConditionVariable.{
  Owner, WaiterPc, NotifierPc, has_notified, System, at, init, Step, Reach,
}
use weos.ConditionVariable.Invariant.{
  Relies, NotifierRelies, Inv, Keeps, moves, keeps, elsewhere, told, notifier_keeps,
}

module _ (queue : WaitQueue) where
  open queue use {Q, Waits, tokens, Enqueues, Leaves, Takes, Notifies}

  stands :
      {s : System queue}
      → Inv queue s
      → (t : ℕ) {pc : WaiterPc} → s.pc t ≡ pc
      → Relies queue s.flag s.owner s.waiting (has_notified s.notifying) t pc
  stands {s} inv t e =
      subst (Relies queue s.flag s.owner s.waiting (has_notified s.notifying) t) e (inv.waiters t)

  notifier_stands :
      {s : System queue}
      → Inv queue s
      → {pc : NotifierPc} → s.notifying ≡ pc
      → NotifierRelies queue s.flag s.owner pc
  notifier_stands {s} inv e = subst (NotifierRelies queue s.flag s.owner) e inv.notifiers

  has_notified-flag :
      {flag : Bool} (owner : Owner) (n : NotifierPc)
      → NotifierRelies queue flag owner n
      → has_notified n ≡ true
      → flag ≡ true
  unfolding has_notified
  has_notified-flag o NotifierPc.idle h e = ground arith
  has_notified-flag o NotifierPc.locked h e = ground arith
  has_notified-flag o NotifierPc.set (h, f) e = f
  has_notified-flag o NotifierPc.unlocked h e = h
  has_notified-flag o NotifierPc.notified (h, f) e = f
  has_notified-flag o NotifierPc.finished h e = h

  -- A step of the thread `t` that the other threads do not see
  advance :
      {s : System queue}
      → Inv queue s
      → (t : ℕ) (new : WaiterPc) (owner : Owner) (q : Q)
      → ((u : ℕ) → t ≢ u → s.owner ≡ Owner.waiter u → owner ≡ Owner.waiter u)
      → (s.owner ≡ Owner.notifier → owner ≡ Owner.notifier)
      → ((u : ℕ) → t ≢ u → Elsewhere queue s.waiting q u)
      → Relies queue s.flag owner q (has_notified s.notifying) t new
      → Inv queue (record s { owner = owner; waiting = q; pc = at queue s.pc t new })
  advance {s} inv t new owner q others notifier away r = record {
    waiters =
        moves queue s.pc t new inv.waiters
          (λ u d. elsewhere queue u (λ k. (others u d k, refl)) (away u d) (λ k. k)) r;
    notifiers = notifier_keeps queue s.flag s.notifying notifier inv.notifiers;
  }

  -- A step of the notifying thread that the waiting threads do not see
  announce :
      {s : System queue}
      → Inv queue s
      → (flag : Bool) (owner : Owner) (q : Q) (new : NotifierPc)
      → ((u : ℕ)
          → Keeps queue s.flag flag s.owner owner s.waiting q
              (has_notified s.notifying)
              (has_notified new)
              u)
      → NotifierRelies queue flag owner new
      → Inv queue (record s { flag = flag; owner = owner; waiting = q; notifying = new })
  announce {s} inv flag owner q new others r = record {
    waiters = λ u. keeps queue u (others u) (s.pc u) (inv.waiters u);
    notifiers = r;
  }

  waiter_only : {o : Owner} {t u : ℕ} → o ≡ Owner.waiter t → t ≢ u → o ≡ Owner.waiter u → ⊥
  waiter_only e d k = d (ground arith)

  not_notifier : {o : Owner} {t : ℕ} → o ≡ Owner.waiter t → o ≡ Owner.notifier → ⊥
  not_notifier e k = ground arith

  pub Step-Inv : {s s' : System queue} → Inv queue s → Step queue s s' → Inv queue s'
  unfolding has_notified
  Step-Inv {s} inv (Step.lock t e free) =
      advance inv t WaiterPc.testing (Owner.waiter t) s.waiting (λ u d k. ground arith)
        (λ k. ground arith) (λ u d. ((λ w. w), refl)) refl
  Step-Inv {s} inv (Step.test_true t e f) =
      advance inv t WaiterPc.passed s.owner s.waiting (λ u d k. k) (λ k. k)
        (λ u d. ((λ w. w), refl)) (stands inv t e, f)
  Step-Inv {s} inv (Step.test_false t e f) =
      advance inv t WaiterPc.constructing s.owner s.waiting (λ u d k. k) (λ k. k)
        (λ u d. ((λ w. w), refl)) (stands inv t e, f)
  Step-Inv {s} inv (Step.construct t q e r) =
      let (mine, f) = stands inv t e in
      advance inv t WaiterPc.releasing s.owner q (λ u d k. k) (λ k. k) (queue.enqueues_others r)
        (mine, f, inl (queue.enqueues_waits r))
  Step-Inv {s} inv (Step.unlock t e) =
      let (mine, f, w) = stands inv t e in
      advance inv t WaiterPc.sleeping Owner.nobody s.waiting
        (λ u d k. absurd (waiter_only mine d k)) (λ k. absurd (not_notifier mine k))
        (λ u d. ((λ w. w), refl))
        (w, λ h. let g = has_notified-flag s.owner s.notifying inv.notifiers h in ground arith)
  Step-Inv {s} inv (Step.wake t q e r) =
      advance inv t WaiterPc.relocking s.owner q (λ u d k. k) (λ k. k) (queue.takes_others r) tt
  Step-Inv {s} inv (Step.relock t e free) =
      advance inv t WaiterPc.leaving (Owner.waiter t) s.waiting (λ u d k. ground arith)
        (λ k. ground arith) (λ u d. ((λ w. w), refl)) refl
  Step-Inv {s} inv (Step.leave t q e r) =
      advance inv t WaiterPc.testing s.owner q (λ u d k. k) (λ k. k) (queue.leaves_others r)
        (stands inv t e)
  Step-Inv {s} inv (Step.go t e) =
      let (mine, f) = stands inv t e in
      advance inv t WaiterPc.gone Owner.nobody s.waiting (λ u d k. absurd (waiter_only mine d k))
        (λ k. absurd (not_notifier mine k)) (λ u d. ((λ w. w), refl)) tt
  Step-Inv {s} inv (Step.notifier_lock e free) =
      announce inv s.flag Owner.notifier s.waiting NotifierPc.locked
        (λ u. elsewhere queue u (λ k. ground arith) ((λ w. w), refl) (λ k. ground arith)) refl
  Step-Inv {s} inv (Step.notifier_set e) =
      let mine = notifier_stands inv e in
      announce inv true s.owner s.waiting NotifierPc.set
        (λ u.
          elsewhere queue u (λ k. absurd (not_notifier k mine)) ((λ w. w), refl)
            (λ k. ground arith))
        (mine, refl)
  Step-Inv {s} inv (Step.notifier_unlock e) =
      let (mine, f) = notifier_stands inv e in
      announce inv s.flag Owner.nobody s.waiting NotifierPc.unlocked
        (λ u.
          elsewhere queue u (λ k. absurd (not_notifier k mine)) ((λ w. w), refl)
            (λ k. ground arith))
        f
  Step-Inv {s} inv (Step.notify_late q e r) =
      announce inv s.flag s.owner q NotifierPc.finished (λ u. told queue u r)
        (notifier_stands inv e)
  Step-Inv {s} inv (Step.notify_locked q e r) =
      announce inv s.flag s.owner q NotifierPc.notified (λ u. told queue u r)
        (notifier_stands inv e)
  Step-Inv {s} inv (Step.unlock_late e) =
      let (mine, f) = notifier_stands inv e in
      announce inv s.flag Owner.nobody s.waiting NotifierPc.finished
        (λ u.
          elsewhere queue u (λ k. absurd (not_notifier k mine)) ((λ w. w), refl) (λ k. rw e refl))
        f

  init-Inv : (q : Q) → Inv queue (init queue q)
  init-Inv q = record { waiters = λ t. tt; notifiers = tt }

  pub Reach-Inv : {q : Q} {s : System queue} → Reach queue q s → Inv queue s
  Reach-Inv Reach.start = init-Inv _
  Reach-Inv (Reach.next r step) = Step-Inv (Reach-Inv r) step

  -- In any interleaving of threads in wait(lock, pred) with one that makes the predicate true under the
  -- lock and calls notify_all before or after it unlocks, no wakeup is lost: once notify_all has been
  -- called, every thread that sleeps in wait has a token, on a queue that keeps the contract of the
  -- waiting queue.
  pub no_lost_wakeup :
      {q : Q} {s : System queue}
      → Reach queue q s
      → has_notified s.notifying ≡ true
      → (t : ℕ) → s.pc t ≡ WaiterPc.sleeping
      → 0 < tokens s.waiting t
  no_lost_wakeup r h t e = let (w, f) = stands (Reach-Inv r) t e in f h

  -- A thread whose wait(lock, pred) has returned owns the lock, and the predicate is true.
  pub wait-passed :
      {q : Q} {s : System queue}
      → Reach queue q s
      → (t : ℕ) → s.pc t ≡ WaiterPc.passed
      → (s.owner ≡ Owner.waiter t) × (s.flag ≡ true)
  wait-passed r t e = stands (Reach-Inv r) t e
