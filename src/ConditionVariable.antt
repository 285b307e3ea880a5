-- ===== src/ConditionVariable.antt =====
-- src/_cmsis_rtos/_condition_variable.hpp and .cpp: any number of threads in wait(lock, pred), and one that
-- makes the predicate true under the lock and then calls notify_all, before or after it unlocks. A step
-- is one access to the lock, to the predicate or to the waiting queue.
pub mod Invariant
pub mod Wakeup
pub mod Timed
mod Tests
use weos.Common.{ℕ, ◌≡◌, ◌==◌, Bool, true, false, if◌then◌else◌}
use weos.WaitQueue.{WaitQueue}

-- The owner of the mutex
pub data Owner : Type 0 where
  nobody notifier : Owner
  waiter : ℕ → Owner

-- Where a thread in wait(lock, pred) stands.
pub data WaiterPc : Type 0 where
  arriving : WaiterPc  -- before the caller locks
  testing : WaiterPc  -- before pred()
  constructing : WaiterPc  -- wait(lock): before _t t(m_tq)
  releasing : WaiterPc  -- lock_releaser: before m_lock.unlock()
  sleeping : WaiterPc  -- before t.wait() returns
  relocking : WaiterPc  -- ~lock_releaser: before m_lock.lock()
  leaving : WaiterPc  -- before ~_t
  passed : WaiterPc  -- pred() was true: wait(lock, pred) has returned
  gone : WaiterPc  -- the caller has unlocked

pub data NotifierPc : Type 0 where
  idle : NotifierPc
  locked : NotifierPc  -- before the predicate becomes true
  set : NotifierPc  -- the predicate is true
  unlocked : NotifierPc  -- before notify_all, without the lock
  notified : NotifierPc  -- after notify_all, with the lock
  finished : NotifierPc

-- Has notify_all been called?
pub has_notified : NotifierPc → Bool
has_notified NotifierPc.notified = true
has_notified NotifierPc.finished = true
has_notified _ = false

module _ (queue : WaitQueue) where
  open queue use {Q, tokens, Enqueues, Leaves, Takes, Notifies}

  pub record System : Type 0 where
    pub flag : Bool
    pub owner : Owner
    pub waiting : Q
    pub pc : ℕ → WaiterPc
    pub notifying : NotifierPc

  abbrev pub at : (ℕ → WaiterPc) → ℕ → WaiterPc → ℕ → WaiterPc
  at pc t new = λ u. if t == u then new else pc u

  -- All threads arrive, and nobody has notified.
  abbrev pub init : Q → System
  init q = record {
    flag = false;
    owner = Owner.nobody;
    waiting = q;
    pc = λ t. WaiterPc.arriving;
    notifying = NotifierPc.idle;
  }

  pub data Step (s : System) : System → Type 0 where
    lock :
        (t : ℕ)
        → s.pc t ≡ WaiterPc.arriving
        → s.owner ≡ Owner.nobody
        → Step s (record s { owner = Owner.waiter t; pc = at s.pc t WaiterPc.testing })
    test_true :
        (t : ℕ)
        → s.pc t ≡ WaiterPc.testing
        → s.flag ≡ true
        → Step s (record s { pc = at s.pc t WaiterPc.passed })
    test_false :
        (t : ℕ)
        → s.pc t ≡ WaiterPc.testing
        → s.flag ≡ false
        → Step s (record s { pc = at s.pc t WaiterPc.constructing })
    construct :
        (t : ℕ) (q : Q)
        → s.pc t ≡ WaiterPc.constructing
        → Enqueues s.waiting t q
        → Step s (record s { waiting = q; pc = at s.pc t WaiterPc.releasing })
    unlock :
        (t : ℕ)
        → s.pc t ≡ WaiterPc.releasing
        → Step s (record s { owner = Owner.nobody; pc = at s.pc t WaiterPc.sleeping })
    wake :
        (t : ℕ) (q : Q)
        → s.pc t ≡ WaiterPc.sleeping
        → Takes s.waiting t q
        → Step s (record s { waiting = q; pc = at s.pc t WaiterPc.relocking })
    relock :
        (t : ℕ)
        → s.pc t ≡ WaiterPc.relocking
        → s.owner ≡ Owner.nobody
        → Step s (record s { owner = Owner.waiter t; pc = at s.pc t WaiterPc.leaving })
    leave :
        (t : ℕ) (q : Q)
        → s.pc t ≡ WaiterPc.leaving
        → Leaves s.waiting t q
        → Step s (record s { waiting = q; pc = at s.pc t WaiterPc.testing })
    go :
        (t : ℕ)
        → s.pc t ≡ WaiterPc.passed
        → Step s (record s { owner = Owner.nobody; pc = at s.pc t WaiterPc.gone })
    notifier_lock :
        s.notifying ≡ NotifierPc.idle
        → s.owner ≡ Owner.nobody
        → Step s (record s { owner = Owner.notifier; notifying = NotifierPc.locked })
    notifier_set :
        s.notifying ≡ NotifierPc.locked
        → Step s (record s { flag = true; notifying = NotifierPc.set })
    notifier_unlock :
        s.notifying ≡ NotifierPc.set
        → Step s (record s { owner = Owner.nobody; notifying = NotifierPc.unlocked })
    notify_late :
        (q : Q)
        → s.notifying ≡ NotifierPc.unlocked
        → Notifies s.waiting q
        → Step s (record s { waiting = q; notifying = NotifierPc.finished })
    notify_locked :
        (q : Q)
        → s.notifying ≡ NotifierPc.set
        → Notifies s.waiting q
        → Step s (record s { waiting = q; notifying = NotifierPc.notified })
    unlock_late :
        s.notifying ≡ NotifierPc.notified
        → Step s (record s { owner = Owner.nobody; notifying = NotifierPc.finished })

  pub data Reach (q : Q) : System → Type 0 where
    start : Reach q (init q)
    next : {s t : System} → Reach q s → Step s t → Reach q t
