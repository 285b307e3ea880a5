-- ===== src/ConditionVariable/Tests.antt =====
-- A run of src/_cmsis_rtos/_condition_variable.cpp on the waiting queue: the thread with the node at 8
-- waits, and is notified without the lock.
use weos.Common.{ℕ, List, ◌==◌, if◌then◌else◌, false, ◌<◌, ◌≡◌, refl, [], arith, true}
use weos.Tq.Contract.{waiting_queue, tokens}
use weos.Tq.Sample.{empty_queue, enqueued, queued, told}
use weos.ConditionVariable.{Owner, WaiterPc, NotifierPc, System, Step, Reach, has_notified}
use weos.ConditionVariable.Reach.{start, next}
use weos.Tq.{notify_one}
use weos.Tq.Chain.{IsQueue, contains}
use weos.Tq.Link.{insert}
use weos.ConditionVariable.Timed.{Notifying, TimedOut, timed_wait-TimedOut}
use weos.ConditionVariable.Wakeup.{no_lost_wakeup}

abbrev after_unlock : System waiting_queue
after_unlock = record {
  flag = false;
  owner = Owner.nobody;
  waiting = enqueued.after;
  pc = λ u.
      if 8 == u
      then WaiterPc.sleeping
      else if 8 == u
      then WaiterPc.releasing
      else if 8 == u
      then WaiterPc.constructing
      else if 8 == u
      then WaiterPc.testing
      else WaiterPc.arriving;
  notifying = NotifierPc.idle;
}

abbrev after_notify : System waiting_queue
after_notify = record after_unlock {
  flag = true;
  waiting = told.0;
  notifying = NotifierPc.finished;
}

after_unlock-Reach : Reach waiting_queue empty_queue after_unlock
after_unlock-Reach =
    next
      (next (next (next start (Step.lock 8 refl refl)) (Step.test_false 8 refl refl)) (
        Step.construct 8 enqueued.after refl (
          [],
          3,
          record { chain = refl; distinct = tt },
          tt,
          ground arith,
          refl,
          omega arith,
          enqueued.runs,
        )))
      (Step.unlock 8 refl)

after_notify-Reach : Reach waiting_queue empty_queue after_notify
after_notify-Reach =
    next
      (next (next (next after_unlock-Reach (Step.notifier_lock refl refl)) (Step.notifier_set refl))
        (Step.notifier_unlock refl))
      (Step.notify_late told.0 refl (queued, enqueued.queue, told.1))

no_lost_wakeup_example : 0 < tokens told.0 8
unfolding has_notified
no_lost_wakeup_example = no_lost_wakeup waiting_queue after_notify-Reach refl 8 refl

queued-contains : contains 8 queued ≡ true
unfolding insert
queued-contains = refl

-- The timeout passes, but a notification has come before the thread leaves the queue.
timed_wait-TimedOut_example :
    (xs : List ℕ) × IsQueue (notify_one enqueued.after) xs
    × TimedOut (notify_one enqueued.after) xs 8 false
timed_wait-TimedOut_example =
    timed_wait-TimedOut enqueued.after (notify_one enqueued.after) queued 8 false enqueued.queue
      queued-contains enqueued.tokens (omega arith) (Notifying.one Notifying.stop)
      (λ e. absurd (ground arith))
