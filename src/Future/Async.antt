-- ===== src/Future/Async.antt =====
-- The shared state of async in src/_cmsis_rtos/_future.hpp: the thread that runs invoke of AsyncSharedState, and the caller of
-- makeAsyncSharedState with its future. A step is one access to the reference count, to m_flags, to the value
-- or to the semaphore of OneshotConditionVariable; of m_flags, the bits that are read are fields. The callable
-- and the move of its result end.
pub mod Invariant
pub mod Freed
pub mod Hang
mod Tests
use weos.Common.{ℕ, zero, suc, ◌-◌, ◌≡◌, ◌≢◌, Bool, true, false, Option, none, some}
use weos.Future.{Outcome}

-- Where the thread stands in invoke.
pub data Worker : Type 0 where
  absent : Worker  -- the thread could not be created
  calling : Worker  -- before m_callable() returns or throws
  starting : Worker  -- before startSettingValue
  storing : Worker  -- before the value or the exception is stored
  marking : Worker  -- before Ready is set
  notifying : Worker  -- before m_cv.notify()
  finished : Worker

-- Why the caller is in SharedStateBase::wait or wait_for, and what get has given.
pub data Purpose (V E : Type 0) : Type 0 where
  wait wait_for get : Purpose V E
  destroy : Option (Outcome V E) → Purpose V E

-- Where the caller stands.
pub data Caller (V E : Type 0) : Type 0 where
  making : Caller V E  -- before the constructor of the future
  attached : Caller V E  -- before the destructor of the unique_ptr
  holding : Caller V E
  testing : Purpose V E → Caller V E  -- before the test of Ready
  blocked : Purpose V E → Caller V E  -- in semaphore::wait or semaphore::try_wait_for
  reposting : Purpose V E → Caller V E  -- before semaphore::post
  reading : Caller V E  -- before the exception and the value are read
  dropping : Option (Outcome V E) → Caller V E  -- before decReferenceCount
  freeing : Option (Outcome V E) → Caller V E  -- before the state is destroyed and the stack freed
  gone : Option (Outcome V E) → Caller V E

-- After wait or wait_for has seen Ready.
pub passed : {V E : Type 0} → Purpose V E → Caller V E
passed wait = Caller.holding
passed wait_for = Caller.holding
passed get = Caller.reading
passed (destroy o) = Caller.freeing o

-- After m_cv.wait or m_cv.wait_for: wait tests again, wait_for returns.
pub reposted : {V E : Type 0} → Purpose V E → Caller V E
reposted wait_for = Caller.holding
reposted p = Caller.testing p

-- `posts` is the value of the semaphore, and `status` tells whether the last wait_for returned future_status::ready.
pub record System (V E : Type 0) : Type 0 where
  pub refs : ℕ
  pub future_attached : Bool
  pub being_satisfied : Bool
  pub ready : Bool
  pub outcome : Option (Outcome V E)
  pub posts : ℕ
  pub destroyed : ℕ
  pub status : Option Bool
  pub worker : Worker
  pub caller : Caller V E

-- The thread has been created and detached.
abbrev pub init : {V E : Type 0} → System V E
init = record {
  refs = 1;
  future_attached = false;
  being_satisfied = false;
  ready = false;
  outcome = none;
  posts = 0;
  destroyed = 0;
  status = none;
  worker = Worker.calling;
  caller = Caller.making;
}

-- The constructor of the thread has thrown, and the unique_ptr of the state goes out of scope.
abbrev pub failed : {V E : Type 0} → System V E
failed = record init { worker = Worker.absent; caller = Caller.dropping none }

-- The status that wait_for returns when it passes
abbrev pub noted : {V E : Type 0} → Purpose V E → Option Bool → Option Bool
noted wait_for status = some true
noted wait status = status
noted get status = status
noted (destroy o) status = status

-- `result` is what the callable returns or throws.
pub data Step {V E : Type 0} (result : Outcome V E) (s : System V E) : System V E → Type 0 where
  call : s.worker ≡ Worker.calling → Step result s (record s { worker = Worker.starting })
  start_setting_value :
      s.worker ≡ Worker.starting
      → s.being_satisfied ≡ false
      → Step result s (record s { being_satisfied = true; worker = Worker.storing })
  store :
      s.worker ≡ Worker.storing
      → Step result s (record s { outcome = some result; worker = Worker.marking })
  mark :
      s.worker ≡ Worker.marking
      → Step result s (record s { ready = true; worker = Worker.notifying })
  notify :
      s.worker ≡ Worker.notifying
      → Step result s (record s { posts = suc s.posts; worker = Worker.finished })
  attach :
      s.caller ≡ Caller.making
      → s.future_attached ≡ false
      → Step result s
          (record s { future_attached = true; refs = suc s.refs; caller = Caller.attached })
  leave :
      s.caller ≡ Caller.attached
      → Step result s (record s { refs = s.refs - 1; caller = Caller.holding })
  begin :
      (p : Purpose V E)
      → s.caller ≡ Caller.holding
      → ((o : Option (Outcome V E)) → p ≢ destroy o)
      → Step result s (record s { caller = Caller.testing p })
  drop : s.caller ≡ Caller.holding → Step result s (record s { caller = Caller.dropping none })
  see :
      (p : Purpose V E)
      → s.caller ≡ Caller.testing p
      → s.ready ≡ true
      → Step result s (record s { caller = passed p; status = noted p s.status })
  block :
      (p : Purpose V E)
      → s.caller ≡ Caller.testing p
      → s.ready ≡ false
      → Step result s (record s { caller = Caller.blocked p })
  decrement :
      (p : Purpose V E) (n : ℕ)
      → s.caller ≡ Caller.blocked p
      → s.posts ≡ suc n
      → Step result s (record s { posts = n; caller = Caller.reposting p })
  timeout :
      s.caller ≡ Caller.blocked wait_for
      → Step result s (record s { caller = Caller.holding; status = some false })
  repost :
      (p : Purpose V E)
      → s.caller ≡ Caller.reposting p
      → Step result s
          (record s { posts = suc s.posts; caller = reposted p; status = noted p s.status })
  read :
      (o : Outcome V E)
      → s.caller ≡ Caller.reading
      → s.outcome ≡ some o
      → Step result s (record s { caller = Caller.dropping (some o) })
  release_last :
      (o : Option (Outcome V E))
      → s.caller ≡ Caller.dropping o
      → s.refs - 1 ≡ 0
      → Step result s (record s { refs = s.refs - 1; caller = Caller.testing (destroy o) })
  release :
      (o : Option (Outcome V E))
      → s.caller ≡ Caller.dropping o
      → s.refs - 1 ≢ 0
      → Step result s (record s { refs = s.refs - 1; caller = Caller.gone o })
  free :
      (o : Option (Outcome V E))
      → s.caller ≡ Caller.freeing o
      → Step result s (record s { destroyed = suc s.destroyed; caller = Caller.gone o })

pub data Reach {V E : Type 0} (result : Outcome V E) (first : System V E)
    : System V E → Type 0 where
  start : Reach result first first
  next : {s t : System V E} → Reach result first s → Step result s t → Reach result first t
