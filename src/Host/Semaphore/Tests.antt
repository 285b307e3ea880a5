-- ===== src/Host/Semaphore/Tests.antt =====
-- A run of src/_cxx11/_semaphore.cpp: one thread takes a token, another one posts, and a third one cannot take the mutex.
use weos.Common.{refl, arith, some, none, moved}
use weos.Host.Semaphore.{Use, Pc, System, init, Step, Reach}
use weos.Host.Semaphore.Reach.{start, next}
use weos.Host.Semaphore.Stuck.{IsStuck, post-IsStuck}

abbrev token_taken : System
token_taken = record {
  tokens = 1;
  owner = none;
  taken = 1;
  pc =
      moved
        (moved
          (moved (moved (moved (λ t. Pc.idle) 1 (Pc.locking Use.wait)) 1 (Pc.testing Use.wait)) 1
            Pc.taking)
          1 Pc.leaving)
        1 Pc.idle;
}

abbrev posting : System
posting = record token_taken {
  owner = some 2;
  pc = moved (moved token_taken.pc 2 Pc.post_guard) 2 Pc.post_lock;
}

abbrev waiting : System
waiting = record posting { pc = moved posting.pc 3 (Pc.locking Use.try_wait) }

token_taken-Reach : Reach (init 2) token_taken
token_taken-Reach =
    let tested =
      next (next (next start (Step.call 1 Use.wait refl)) (Step.lock 1 Use.wait refl refl))
        (Step.test_some 1 Use.wait refl refl (omega arith)) in
    next (next tested (Step.take 1 refl)) (Step.leave 1 refl)

posting-Reach : Reach (init 2) posting
posting-Reach = next (next token_taken-Reach (Step.post 2 refl)) (Step.guard 2 refl refl)

post-IsStuck_example : IsStuck 2 posting waiting
post-IsStuck_example =
    post-IsStuck 2 (omega arith) posting-Reach refl (next start (Step.call 3 Use.try_wait refl))
