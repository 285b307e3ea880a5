-- ===== src/Host/Thread/Tests.antt =====
-- A run of src/_cxx11/_thread.cpp: a thread is created, runs and is joined, and another one gets its id.
use weos.Common.{ℕ, ◌≡◌, refl, arith, true, false, none, some, moved}
use weos.Host.Thread.{Pc, HandlePc, is_running, System, Step, Reach}
use weos.Host.Thread.Reach.{start, next}
use weos.Host.Thread.Registry.{registry-found}

-- Thread 1 has the id 7 and is joined; thread 2 has the id 7 and runs its function.
abbrev reused : System
reused = record {
  states = moved (moved (moved (λ i. none) 7 (some 1)) 7 none) 7 (some 2);
  failed = false;
  id = moved (moved (λ t. 0) 1 7) 2 7;
  pc =
      moved
        (moved
          (moved
            (moved
              (moved
                (moved
                  (moved (moved (moved (λ t. Pc.absent) 1 Pc.adding) 1 Pc.marking) 1 Pc.executing) 1
                  Pc.parked)
                1 Pc.removing)
              1 Pc.ended)
            2 Pc.adding)
          2 Pc.marking)
        2 Pc.executing;
  handle =
      moved
        (moved
          (moved (moved (moved (λ t. HandlePc.empty) 1 HandlePc.creating) 1 HandlePc.joinable) 1
            HandlePc.joining)
          1 HandlePc.joined)
        2 HandlePc.creating;
  marked = moved (moved (λ t. false) 1 true) 2 true;
  told = moved (λ t. false) 1 true;
}

reused-Reach : Reach reused
unfolding is_running
reused-Reach =
    let running =
      next
        (next
          (next (next start (Step.create 1 7 refl refl (λ u h e. ground (arith, h))))
            (Step.add 1 refl refl))
          (Step.mark 1 refl))
        (Step.created 1 refl refl) in
    let ended =
      next
        (next
          (next (next (next running (Step.executed 1 refl)) (Step.join 1 refl))
            (Step.leave 1 refl refl))
          (Step.remove 1 1 refl refl))
        (Step.join_ends 1 refl refl) in
    next
      (next (next ended (Step.create 2 7 refl refl (λ u h e. ground (arith, h))))
        (Step.add 2 refl refl))
      (Step.mark 2 refl)

registry-found_example :
    (reused.failed ≡ false)
    × ((t : ℕ) → reused.pc t ≡ Pc.executing → reused.states (reused.id t) ≡ some t)
registry-found_example = registry-found reused-Reach
