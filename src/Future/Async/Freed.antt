-- ===== src/Future/Async/Freed.antt =====
-- The shared state of async in src/_cmsis_rtos/_future.hpp is freed too early.
use weos.Common.{◌≡◌, ◌≢◌, refl, arith, Option, some}
use weos.Future.{Outcome}
use weos.Future.Async.{Worker, Purpose, Caller, passed, System, Step, init, Reach}

module _ {V E : Type 0} where
  unlike : (o : Option (Outcome V E)) → Purpose.get ≢ Purpose.destroy o
  unlike o e = ground arith

  -- Whatever the callable returns or throws, the caller can get it from the future and destroy the shared state, with the
  -- stack that the state and the thread stand on, while the thread has yet to call m_cv.notify() of that state.
  pub notify-freed :
      (result : Outcome V E)
      → (s : System V E) × Reach result init s
        × (s.worker ≡ Worker.notifying)
        × (s.destroyed ≡ 1)
        × (s.caller ≡ Caller.gone (some result))
  unfolding passed
  notify-freed result =
      let made = Reach.next (Reach.next Reach.start (Step.attach refl refl)) (Step.leave refl) in
      let called =
        Reach.next (Reach.next made (Step.call refl)) (Step.start_setting_value refl refl) in
      let marked = Reach.next (Reach.next called (Step.store refl)) (Step.mark refl) in
      let getting = Reach.next marked (Step.begin Purpose.get refl unlike) in
      let read =
        Reach.next (Reach.next getting (Step.see Purpose.get refl refl))
          (Step.read result refl refl) in
      let last = Reach.next read (Step.release_last (some result) refl refl) in
      let seen = Reach.next last (Step.see (Purpose.destroy (some result)) refl refl) in
      (_, Reach.next seen (Step.free (some result) refl), refl, refl, refl)
