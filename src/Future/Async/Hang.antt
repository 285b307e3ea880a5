-- ===== src/Future/Async/Hang.antt =====
-- makeAsyncSharedState of src/_cmsis_rtos/_future.hpp when the thread cannot be created.
use weos.Common.{ℕ, ◌≡◌, ◌≢◌, refl, subst, arith, false, Option}
use weos.Future.{Outcome}
use weos.Future.Async.{Worker, Purpose, Caller, System, failed, Step, Reach}

module _ {V E : Type 0} where
  -- The caller drops its reference or waits for Ready to destroy the state.
  Place : ℕ → Caller V E → Type 0
  Place refs (Caller.dropping o) = refs ≡ 1
  Place refs (Caller.testing (Purpose.destroy o)) = Unit
  Place refs (Caller.blocked (Purpose.destroy o)) = Unit
  Place refs _ = ⊥

  record Hangs (s : System V E) : Type 0 where
    worker : s.worker ≡ Worker.absent
    ready : s.ready ≡ false
    posts : s.posts ≡ 0
    destroyed : s.destroyed ≡ 0
    place : Place s.refs s.caller

  module _ (result : Outcome V E) where
    at : {s : System V E} {c : Caller V E} → Hangs s → s.caller ≡ c → Place s.refs c
    at {s} h e = subst (Place s.refs) e h.place

    no_worker :
        {s : System V E} {w : Worker} {A : Type 0} → Hangs s → s.worker ≡ w → w ≢ Worker.absent → A
    no_worker h e d = absurd (d (ground (arith, h.worker, e)))

    blocks :
        {s : System V E} (p : Purpose V E)
        → Hangs s
        → s.caller ≡ Caller.testing p
        → Hangs (record s { caller = Caller.blocked p })
    unfolding Place
    blocks {s} Purpose.wait h e = absurd (at {s = s} h e)
    blocks {s} Purpose.wait_for h e = absurd (at {s = s} h e)
    blocks {s} Purpose.get h e = absurd (at {s = s} h e)
    blocks {s} (Purpose.destroy o) h e = record {
      worker = h.worker;
      ready = h.ready;
      posts = h.posts;
      destroyed = h.destroyed;
      place = tt;
    }

    Step-Hangs : {s t : System V E} → Hangs s → Step result s t → Hangs t
    unfolding Place
    Step-Hangs h (Step.call e) = no_worker h e (λ d. ground arith)
    Step-Hangs h (Step.start_setting_value e b) = no_worker h e (λ d. ground arith)
    Step-Hangs h (Step.store e) = no_worker h e (λ d. ground arith)
    Step-Hangs h (Step.mark e) = no_worker h e (λ d. ground arith)
    Step-Hangs h (Step.notify e) = no_worker h e (λ d. ground arith)
    Step-Hangs {s} h (Step.attach e b) = absurd (at {s = s} h e)
    Step-Hangs {s} h (Step.leave e) = absurd (at {s = s} h e)
    Step-Hangs {s} h (Step.begin p e d) = absurd (at {s = s} h e)
    Step-Hangs {s} h (Step.drop e) = absurd (at {s = s} h e)
    Step-Hangs {s} h (Step.see p e r) = absurd (ground (arith, r, h.ready))
    Step-Hangs {s} h (Step.block p e r) = blocks {s = s} p h e
    Step-Hangs {s} h (Step.decrement p n e q) = absurd (ground (arith, q, h.posts))
    Step-Hangs {s} h (Step.timeout e) = absurd (at {s = s} h e)
    Step-Hangs {s} h (Step.repost p e) = absurd (at {s = s} h e)
    Step-Hangs {s} h (Step.read o e q) = absurd (at {s = s} h e)
    Step-Hangs {s} h (Step.release_last o e z) = record {
      worker = h.worker;
      ready = h.ready;
      posts = h.posts;
      destroyed = h.destroyed;
      place = tt;
    }
    Step-Hangs {s} h (Step.release o e z) =
        let one = at {s = s} h e in absurd (z (omega (arith, one)))
    Step-Hangs {s} h (Step.free o e) = absurd (at {s = s} h e)

    Reach-Hangs : {s : System V E} → Reach result failed s → Hangs s
    unfolding Place
    Reach-Hangs Reach.start = record {
      worker = refl;
      ready = refl;
      posts = refl;
      destroyed = refl;
      place = refl;
    }
    Reach-Hangs (Reach.next r step) = Step-Hangs (Reach-Hangs r) step

    -- If the constructor of the thread throws in makeAsyncSharedState, the exception never gets to the caller: whatever is
    -- done, the destructor of the unique_ptr does not end and the shared state is not destroyed.
    pub failed-never_ends :
        {s : System V E}
        → Reach result failed s
        → (s.destroyed ≡ 0) × ((o : Option (Outcome V E)) → s.caller ≢ Caller.gone o)
    unfolding Place
    failed-never_ends {s} r = ((Reach-Hangs r).destroyed, λ o e. at {s = s} (Reach-Hangs r) e)
