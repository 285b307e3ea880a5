-- ===== src/Future/Async/Invariant/Progress.antt =====
-- The thread and the caller of async in src/_cmsis_rtos/_future.hpp never block each other for good.
use weos.Common.{◌≡◌, ◌⊎◌, inl, inr, refl, arith, Option}
use weos.Future.{Outcome}
use weos.Future.Async.{Worker, Purpose, Caller, System, Step, init, Reach}
use weos.Future.Async.Invariant.{
  has_satisfied, has_marked, has_notified, held, owed, has_attached, stored, Facts, Inv,
}
use weos.Future.Async.Invariant.Steps.{Reach-Inv}

module _ {V E : Type 0} where
  module _ (result : Outcome V E) where
    abbrev CanStep : System V E → Type 0
    CanStep s = (t : System V E) × Step result s t

    -- Where the thread has ended, its token is there unless the caller has it.
    token :
        {s : System V E} (p : Purpose V E)
        → Facts result s Worker.finished (Caller.blocked p)
        → s.posts ≡ 1
    unfolding has_notified owed
    token p f = omega (arith, f.posts)

    -- The thread has ended.
    caller_moves :
        (s : System V E) (c : Caller V E)
        → s.caller ≡ c
        → Facts result s Worker.finished c
        → CanStep s ⊎ ((o : Option (Outcome V E)) × (s.caller ≡ Caller.gone o))
    unfolding has_marked has_attached stored held
    caller_moves s Caller.making e f = inl (_, Step.attach e f.attached)
    caller_moves s Caller.attached e f = inl (_, Step.leave e)
    caller_moves s Caller.holding e f = inl (_, Step.drop e)
    caller_moves s (Caller.testing p) e f = inl (_, Step.see p e f.ready)
    caller_moves s (Caller.blocked p) e f = inl (_, Step.decrement p 0 e (token p f))
    caller_moves s (Caller.reposting p) e f = inl (_, Step.repost p e)
    caller_moves s Caller.reading e f = inl (_, Step.read result e f.outcome)
    caller_moves s (Caller.dropping o) e f = inl (_, Step.release_last o e (omega (arith, f.refs)))
    caller_moves s (Caller.freeing o) e f = inl (_, Step.free o e)
    caller_moves s (Caller.gone o) e f = inr (o, e)

    worker_moves :
        (s : System V E) (w : Worker)
        → s.worker ≡ w
        → Facts result s w s.caller
        → CanStep s
          ⊎ ((s.worker ≡ Worker.finished)
              × ((o : Option (Outcome V E)) × (s.caller ≡ Caller.gone o)))
    unfolding has_satisfied
    worker_moves s Worker.absent e f = absurd f.present
    worker_moves s Worker.calling e f = inl (_, Step.call e)
    worker_moves s Worker.starting e f = inl (_, Step.start_setting_value e f.satisfied)
    worker_moves s Worker.storing e f = inl (_, Step.store e)
    worker_moves s Worker.marking e f = inl (_, Step.mark e)
    worker_moves s Worker.notifying e f = inl (_, Step.notify e)
    worker_moves s Worker.finished e f = elim (caller_moves s s.caller refl f) [
      | inl m ↦ inl m
      | inr g ↦ inr (e, g)
    ]

    -- In every state that the thread of async and its caller can reach, one of them can go on, unless the thread has
    -- ended and the caller has given up its future and the shared state.
    pub async-proceeds :
        {s : System V E}
        → Reach result init s
        → ((t : System V E) × Step result s t)
          ⊎ ((s.worker ≡ Worker.finished)
              × ((o : Option (Outcome V E)) × (s.caller ≡ Caller.gone o)))
    unfolding Inv
    async-proceeds {s} r = worker_moves s s.worker refl (Reach-Inv result r)
