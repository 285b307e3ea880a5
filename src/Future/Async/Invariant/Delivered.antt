-- ===== src/Future/Async/Invariant/Delivered.antt =====
-- What the future of async in src/_cmsis_rtos/_future.hpp delivers.
use weos.Common.{◌≤◌, ◌≡◌, arith, refl, sym, ◌∙◌, true, some}
use weos.Future.{Outcome}
use weos.Future.Async.{Worker, Caller, System, init, Reach}
use weos.Future.Async.Invariant.{has_marked, stored, dead, IsResult, Knows, Inv, stands}
use weos.Future.Async.Invariant.Steps.{Reach-Inv}

module _ {V E : Type 0} where
  dead-≤ : (c : Caller V E) → dead c ≤ 1
  unfolding dead
  dead-≤ (Caller.gone o) = omega arith
  dead-≤ _ = omega arith

  -- The thread marks the state as ready only after it has stored the result.
  marked-stored :
      (result : Outcome V E) (w : Worker) → has_marked w ≡ true → stored result w ≡ some result
  unfolding has_marked stored
  marked-stored result Worker.notifying e = refl
  marked-stored result Worker.finished e = refl
  marked-stored result Worker.absent e = absurd (ground (arith, e))
  marked-stored result Worker.calling e = absurd (ground (arith, e))
  marked-stored result Worker.starting e = absurd (ground (arith, e))
  marked-stored result Worker.storing e = absurd (ground (arith, e))
  marked-stored result Worker.marking e = absurd (ground (arith, e))

  -- In every state that the thread of async and its caller can reach, the shared state has been destroyed at most once,
  -- the flag Ready is set only if the result of the callable is stored, wait_for has returned
  -- future_status::ready only if it is, and if the caller has got something from get and has left, it is what the callable has returned or thrown, and the state was destroyed.
  pub async-delivers :
      {s : System V E} (result : Outcome V E)
      → Reach result init s
      → (s.destroyed ≤ 1)
        × (s.ready ≡ true → s.outcome ≡ some result)
        × (s.status ≡ some true → (s.ready ≡ true) × (s.outcome ≡ some result))
        × ((o : Outcome V E) → s.caller ≡ Caller.gone (some o) → (o ≡ result) × (s.destroyed ≡ 1))
  unfolding Inv dead Knows IsResult
  async-delivers {s} result r =
      let inv = Reach-Inv result r in
      let there : s.ready ≡ true → s.outcome ≡ some result =
        λ e. inv.outcome ∙ marked-stored result s.worker (sym inv.ready ∙ e) in
      (
        ground (arith, inv.destroyed, dead-≤ s.caller),
        there,
        λ e. (inv.status e, there (inv.status e)),
        λ o e. let f = stands result {s = s} inv e in (f.knows.1, f.destroyed),
      )
