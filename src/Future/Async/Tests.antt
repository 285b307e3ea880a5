-- ===== src/Future/Async/Tests.antt =====
-- A run of async in src/_cmsis_rtos/_future.hpp whose callable returns 5.
use weos.Common.{ℕ, ◌≤◌, ◌≡◌, ◌≢◌, ◌⊎◌, refl, true, Option, none, some}
use weos.Future.{Outcome}
use weos.Future.Async.{Worker, Purpose, Caller, System, failed, Step, Reach}
use weos.Future.Async.Freed.{notify-freed}
use weos.Future.Async.Hang.{failed-never_ends}
use weos.Future.Async.Invariant.Delivered.{async-delivers}
use weos.Future.Async.Invariant.Progress.{async-proceeds}

abbrev five : Outcome ℕ ℕ
five = Outcome.returns 5

-- The caller has got 5, and the thread has not ended.
abbrev got_five : System ℕ ℕ
got_five = (notify-freed five).0

async-delivers_example :
    (got_five.destroyed ≤ 1)
    × (got_five.ready ≡ true → got_five.outcome ≡ some five)
    × (got_five.status ≡ some true → (got_five.ready ≡ true) × (got_five.outcome ≡ some five))
    × ((o : Outcome ℕ ℕ)
        → got_five.caller ≡ Caller.gone (some o)
        → (o ≡ five) × (got_five.destroyed ≡ 1))
async-delivers_example = async-delivers five (notify-freed five).1

async-proceeds_example :
    ((t : System ℕ ℕ) × Step five got_five t)
    ⊎ ((got_five.worker ≡ Worker.finished)
        × ((o : Option (Outcome ℕ ℕ)) × (got_five.caller ≡ Caller.gone o)))
async-proceeds_example = async-proceeds five (notify-freed five).1

-- The caller waits in the destructor for a thread that does not exist.
abbrev hanging : (s : System ℕ ℕ) × Reach five failed s
hanging = (
  _,
  Reach.next (Reach.next Reach.start (Step.release_last none refl refl))
      (Step.block (Purpose.destroy none) refl refl),
)

failed-never_ends_example :
    (hanging.0.destroyed ≡ 0) × ((o : Option (Outcome ℕ ℕ)) → hanging.0.caller ≢ Caller.gone o)
failed-never_ends_example = failed-never_ends five hanging.1
